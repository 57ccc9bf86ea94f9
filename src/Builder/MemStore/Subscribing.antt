-- ===== src/Builder/MemStore/Subscribing.antt =====
-- Subscribing to a build and closing its subscribers, under the invariant.
use compute_backend.Prelude.{
  ℕ, zero, suc, ◌<◌, ◌≡◌, refl, inl, inr, true, false, some, List, [], ◌∷◌, ◌++◌, arith, leb, ◌==◌,
  if◌then◌else◌, Option-cases, length, get_elem?, get_elem?-concat, All, All-append,
}
use compute_backend.Strings.{Text}
use compute_backend.Maps.{lookup}
use compute_backend.Builder.Channels.Defs.{Channel, Heap, capacity, fresh}
use compute_backend.Builder.Channels.Laws.{IsOpen, mem, Distinct, shut, close_all_lem, fill_lem}
use compute_backend.Builder.MemStore.Defs.{
  replaced, BuildRecord, MemStore, done, blocks, subscribers_of, subscribe, close_subscribers,
}
use compute_backend.Builder.MemStore.Invariant.{
  Disjoint, IsWellFormed, Disjoint-sym, replaced-IsWellFormed,
}

IsOpen-lt : (heap : Heap) (j : ℕ) → IsOpen heap j → j < length heap
IsOpen-lt [] j o = cc
IsOpen-lt (c ∷ heap) zero o = omega arith
IsOpen-lt (c ∷ heap) (suc j) o = omega (arith, IsOpen-lt heap j o)

mem_fresh : (heap : Heap) (chs : List ℕ) → All (IsOpen heap) chs → mem (length heap) chs ≡ false
mem_fresh heap [] opens = refl
mem_fresh heap (j ∷ chs) (o, opens) = ground (arith, IsOpen-lt heap j o, mem_fresh heap chs opens)

pub mem-concat :
    (j ch : ℕ) (chs : List ℕ) → mem j (chs ++ ch ∷ []) ≡ (if ch == j then true else mem j chs)
mem-concat j ch [] = ground arith
mem-concat j ch (d ∷ chs) = ground (arith, mem-concat j ch chs)

Distinct-concat :
    (ch : ℕ) (chs : List ℕ) → Distinct chs → mem ch chs ≡ false → Distinct (chs ++ ch ∷ [])
Distinct-concat ch [] d out = (refl, tt)
Distinct-concat ch (e ∷ chs) (apart, d) out =
    (ground (arith, mem-concat e ch chs), Distinct-concat ch chs d (ground arith))

IsOpen-append : (heap : Heap) (c : Channel) (j : ℕ) → IsOpen heap j → IsOpen (heap ++ c ∷ []) j
IsOpen-append [] c j o = cc
IsOpen-append (d ∷ heap) c zero o = o
IsOpen-append (d ∷ heap) c (suc j) o = IsOpen-append heap c j o

All-IsOpen-append :
    (heap : Heap) (c : Channel) (chs : List ℕ)
    → All (IsOpen heap) chs
    → All (IsOpen (heap ++ c ∷ [])) chs
All-IsOpen-append heap c [] opens = tt
All-IsOpen-append heap c (j ∷ chs) (o, opens) =
    (IsOpen-append heap c j o, All-IsOpen-append heap c chs opens)

abbrev pub replaying : List Text → Channel
replaying logs = record { buffer = logs; closed = false }

-- A subscription to a build that is there: a new channel holds the log, if that fits into its buffer; if not,
-- the method blocks.
pub subscribe_found :
    (id : Text) (s : MemStore) (rec : BuildRecord)
    → lookup id s.items ≡ some rec
    → subscribe id s
      ≡ some (
          if leb (length rec.logs) capacity
          then done (
            length s.heap,
            replaced id
                (record rec { subscribers = rec.subscribers ++ length s.heap ∷ [] })
                (s.heap ++ replaying rec.logs ∷ [])
                s,
          )
          else blocks)
unfolding subscribe
subscribe_found id s rec found = ground (arith, fill_lem rec.logs fresh (omega arith))

-- A subscription that returns keeps the invariant.
pub subscribe-IsWellFormed :
    (id : Text) (s t : MemStore) (ch : ℕ)
    → subscribe id s ≡ some (done (ch, t))
    → IsWellFormed s
    → IsWellFormed t
subscribe-IsWellFormed id s t ch h w = elim (Option-cases (lookup id s.items)) [
  | inl missing ↦ unfold subscribe in ground arith
  | inr (rec, found) ↦
      let c = replaying rec.logs in
      let n = length s.heap in
      let new = record rec { subscribers = rec.subscribers ++ n ∷ [] } in
      let own : subscribers_of id s ≡ rec.subscribers = unfold subscribers_of in ground arith in
      let opens : All (IsOpen s.heap) rec.subscribers = rw own at (w.opens id) in
      let fits : leb (length rec.logs) capacity ≡ true =
        ground (arith, subscribe_found id s rec found) in
      let e : t ≡ replaced id new (s.heap ++ c ∷ []) s =
        ground (arith, subscribe_found id s rec found) in
      let last : IsOpen (s.heap ++ c ∷ []) n = rw (get_elem?-concat s.heap c) fits in
      rw e (
        replaced-IsWellFormed id new (s.heap ++ c ∷ []) s
          (All-append (IsOpen (s.heap ++ c ∷ [])) rec.subscribers (n ∷ [])
            (All-IsOpen-append s.heap c rec.subscribers opens) (last, tt))
          (Distinct-concat n rec.subscribers (rw own at (w.distinct id))
            (mem_fresh s.heap rec.subscribers opens))
          (λ j ne. All-IsOpen-append s.heap c (subscribers_of j s) (w.opens j))
          (λ j ne k m. ground (
            arith,
            mem-concat k n rec.subscribers,
            mem_fresh s.heap (subscribers_of j s) (w.opens j),
            own,
            w.disjoint id j ne k,
          ))
          w)
]

IsOpen-besides :
    (heap h : Heap) (to : List ℕ)
    → ((j : ℕ) → get_elem? h j ≡ (if mem j to then shut (get_elem? heap j) else get_elem? heap j))
    → (chs : List ℕ) → Disjoint chs to
    → All (IsOpen heap) chs
    → All (IsOpen h) chs
IsOpen-besides heap h to at [] d opens = tt
IsOpen-besides heap h to at (j ∷ chs) d (o, opens) =
    (ground (arith, at j, d j), IsOpen-besides heap h to at chs (λ k m. d k (ground arith)) opens)

-- What closing the subscribers of a build does: they are closed and forgotten, and no other channel changes.
pub close_subscribers_found :
    (id : Text) (s : MemStore) (rec : BuildRecord)
    → lookup id s.items ≡ some rec
    → IsWellFormed s
    → (h : Heap) × (close_subscribers id s
        ≡ done (replaced id (record rec { subscribers = [] }) h s))
      × ((j : ℕ)
          → get_elem? h j
            ≡ (if mem j rec.subscribers then shut (get_elem? s.heap j) else get_elem? s.heap j))
close_subscribers_found id s rec found w =
    let own : subscribers_of id s ≡ rec.subscribers = unfold subscribers_of in ground arith in
    let (h, closed, at) =
      close_all_lem rec.subscribers s.heap (rw own at (w.distinct id)) (rw own at (w.opens id)) in
    (h, unfold close_subscribers in ground arith, at)

-- Closing the subscribers of a build does not panic and keeps the invariant, also where they were closed
-- before.
pub close_subscribers-IsWellFormed :
    (id : Text) (s : MemStore)
    → IsWellFormed s
    → (t : MemStore) × (close_subscribers id s ≡ done t) × IsWellFormed t
close_subscribers-IsWellFormed id s w = elim (Option-cases (lookup id s.items)) [
  | inl missing ↦ (s, unfold close_subscribers in ground arith, w)
  | inr (rec, found) ↦
      let own : subscribers_of id s ≡ rec.subscribers = unfold subscribers_of in ground arith in
      let (h, e, at) = close_subscribers_found id s rec found w in
      let new = record rec { subscribers = [] } in
      (
        replaced id new h s,
        e,
        replaced-IsWellFormed id new h s tt tt
            (λ j ne.
              IsOpen-besides s.heap h rec.subscribers at (subscribers_of j s)
                (Disjoint-sym rec.subscribers (subscribers_of j s) (rw own at (w.disjoint id j ne)))
                (w.opens j))
            (λ j ne k m. cc) w,
      )
]
