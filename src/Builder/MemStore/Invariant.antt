-- ===== src/Builder/MemStore/Invariant.antt =====
-- The invariant of the builds in memory: every subscriber is an open channel of its own.
use compute_backend.Prelude.{
  Time, ℕ, ◌≡◌, refl, sym, ◌∙◌, ◌≢◌, inl, inr, Bool, true, false, some, List, [], ◌∷◌, ◌++◌, arith,
  if◌then◌else◌, Bool-cases, Option-cases, get_elem?, All,
}
use compute_backend.Strings.{Text, text_eq, text_eq→eq, text_eq_refl, eq→text_eq}
use compute_backend.Maps.{lookup, lookup-insert}
use compute_backend.Builder.Types.{Build, Status}
use compute_backend.Builder.Channels.Defs.{Heap}
use compute_backend.Builder.Channels.Laws.{
  IsOpen, mem, Distinct, pushed, offer_all_lem, live-pushed,
}
use compute_backend.Builder.MemStore.Defs.{
  replaced, with_status, BuildRecord, MemStore, new_mem_store, done, create, set_status,
  subscribers_of, send_all, broadcast, append_log,
}

abbrev pub Disjoint : List ℕ → List ℕ → Type 0
Disjoint chs ds = (j : ℕ) → mem j chs ≡ true → mem j ds ≡ false

pub record IsWellFormed (s : MemStore) : Type 0 where
  pub opens : (id : Text) → All (IsOpen s.heap) (subscribers_of id s)
  pub distinct : (id : Text) → Distinct (subscribers_of id s)
  pub disjoint : (id id' : Text) → id ≢ id' → Disjoint (subscribers_of id s) (subscribers_of id' s)

pub subscribers_of-insert :
    (id j : Text) (new : BuildRecord) (h : Heap) (s : MemStore)
    → subscribers_of j (replaced id new h s)
      ≡ (if text_eq id j then new.subscribers else subscribers_of j s)
unfolding subscribers_of
subscribers_of-insert id j new h s = ground (arith, lookup-insert id j new s.items)

pub Disjoint-sym : (a b : List ℕ) → Disjoint a b → Disjoint b a
Disjoint-sym a b d j h = ground (arith, d j)

-- What a record that is put at `id` has to meet, beside the records that stay.
module _ (id : Text) (new : BuildRecord) (h : Heap) (s : MemStore)
    (new_opens : All (IsOpen h) new.subscribers) (new_distinct : Distinct new.subscribers)
    (others_open : (j : Text) → id ≢ j → All (IsOpen h) (subscribers_of j s))
    (apart : (j : Text) → id ≢ j → Disjoint new.subscribers (subscribers_of j s))
    (w : IsWellFormed s) where
  pub replaced-IsWellFormed : IsWellFormed (replaced id new h s)
  replaced-IsWellFormed = record {
    opens = λ j. elim (Bool-cases (text_eq id j)) [
      | inl same ↦ rw (subscribers_of-insert id j new h s, same) new_opens
      | inr other ↦
          rw (subscribers_of-insert id j new h s, other)
            (others_open j (λ e. cc (eq→text_eq id j e)))
    ];
    distinct = λ j. elim (Bool-cases (text_eq id j)) [
      | inl same ↦ rw (subscribers_of-insert id j new h s, same) new_distinct
      | inr other ↦ rw (subscribers_of-insert id j new h s, other) (w.distinct j)
    ];
    disjoint = λ j k ne.
        rw (subscribers_of-insert id j new h s, subscribers_of-insert id k new h s)
          (elim (Bool-cases (text_eq id j)) [
            | inl same_j ↦ elim (Bool-cases (text_eq id k)) [
              | inl same_k ↦ absurd (ne (sym (text_eq→eq id j same_j) ∙ text_eq→eq id k same_k))
              | inr other_k ↦ rw (same_j, other_k) (apart k (λ e. cc (eq→text_eq id k e)))
            ]
            | inr other_j ↦ elim (Bool-cases (text_eq id k)) [
              | inl same_k ↦
                  rw (other_j, same_k)
                    (Disjoint-sym new.subscribers (subscribers_of j s)
                      (apart j (λ e. cc (eq→text_eq id j e))))
              | inr other_k ↦ rw (other_j, other_k) (w.disjoint j k ne)
            ]
          ]);
  }

pub IsWellFormed-new : IsWellFormed new_mem_store
unfolding subscribers_of lookup
IsWellFormed-new = record {
  opens = λ id. tt;
  distinct = λ id. tt;
  disjoint = λ id id' ne j h. refl;
}

pub create-IsWellFormed : (b : Build) (s : MemStore) → IsWellFormed s → IsWellFormed (create b s)
unfolding create
create-IsWellFormed b s w =
    replaced-IsWellFormed b.id (record { build = b; subscribers = []; logs = [] }) s.heap s tt tt
      (λ j ne. w.opens j) (λ j ne k h. cc) w

-- A record that keeps its subscribers, over a heap that keeps open what is open.
pub kept-IsWellFormed :
    (id : Text) (rec new : BuildRecord) (h : Heap) (s : MemStore)
    → lookup id s.items ≡ some rec
    → new.subscribers ≡ rec.subscribers
    → ((chs : List ℕ) → All (IsOpen s.heap) chs → All (IsOpen h) chs)
    → IsWellFormed s
    → IsWellFormed (replaced id new h s)
unfolding subscribers_of
kept-IsWellFormed id rec new h s found same keep w =
    let own : new.subscribers ≡ subscribers_of id s = ground arith in
    replaced-IsWellFormed id new h s (rw own (keep (subscribers_of id s) (w.opens id)))
      (rw own (w.distinct id)) (λ j ne. keep (subscribers_of j s) (w.opens j))
      (λ j ne. rw own (w.disjoint id j ne)) w

pub set_status-IsWellFormed :
    (id : Text) (st : Status) (finished : Bool) (at : Time) (msg : Text) (now : Time) (s : MemStore)
    (b : Build) (t : MemStore)
    → set_status id st finished at msg now s ≡ some (b, t)
    → IsWellFormed s
    → IsWellFormed t
set_status-IsWellFormed id st finished at msg now s b t h w =
    elim (Option-cases (lookup id s.items)) [
      | inl missing ↦ unfold set_status in ground arith
      | inr (rec, found) ↦
          let b' = with_status st finished at msg now rec.build in
          let new = record rec { build = b' } in
          let e : t ≡ replaced id new s.heap s = unfold set_status in ground arith in
          rw e (kept-IsWellFormed id rec new s.heap s found refl (λ chs o. o) w)
    ]

pub IsOpen-after :
    (heap h : Heap) (msg : Text) (to : List ℕ)
    → ((j : ℕ)
        → get_elem? h j ≡ (if mem j to then pushed msg (get_elem? heap j) else get_elem? heap j))
    → (chs : List ℕ) → All (IsOpen heap) chs
    → All (IsOpen h) chs
IsOpen-after heap h msg to at [] opens = tt
IsOpen-after heap h msg to at (j ∷ chs) (o, opens) = (
  ground (arith, at j, live-pushed msg (get_elem? heap j) o),
  IsOpen-after heap h msg to at chs opens,
)

-- What appending to a build's log does: the line goes to the log and to each subscriber that has room.
pub append_log_found :
    (id line : Text) (s : MemStore) (rec : BuildRecord)
    → lookup id s.items ≡ some rec
    → IsWellFormed s
    → (h : Heap) × (append_log id line s
        ≡ done (replaced id (record rec { logs = rec.logs ++ line ∷ [] }) h s))
      × ((j : ℕ)
          → get_elem? h j ≡ (
              if mem j rec.subscribers
              then pushed line (get_elem? s.heap j)
              else get_elem? s.heap j))
append_log_found id line s rec found w =
    let new = record rec { logs = rec.logs ++ line ∷ [] } in
    let own : subscribers_of id s ≡ rec.subscribers = unfold subscribers_of in ground arith in
    let (h, sent, at) =
      offer_all_lem rec.subscribers line s.heap (rw own at (w.distinct id))
        (rw own at (w.opens id)) in
    let again : subscribers_of id (replaced id new s.heap s) ≡ rec.subscribers =
      ground (arith, subscribers_of-insert id id new s.heap s, text_eq_refl id) in
    (h, unfold append_log broadcast send_all in ground arith, at)

-- Appending a line does not panic and keeps the invariant, whatever the subscribers' buffers hold.
pub append_log-IsWellFormed :
    (id line : Text) (s : MemStore)
    → IsWellFormed s
    → (t : MemStore) × (append_log id line s ≡ done t) × IsWellFormed t
append_log-IsWellFormed id line s w = elim (Option-cases (lookup id s.items)) [
  | inl missing ↦ (s, unfold append_log in ground arith, w)
  | inr (rec, found) ↦
      let (h, e, at) = append_log_found id line s rec found w in
      (
        replaced id (record rec { logs = rec.logs ++ line ∷ [] }) h s,
        e,
        kept-IsWellFormed id rec (record rec { logs = rec.logs ++ line ∷ [] }) h s found refl
            (IsOpen-after s.heap h line rec.subscribers at) w,
      )
]
