-- ===== src/Builder/Channels/Laws.antt =====
-- What sends and closes do to a heap whose channels are open, at every index of the heap.
use compute_backend.Prelude.{
  ℕ, ◌+◌, ◌≤◌, ◌≡◌, refl, inl, inr, Bool, true, false, Option, none, some, List, [], ◌∷◌, ◌++◌,
  append_assoc, append-nil, arith, ltb, leb, ◌==◌, if◌then◌else◌, Bool-cases, length, get_elem?,
  set, get_elem?-set_self, get_elem?-set_ne, length-append, any, All,
}
use compute_backend.Strings.{Text}
use compute_backend.Builder.Channels.Defs.{
  Channel, Heap, capacity, offer, offer_all, close, close_all, fill,
}

-- There is a channel, it is open, and its buffer is in bounds.
abbrev pub live : Option Channel → Bool
live none = false
live (some c) = if c.closed then false else leb (length c.buffer) capacity

abbrev pub IsOpen : Heap → ℕ → Type 0
IsOpen heap ch = live (get_elem? heap ch) ≡ true

abbrev pub mem : ℕ → List ℕ → Bool
mem j chs = any (λ d. d == j) chs

abbrev pub Distinct : List ℕ → Type 0
Distinct [] = Unit
Distinct (d ∷ ds) = (mem d ds ≡ false) × Distinct ds

-- The channel behind a send that does not block, and behind a close.
abbrev pub pushed : Text → Option Channel → Option Channel
pushed msg none = none
pushed msg (some c) =
    some (if ltb (length c.buffer) capacity then record c { buffer = c.buffer ++ msg ∷ [] } else c)

abbrev pub shut : Option Channel → Option Channel
shut none = none
shut (some c) = some (record c { closed = true })

pub live-pushed : (msg : Text) (o : Option Channel) → live o ≡ true → live (pushed msg o) ≡ true
live-pushed msg none h = h
live-pushed msg (some c) h = ground (arith, length-append c.buffer (msg ∷ []))

get_elem?-set :
    (heap : Heap) (ch j : ℕ) (v c : Channel)
    → get_elem? heap ch ≡ some c
    → get_elem? (set heap ch v) j ≡ (if ch == j then some v else get_elem? heap j)
get_elem?-set heap ch j v c found =
    ground (arith, get_elem?-set_self heap ch v found, get_elem?-set_ne heap ch j v)

pub offer_lem :
    (ch : ℕ) (msg : Text) (heap : Heap)
    → IsOpen heap ch
    → (h : Heap) × (offer ch msg heap ≡ some h)
      × ((j : ℕ)
          → get_elem? h j ≡ (if ch == j then pushed msg (get_elem? heap j) else get_elem? heap j))
unfolding offer
offer_lem ch msg heap is_open = go (get_elem? heap ch) refl is_open
  where
    go :
        (o : Option Channel)
        → get_elem? heap ch ≡ o
        → live o ≡ true
        → (h : Heap) × (offer ch msg heap ≡ some h)
          × ((j : ℕ)
              → get_elem? h j
                ≡ (if ch == j then pushed msg (get_elem? heap j) else get_elem? heap j))
    go none e l = cc
    go (some c) e l = elim (Bool-cases (ltb (length c.buffer) capacity)) [
      | inl room ↦
          let c' = record c { buffer = c.buffer ++ msg ∷ [] } in
          (set heap ch c', ground arith, λ j. ground (arith, get_elem?-set heap ch j c' c e))
      | inr full ↦ (heap, ground arith, λ j. ground arith)
    ]

pub close_lem :
    (ch : ℕ) (heap : Heap)
    → IsOpen heap ch
    → (h : Heap) × (close ch heap ≡ some h)
      × ((j : ℕ) → get_elem? h j ≡ (if ch == j then shut (get_elem? heap j) else get_elem? heap j))
unfolding close
close_lem ch heap is_open = go (get_elem? heap ch) refl is_open
  where
    go :
        (o : Option Channel)
        → get_elem? heap ch ≡ o
        → live o ≡ true
        → (h : Heap) × (close ch heap ≡ some h)
          × ((j : ℕ)
              → get_elem? h j ≡ (if ch == j then shut (get_elem? heap j) else get_elem? heap j))
    go none e l = cc
    go (some c) e l =
        let c' = record c { closed = true } in
        (set heap ch c', ground arith, λ j. ground (arith, get_elem?-set heap ch j c' c e))

All-IsOpen_after :
    (heap h : Heap) (ch : ℕ) (msg : Text) (chs : List ℕ)
    → ((j : ℕ)
        → get_elem? h j ≡ (if ch == j then pushed msg (get_elem? heap j) else get_elem? heap j))
    → All (IsOpen heap) chs
    → All (IsOpen h) chs
All-IsOpen_after heap h ch msg [] e opens = tt
All-IsOpen_after heap h ch msg (j ∷ chs) e (o, opens) = (
  ground (arith, e j, live-pushed msg (get_elem? heap j) o),
  All-IsOpen_after heap h ch msg chs e opens,
)

All-IsOpen_besides :
    (heap h : Heap) (ch : ℕ) (chs : List ℕ)
    → ((j : ℕ) → get_elem? h j ≡ (if ch == j then shut (get_elem? heap j) else get_elem? heap j))
    → mem ch chs ≡ false
    → All (IsOpen heap) chs
    → All (IsOpen h) chs
All-IsOpen_besides heap h ch [] e out opens = tt
All-IsOpen_besides heap h ch (j ∷ chs) e out (o, opens) =
    (ground (arith, e j), All-IsOpen_besides heap h ch chs e (ground arith) opens)

-- A broadcast to distinct open channels does not panic. Each of them takes the message if it has room,
-- and no other channel changes.
pub offer_all_lem :
    (chs : List ℕ) (msg : Text) (heap : Heap)
    → Distinct chs
    → All (IsOpen heap) chs
    → (h : Heap) × (offer_all chs msg heap ≡ some h)
      × ((j : ℕ)
          → get_elem? h j ≡ (if mem j chs then pushed msg (get_elem? heap j) else get_elem? heap j))
unfolding offer_all
offer_all_lem [] msg heap d opens = (heap, refl, λ j. refl)
offer_all_lem (ch ∷ chs) msg heap (out, d) (o, opens) =
    let (h, sent, at) = offer_lem ch msg heap o in
    let (h', rest, ats) = offer_all_lem chs msg h d (All-IsOpen_after heap h ch msg chs at opens) in
    (h', ground (arith, sent, rest), λ j. ground (arith, at j, ats j))

-- Closing distinct open channels does not panic, and closes exactly these.
pub close_all_lem :
    (chs : List ℕ) (heap : Heap)
    → Distinct chs
    → All (IsOpen heap) chs
    → (h : Heap) × (close_all chs heap ≡ some h)
      × ((j : ℕ)
          → get_elem? h j ≡ (if mem j chs then shut (get_elem? heap j) else get_elem? heap j))
unfolding close_all
close_all_lem [] heap d opens = (heap, refl, λ j. refl)
close_all_lem (ch ∷ chs) heap (out, d) (o, opens) =
    let (h, sent, at) = close_lem ch heap o in
    let (h', rest, ats) = close_all_lem chs h d (All-IsOpen_besides heap h ch chs at out opens) in
    (h', ground (arith, sent, rest), λ j. ground (arith, at j, ats j))

-- A loop of sends that nobody receives from puts everything into the buffer if there is room, and blocks if
-- there is not.
pub fill_lem :
    (lines : List Text) (c : Channel)
    → length c.buffer ≤ capacity
    → fill lines c ≡ (
        if leb (length c.buffer + length lines) capacity
        then some (record c { buffer = c.buffer ++ lines })
        else none)
unfolding fill
fill_lem [] c h = ground (arith, append-nil c.buffer)
fill_lem (line ∷ lines) c h = elim (Bool-cases (ltb (length c.buffer) capacity)) [
  | inl room ↦ rw room (
      ground (
        arith,
        fill_lem lines (record c { buffer = c.buffer ++ line ∷ [] }),
        length-append c.buffer (line ∷ []),
        append_assoc c.buffer (line ∷ []) lines,
      ))
  | inr full ↦ ground arith
]
