-- ===== src/Builder/Channels/Defs.antt =====
-- Go's buffered channels of texts, as the subscribers of a build use them: `make(chan string, 32)`,
-- a send that is dropped where the buffer is full, and `close`. A channel is an index into a heap.
use compute_backend.Prelude.{
  ℕ, Bool, true, false, Option, none, some, List, [], ◌∷◌, ◌++◌, ltb, if◌then◌else◌, length,
  get_elem?, set,
}
use compute_backend.Strings.{Text}

pub record Channel : Type 0 where
  pub buffer : List Text
  pub closed : Bool

abbrev pub Heap : Type 0
Heap = List Channel

abbrev pub capacity : ℕ
capacity = 32

abbrev pub fresh : Channel
fresh = record { buffer = []; closed = false }

-- `select { case ch <- msg: default: }`; `none` is the panic of a send on a closed channel.
unfoldable pub offer : ℕ → Text → Heap → Option Heap
offer ch msg heap = elim (get_elem? heap ch) [
  | none ↦ none
  | some c ↦
      if c.closed
      then none
      else if ltb (length c.buffer) capacity
      then some (set heap ch (record c { buffer = c.buffer ++ msg ∷ [] }))
      else some heap
]

unfoldable pub offer_all : List ℕ → Text → Heap → Option Heap
unfolding offer
offer_all [] msg heap = some heap
offer_all (ch ∷ chs) msg heap = elim (offer ch msg heap) [
  | none ↦ none
  | some h ↦ offer_all chs msg h
]

-- `close(ch)`; `none` is the panic of a second close.
unfoldable pub close : ℕ → Heap → Option Heap
close ch heap = elim (get_elem? heap ch) [
  | none ↦ none
  | some c ↦ if c.closed then none else some (set heap ch (record c { closed = true }))
]

unfoldable pub close_all : List ℕ → Heap → Option Heap
unfolding close
close_all [] heap = some heap
close_all (ch ∷ chs) heap = elim (close ch heap) [ none ↦ none | some h ↦ close_all chs h ]

-- A loop of sends `ch <- line` that nobody receives from: it blocks where the buffer is full.
unfoldable pub fill : List Text → Channel → Option Channel
fill [] c = some c
fill (line ∷ lines) c =
    let rest = fill lines (record c { buffer = c.buffer ++ line ∷ [] }) in
    if ltb (length c.buffer) capacity then rest else none
