-- ===== src/Builder/MemStore/Defs.antt =====
-- The methods of `MemStore`.
use compute_backend.Prelude.{
  Time, ℕ, Bool, Option, none, some, List, [], ◌∷◌, ◌++◌, map, if◌then◌else◌, length,
}
use compute_backend.Strings.{Text}
use compute_backend.Maps.{Assoc, lookup, insert}
use compute_backend.Builder.Types.{Build, Status}
use compute_backend.Builder.Channels.Defs.{Heap, fresh, offer_all, close_all, fill}

pub record BuildRecord : Type 0 where
  pub build : Build
  pub subscribers : List ℕ
  pub logs : List Text

pub record MemStore : Type 0 where
  pub items : Assoc BuildRecord
  pub heap : Heap

abbrev pub new_mem_store : MemStore
new_mem_store = record { items = []; heap = [] }

-- How a method ends: it returns, its goroutine panics, or it waits for ever with the lock held.
pub data Run {ℓ} (A : Type ℓ) : Type ℓ where
  done : A → Run A
  panics : Run A
  blocks : Run A

abbrev pub replaced : Text → BuildRecord → Heap → MemStore → MemStore
replaced id rec heap s = record { items = insert id rec s.items; heap = heap }

unfoldable pub create : Build → MemStore → MemStore
create build s = replaced build.id (record { build = build; subscribers = []; logs = [] }) s.heap s

-- The assignments of `SetStatus`; `now` is the clock.
abbrev pub with_status : Status → Bool → Time → Text → Time → Build → Build
with_status status finished finished_at err_msg now build = record build {
  status = status;
  updated_at = now;
  finished_at = if finished then finished_at else build.finished_at;
  error = err_msg;
}

-- `none` is the error "build not found".
unfoldable pub set_status :
    Text → Status → Bool → Time → Text → Time → MemStore → Option (Build × MemStore)
set_status id status finished finished_at err_msg now s = elim (lookup id s.items) [
  | none ↦ none
  | some rec ↦
      let b = with_status status finished finished_at err_msg now rec.build in
      some (b, replaced id (record rec { build = b }) s.heap s)
]

-- The list of subscribers that `Broadcast` reads, and the sends that follow.
unfoldable pub subscribers_of : Text → MemStore → List ℕ
subscribers_of id s = elim (lookup id s.items) [ none ↦ [] | some rec ↦ rec.subscribers ]

unfoldable pub send_all : List ℕ → Text → MemStore → Run MemStore
send_all chs message s = elim (offer_all chs message s.heap) [
  | none ↦ panics
  | some h ↦ done (record s { heap = h })
]

unfoldable pub broadcast : Text → Text → MemStore → Run MemStore
unfolding subscribers_of
broadcast id message s = send_all (subscribers_of id s) message s

unfoldable pub append_log : Text → Text → MemStore → Run MemStore
unfolding broadcast
append_log id line s = elim (lookup id s.items) [
  | none ↦ done s
  | some rec ↦
      broadcast id line (replaced id (record rec { logs = rec.logs ++ line ∷ [] }) s.heap s)
]

unfoldable pub get : Text → MemStore → Option Build
get id s = elim (lookup id s.items) [ none ↦ none | some rec ↦ some rec.build ]

unfoldable pub list : MemStore → List Build
list s = map (λ item. item.1.build) s.items

-- The new channel, its index first. The lines already logged are sent before anybody can receive.
unfoldable pub subscribe : Text → MemStore → Option (Run (ℕ × MemStore))
subscribe id s = elim (lookup id s.items) [
  | none ↦ none
  | some rec ↦
      let ch = length s.heap in
      some (elim (fill rec.logs fresh) [
        | none ↦ blocks
        | some c ↦ done (
          ch,
          replaced id (record rec { subscribers = rec.subscribers ++ ch ∷ [] }) (s.heap ++ c ∷ [])
              s,
        )
      ])
]

unfoldable pub close_subscribers : Text → MemStore → Run MemStore
close_subscribers id s = elim (lookup id s.items) [
  | none ↦ done s
  | some rec ↦ elim (close_all rec.subscribers s.heap) [
    | none ↦ panics
    | some h ↦ done (replaced id (record rec { subscribers = [] }) h s)
  ]
]
