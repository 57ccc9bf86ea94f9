-- ===== src/Builder/Streaming.antt =====
-- cmd/builder/main.go: the stream of a build's log. The handler runs beside the other goroutines; what happens is a
-- list of turns: another goroutine calls the store, the handler's `select` receives from its channel, or it sees that
-- the client is gone. A turn of a `select` that has nothing to receive leaves it waiting.
pub mod Delivered
mod Tests
use compute_backend.Prelude.{
  ℕ, zero, suc, Bool, Option, none, some, List, [], ◌∷◌, ◌++◌, if◌then◌else◌, get_elem?, set,
}
use compute_backend.Strings.{Text, codes, newline}
use compute_backend.Builder.Channels.Defs.{Channel, Heap}
use compute_backend.Builder.MemStore.Defs.{MemStore, Run, done, panics, blocks, subscribe}
use compute_backend.Builder.MemStore.Replay.{Call, call}
use compute_backend.Builder.Service.{then_run}

-- A receive from a channel: nothing is there, the channel is closed and empty, or a message and the heap without it.
pub data Receipt : Type 0 where
  nothing ended : Receipt
  message : Text → Heap → Receipt

-- From the buffer of the channel.
unfoldable pub next : ℕ → Channel → List Text → Heap → Receipt
next ch c [] heap = if c.closed then ended else nothing
next ch c (m ∷ ms) heap = message m (set heap ch (record c { buffer = ms }))

-- A receive from an index that is no channel waits, as one from a nil channel.
unfoldable pub receive : ℕ → Heap → Receipt
unfolding next
receive ch heap = elim (get_elem? heap ch) [ none ↦ nothing | some c ↦ next ch c c.buffer heap ]

pub data Turn : Type 0 where
  others : Call → Turn
  select leaves : Turn

-- How far the handler has come: the two errors, and else what it has written.
pub data Streamed : Type 0 where
  not_found server_error : Text → Streamed
  waiting finished left : List Text → Streamed

abbrev pub frame : Text → Text
frame m = codes "data: " ++ (m ++ newline ∷ newline ∷ [])

unfoldable pub stream : List Turn → ℕ → List Text → MemStore → Run (Streamed × MemStore)
unfolding then_run receive
stream [] ch written s = done (waiting written, s)
stream (leaves ∷ turns) ch written s = done (left written, s)
stream (others c ∷ turns) ch written s = then_run (call c s) (λ t. stream turns ch written t)
stream (select ∷ turns) ch written s = elim (receive ch s.heap) [
  | nothing ↦ stream turns ch written s
  | ended ↦ done (finished (written ++ frame (codes "[stream closed]") ∷ []), s)
  | message m h ↦ stream turns ch (written ++ frame m ∷ []) (record s { heap = h })
]

-- What follows the subscription; the first argument says that the connection can be flushed.
unfoldable pub after_subscribe :
    Bool → List Turn → MemStore → Option (Run (ℕ × MemStore)) → Run (Streamed × MemStore)
unfolding stream
after_subscribe flusher turns s none = done (not_found (codes "build not found"), s)
after_subscribe flusher turns s (some (done (ch, t))) =
    if flusher then stream turns ch [] t else done (server_error (codes "streaming unsupported"), t)
after_subscribe flusher turns s (some panics) = panics
after_subscribe flusher turns s (some blocks) = blocks

unfoldable pub handle_stream_logs : Bool → Text → List Turn → MemStore → Run (Streamed × MemStore)
unfolding after_subscribe
handle_stream_logs flusher id turns s = after_subscribe flusher turns s (subscribe id s)
