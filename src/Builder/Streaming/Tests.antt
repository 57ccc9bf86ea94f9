-- ===== src/Builder/Streaming/Tests.antt =====
-- The stream of a log at a build with one line.
use compute_backend.Prelude.{ℕ, ◌≡◌, refl, true, false, List, [], ◌∷◌, ◌++◌, arith, map}
use compute_backend.Strings.{codes, text_eq}
use compute_backend.Maps.{lookup, insert}
use compute_backend.Builder.Channels.Defs.{fill}
use compute_backend.Builder.MemStore.Defs.{MemStore, done, subscribers_of, subscribe}
use compute_backend.Builder.MemStore.Replay.{closing}
use compute_backend.Builder.Tests.{line, logged, one_line, one_line-IsWellFormed}
use compute_backend.Builder.Streaming.{
  next, receive, Turn, others, select, leaves, not_found, server_error, waiting, finished, left,
  frame, stream, after_subscribe, handle_stream_logs,
}
use compute_backend.Builder.Streaming.Delivered.{logging, selects, handle_stream_logs_lem}

-- A client that leaves has what it was sent, and its channel stays among the subscribers.
leaving :
    (s : MemStore) × (handle_stream_logs true (codes "b1") (select ∷ leaves ∷ select ∷ []) one_line
      ≡ done (left (frame line ∷ []), s))
    × (subscribers_of (codes "b1") s ≡ 0 ∷ [])
unfolding handle_stream_logs after_subscribe stream receive next subscribe fill lookup insert
    text_eq subscribers_of
leaving = (_, refl, refl)

refused_streams :
    (handle_stream_logs true (codes "b2") [] one_line
      ≡ done (not_found (codes "build not found"), one_line))
    × ((s : MemStore) × (handle_stream_logs false (codes "b1") [] one_line
          ≡ done (server_error (codes "streaming unsupported"), s)))
unfolding handle_stream_logs after_subscribe stream receive next subscribe fill lookup insert
    text_eq
refused_streams = (refl, (_, refl))

handle_stream_logs_lem_example :
    ((rest : List Turn)
      → (v : MemStore) × (handle_stream_logs true
            (codes "b1")
            (logging (codes "b1") (codes "done" ∷ [])
              ++ others (closing (codes "b1")) ∷ (selects 2 ++ select ∷ rest))
            one_line
          ≡ done (
            finished (map frame (line ∷ codes "done" ∷ []) ++ frame (codes "[stream closed]") ∷ []),
            v,
          )))
    × ((n : ℕ)
        → (v : MemStore) × (handle_stream_logs true
              (codes "b1")
              (logging (codes "b1") (codes "done" ∷ []) ++ (selects 2 ++ selects n))
              one_line
            ≡ done (waiting (map frame (line ∷ codes "done" ∷ [])), v)))
unfolding lookup text_eq
handle_stream_logs_lem_example =
    handle_stream_logs_lem (codes "b1") one_line logged (codes "done" ∷ []) one_line-IsWellFormed
      refl (omega arith)
