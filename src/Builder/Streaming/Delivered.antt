-- ===== src/Builder/Streaming/Delivered.antt =====
-- What the stream of a build's log writes to a client that stays.
use compute_backend.Prelude.{
  ℕ, zero, suc, ◌≤◌, ◌≡◌, refl, ap, ◌∙◌, Bool, true, false, some, List, [], ◌∷◌, ◌++◌, map,
  append_assoc, append-nil, arith, length, get_elem?, set, get_elem?-set_self, take,
}
use compute_backend.Strings.{Text, codes}
use compute_backend.Maps.{lookup}
use compute_backend.Builder.Channels.Defs.{Channel}
use compute_backend.Builder.MemStore.Defs.{
  BuildRecord, replaced, MemStore, Run, done, panics, blocks, append_log, subscribe,
  close_subscribers,
}
use compute_backend.Builder.MemStore.Invariant.{IsWellFormed}
use compute_backend.Builder.MemStore.Subscribing.{
  replaying, subscribe_found, close_subscribers_found,
}
use compute_backend.Builder.MemStore.Replay.{
  appending, closing, call, append_logs, Follows, subscribe-Follows,
}
use compute_backend.Builder.Service.{then_run}
use compute_backend.Builder.Streaming.{
  next, receive, Turn, others, select, waiting, finished, frame, stream, after_subscribe,
  handle_stream_logs,
}

-- Other goroutines log these lines.
abbrev pub logging : Text → List Text → List Turn
logging id lines = map (λ line. others (appending id line)) lines

abbrev pub selects : ℕ → List Turn
selects zero = []
selects (suc n) = select ∷ selects n

stream-logging :
    (id : Text) (lines : List Text) (rest : List Turn) (ch : ℕ) (written : List Text)
    (s u : MemStore)
    → append_logs id lines s ≡ done u
    → stream (logging id lines ++ rest) ch written s ≡ stream rest ch written u
unfolding stream append_logs call then_run
stream-logging id [] rest ch written s u h = ground arith
stream-logging id (line ∷ lines) rest ch written s u h =
    go (append_log id line s) refl (λ t e. stream-logging id lines rest ch written t u e)
  where
    go :
        (r : Run MemStore)
        → append_log id line s ≡ r
        → ((t : MemStore)
            → append_logs id lines t ≡ done u
            → stream (logging id lines ++ rest) ch written t ≡ stream rest ch written u)
        → then_run r (λ t. stream (logging id lines ++ rest) ch written t)
          ≡ stream rest ch written u
    go (done t) e later = later t (ground arith)
    go panics e later = ground arith
    go blocks e later = ground arith

-- The turns that empty the buffer write what it holds.
stream-drained :
    (bs : List Text) (closed : Bool) (rest : List Turn) (ch : ℕ) (written : List Text)
    (s : MemStore)
    → get_elem? s.heap ch ≡ some (record { buffer = bs; closed = closed })
    → (t : MemStore) × (stream (selects (length bs) ++ rest) ch written s
        ≡ stream rest ch (written ++ map frame bs) t)
      × (get_elem? t.heap ch ≡ some (record { buffer = []; closed = closed }))
unfolding stream receive next
stream-drained [] closed rest ch written s h = (s, rw append-nil refl, h)
stream-drained (b ∷ bs) closed rest ch written s h =
    let c : Channel = record { buffer = bs; closed = closed } in
    let s' : MemStore = record s { heap = set s.heap ch c } in
    let (t, e, h') =
      stream-drained bs closed rest ch (written ++ frame b ∷ []) s'
        (get_elem?-set_self s.heap ch c h) in
    (
      t,
      rw (stream, h)
          (e ∙ ap (λ w. stream rest ch w t) (append_assoc written (frame b ∷ []) (map frame bs))),
      h',
    )

stream-idle :
    (n ch : ℕ) (written : List Text) (s : MemStore)
    → get_elem? s.heap ch ≡ some (record { buffer = []; closed = false })
    → stream (selects n) ch written s ≡ done (waiting written, s)
unfolding stream receive next
stream-idle zero ch written s h = refl
stream-idle (suc n) ch written s h = rw (stream, h) (stream-idle n ch written s h)

stream-closed :
    (rest : List Turn) (ch : ℕ) (written : List Text) (s : MemStore)
    → get_elem? s.heap ch ≡ some (record { buffer = []; closed = true })
    → stream (select ∷ rest) ch written s
      ≡ done (finished (written ++ frame (codes "[stream closed]") ∷ []), s)
unfolding stream receive next
stream-closed rest ch written s h = rw (stream, h) refl

stream-closing :
    (id : Text) (rest : List Turn) (ch : ℕ) (written : List Text) (s t : MemStore)
    → close_subscribers id s ≡ done t
    → stream (others (closing id) ∷ rest) ch written s ≡ stream rest ch written t
unfolding stream call then_run
stream-closing id rest ch written s t h = rw (stream, h) refl

-- After the lines that are logged, the handler is where it selects on a channel that holds what is shown.
streaming :
    (id : Text) (s : MemStore) (rec : BuildRecord) (lines : List Text)
    → IsWellFormed s
    → lookup id s.items ≡ some rec
    → length rec.logs ≤ 32
    → (ch : ℕ) × (u : MemStore) × ((rest : List Turn)
        → handle_stream_logs true id (logging id lines ++ rest) s ≡ stream rest ch [] u)
      × IsWellFormed u
      × Follows id ch (rec.logs ++ lines) u
unfolding handle_stream_logs after_subscribe
streaming id s rec lines w found fits =
    let ch = length s.heap in
    let t =
      replaced id (record rec { subscribers = rec.subscribers ++ ch ∷ [] })
        (s.heap ++ replaying rec.logs ∷ []) s in
    let h : subscribe id s ≡ some (done (ch, t)) = ground (arith, subscribe_found id s rec found) in
    let (u, e, wu, f) = subscribe-Follows id s t ch rec lines w found h in
    (ch, u, λ rest. rw h (stream-logging id lines rest ch [] t u e), wu, f)

-- A client that stays, on a well-formed store and a build with at most 32 lines so far, where more lines are logged
-- before the handler first receives: it is sent the lines of both, the first 32 of them. Where the subscribers are
-- then closed, it is sent the closing line and the answer ends; where nobody closes them, the answer goes on waiting.
pub handle_stream_logs_lem :
    (id : Text) (s : MemStore) (rec : BuildRecord) (lines : List Text)
    → IsWellFormed s
    → lookup id s.items ≡ some rec
    → length rec.logs ≤ 32
    → let shown = take 32 (rec.logs ++ lines) in
      ((rest : List Turn)
        → (v : MemStore) × (handle_stream_logs true id
              (logging id lines ++ others (closing id) ∷ (selects (length shown) ++ select ∷ rest))
              s
            ≡ done (finished (map frame shown ++ frame (codes "[stream closed]") ∷ []), v)))
      × ((n : ℕ)
          → (v : MemStore) × (handle_stream_logs true id
                (logging id lines ++ (selects (length shown) ++ selects n))
                s
              ≡ done (waiting (map frame shown), v)))
handle_stream_logs_lem id s rec lines w found fits =
    let shown = take 32 (rec.logs ++ lines) in
    let (ch, u, e, wu, (now, at, logs, listed, holds)) = streaming id s rec lines w found fits in
    let (h, shut_down, closed) = close_subscribers_found id u now at wu in
    let after = replaced id (record now { subscribers = [] }) h u in
    (
      λ rest.
          let (v, drained, empty) =
            stream-drained shown true (select ∷ rest) ch [] after
              (closed ch ∙ rw (listed, holds) refl) in
          (
            v,
            e (others (closing id) ∷ (selects (length shown) ++ select ∷ rest))
                ∙ stream-closing id (selects (length shown) ++ select ∷ rest) ch [] u after
                    shut_down
                ∙ drained
                ∙ stream-closed rest ch (map frame shown) v empty,
          ),
      λ n.
          let (v, drained, empty) = stream-drained shown false (selects n) ch [] u holds in
          (
            v,
            e (selects (length shown) ++ selects n)
                ∙ drained
                ∙ stream-idle n ch (map frame shown) v empty,
          ),
    )
