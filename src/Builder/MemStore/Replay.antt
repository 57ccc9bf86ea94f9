-- ===== src/Builder/MemStore/Replay.antt =====
-- What a subscriber receives of a build's log, and when subscribing or broadcasting goes wrong.
use mathlib.Core.Path.{subst}
use compute_backend.Prelude.{
  Time, ℕ, zero, suc, ◌<◌, ◌≡◌, refl, sym, ap, ◌∙◌, ◌≢◌, ◌↔◌, inl, inr, Bool, true, false, Option,
  none, some, List, [], ◌∷◌, ◌++◌, append_assoc, append-nil, arith, ltb, leb, if◌then◌else◌, leb→le,
  Option-cases, length, get_elem?, take, get_elem?-concat, take_all, All,
}
use compute_backend.Strings.{Text}
use compute_backend.Maps.{lookup, lookup-insert_self}
use compute_backend.Builder.Types.{Build, Status}
use compute_backend.Builder.Channels.Defs.{Channel, Heap, capacity, offer_all}
use compute_backend.Builder.Channels.Laws.{IsOpen, mem, pushed, shut}
use compute_backend.Builder.MemStore.Defs.{
  BuildRecord, MemStore, new_mem_store, replaced, Run, done, panics, blocks, create, set_status,
  subscribers_of, send_all, append_log, subscribe, close_subscribers,
}
use compute_backend.Builder.MemStore.Invariant.{
  IsWellFormed, IsWellFormed-new, create-IsWellFormed, set_status-IsWellFormed,
  append_log-IsWellFormed, append_log_found,
}
use compute_backend.Builder.MemStore.Subscribing.{
  mem-concat, subscribe-IsWellFormed, subscribe_found, replaying, close_subscribers-IsWellFormed,
  close_subscribers_found,
}

-- The methods that change the store, as one goroutine after another calls them.
pub data Call : Type 0 where
  creating : Build → Call
  setting : Text → Status → Bool → Time → Text → Time → Call
  appending : Text → Text → Call
  subscribing : Text → Call
  closing : Text → Call

abbrev after_set : Option (Build × MemStore) → MemStore → Run MemStore
after_set none s = done s
after_set (some (b, t)) s = done t

abbrev after_subscribe : Option (Run (ℕ × MemStore)) → MemStore → Run MemStore
after_subscribe none s = done s
after_subscribe (some (done (ch, t))) s = done t
after_subscribe (some panics) s = panics
after_subscribe (some blocks) s = blocks

-- An error of a method leaves the store as it is.
unfoldable pub call : Call → MemStore → Run MemStore
call (creating b) s = done (create b s)
call (setting id st fin at msg now) s = after_set (set_status id st fin at msg now s) s
call (appending id line) s = append_log id line s
call (subscribing id) s = after_subscribe (subscribe id s) s
call (closing id) s = close_subscribers id s

unfoldable pub run : List Call → MemStore → Run MemStore
unfolding call
run [] s = done s
run (c ∷ cs) s = elim (call c s) [ done t ↦ run cs t | panics ↦ panics | blocks ↦ blocks ]

abbrev pub IsSafe : Run MemStore → Type 0
IsSafe (done t) = IsWellFormed t
IsSafe panics = ⊥
IsSafe blocks = Unit

call-IsSafe : (c : Call) (s : MemStore) → IsWellFormed s → IsSafe (call c s)
unfolding call
call-IsSafe (creating b) s w = create-IsWellFormed b s w
call-IsSafe (setting id st fin at msg now) s w = go (set_status id st fin at msg now s) refl
  where
    go :
        (o : Option (Build × MemStore))
        → set_status id st fin at msg now s ≡ o
        → IsSafe (after_set o s)
    go none e = w
    go (some (b, t)) e = set_status-IsWellFormed id st fin at msg now s b t e w
call-IsSafe (appending id line) s w =
    let (t, e, w') = append_log-IsWellFormed id line s w in rw e w'
call-IsSafe (subscribing id) s w = go (subscribe id s) refl
  where
    go : (o : Option (Run (ℕ × MemStore))) → subscribe id s ≡ o → IsSafe (after_subscribe o s)
    go none e = w
    go (some (done (ch, t))) e = subscribe-IsWellFormed id s t ch e w
    go (some panics) e = elim (Option-cases (lookup id s.items)) [
      | inl missing ↦ unfold subscribe in ground arith
      | inr (rec, found) ↦ ground (arith, subscribe_found id s rec found)
    ]
    go (some blocks) e = tt
call-IsSafe (closing id) s w = let (t, e, w') = close_subscribers-IsWellFormed id s w in rw e w'

continue-IsSafe :
    (r : Run MemStore) (rest : MemStore → Run MemStore)
    → IsSafe r
    → ((t : MemStore) → IsWellFormed t → IsSafe (rest t))
    → IsSafe (elim r [ done t ↦ rest t | panics ↦ panics | blocks ↦ blocks ])
continue-IsSafe (done t) rest w k = k t w
continue-IsSafe panics rest w k = w
continue-IsSafe blocks rest w k = tt

run-IsSafe_from : (cs : List Call) (s : MemStore) → IsWellFormed s → IsSafe (run cs s)
unfolding run
run-IsSafe_from [] s w = w
run-IsSafe_from (c ∷ cs) s w =
    continue-IsSafe (call c s) (run cs) (call-IsSafe c s w) (λ t w'. run-IsSafe_from cs t w')

-- From an empty store, calls that run one after another never panic: no message is sent on a closed channel and
-- no channel is closed twice. Every state that is reached has its subscribers open and apart.
pub run-IsSafe : (cs : List Call) → IsSafe (run cs new_mem_store)
run-IsSafe cs = run-IsSafe_from cs new_mem_store IsWellFormed-new

-- Subscribing to a build waits for ever, with the lock of the store held, exactly where more than 32 lines are
-- logged.
pub subscribe_blocks :
    (id : Text) (s : MemStore) (rec : BuildRecord)
    → lookup id s.items ≡ some rec
    → (subscribe id s ≡ some blocks) ↔ (32 < length rec.logs)
subscribe_blocks id s rec found = (
  λ h. ground (arith, subscribe_found id s rec found),
  λ h. ground (arith, subscribe_found id s rec found),
)

unfoldable pub append_logs : Text → List Text → MemStore → Run MemStore
append_logs id [] s = done s
append_logs id (line ∷ lines) s = elim (append_log id line s) [
  | done t ↦ append_logs id lines t
  | panics ↦ panics
  | blocks ↦ blocks
]

take-nil {ℓ} : {A : Type ℓ} (n : ℕ) → take n (◌++◌ {A = A} [] []) ≡ []
take-nil zero = refl
take-nil (suc n) = refl

zero-ltb : (n : ℕ) → ltb 0 (suc n) ≡ true
zero-ltb n = ground arith

take-concat {ℓ} :
    {A : Type ℓ} (n : ℕ) (xs : List A) (x : A)
    → take n (xs ++ x ∷ [])
      ≡ (if ltb (length (take n xs)) n then take n xs ++ x ∷ [] else take n xs)
take-concat zero [] x = refl
take-concat zero (y ∷ xs) x = refl
take-concat {A} (suc n) [] x = rw (take-nil {A = A} n, zero-ltb n)
take-concat (suc n) (y ∷ xs) x = ground (arith, take-concat n xs x)

-- The channel holds the first 32 lines of the log.
abbrev pub Follows : Text → ℕ → List Text → MemStore → Type 0
Follows id ch logs s =
    (rec : BuildRecord) × (lookup id s.items ≡ some rec)
    × (rec.logs ≡ logs)
    × (mem ch rec.subscribers ≡ true)
    × (get_elem? s.heap ch ≡ some (replaying (take capacity logs)))

buffered :
    (b : Bool) (xs : List Text) (x : Text)
    → (if b then record { buffer = xs ++ x ∷ []; closed = false } else replaying xs)
      ≡ replaying (if b then xs ++ x ∷ [] else xs)
buffered true xs x = refl
buffered false xs x = refl

-- One more line reaches the buffer if there is room.
pushed-replaying :
    (o : Option Channel) (logs : List Text) (line : Text)
    → o ≡ some (replaying (take capacity logs))
    → pushed line o ≡ some (replaying (take capacity (logs ++ line ∷ [])))
pushed-replaying o logs line e = rw e (
    ap (λ c. some c)
      (buffered (ltb (length (take capacity logs)) capacity) (take capacity logs) line
        ∙ ap replaying (sym (take-concat capacity logs line))))

append_log-Follows :
    (id : Text) (ch : ℕ) (line : Text) (logs : List Text) (s : MemStore)
    → IsWellFormed s
    → Follows id ch logs s
    → (t : MemStore) × (append_log id line s ≡ done t)
      × IsWellFormed t
      × Follows id ch (logs ++ line ∷ []) t
append_log-Follows id ch line logs s w (rec, found, same, listed, holds) =
    let (h, e, at) = append_log_found id line s rec found w in
    let (u, e', w') = append_log-IsWellFormed id line s w in
    let new = record rec { logs = rec.logs ++ line ∷ [] } in
    let t = replaced id new h s in
    let same_state : u ≡ t = cc in
    (
      t,
      e,
      subst IsWellFormed same_state w',
      (
        new,
        lookup-insert_self id new s.items,
        ap (λ ls. ls ++ line ∷ []) same,
        listed,
        at ch ∙ rw listed (pushed-replaying (get_elem? s.heap ch) logs line holds),
      ),
    )

append_logs-Follows :
    (id : Text) (ch : ℕ) (lines logs : List Text) (s : MemStore)
    → IsWellFormed s
    → Follows id ch logs s
    → (t : MemStore) × (append_logs id lines s ≡ done t)
      × IsWellFormed t
      × Follows id ch (logs ++ lines) t
unfolding append_logs
append_logs-Follows id ch [] logs s w f = (s, refl, w, rw append-nil f)
append_logs-Follows id ch (line ∷ lines) logs s w f =
    let (t, e, wt, ft) = append_log-Follows id ch line logs s w f in
    let (v, rest, wv, follows) = append_logs-Follows id ch lines (logs ++ line ∷ []) t wt ft in
    (v, ground (arith, e, rest), wv, rw (← append_assoc logs (line ∷ []) lines) follows)

-- On a well-formed store, where subscribing returned: after more lines are logged the store is well formed, and the
-- channel holds the first 32 lines of the whole log.
pub subscribe-Follows :
    (id : Text) (s t : MemStore) (ch : ℕ) (rec : BuildRecord) (lines : List Text)
    → IsWellFormed s
    → lookup id s.items ≡ some rec
    → subscribe id s ≡ some (done (ch, t))
    → (u : MemStore) × (append_logs id lines t ≡ done u)
      × IsWellFormed u
      × Follows id ch (rec.logs ++ lines) u
subscribe-Follows id s t ch rec lines w found h =
    let new = record rec { subscribers = rec.subscribers ++ length s.heap ∷ [] } in
    let fits : leb (length rec.logs) capacity ≡ true =
      ground (arith, subscribe_found id s rec found) in
    let index : length s.heap ≡ ch = ground (arith, subscribe_found id s rec found) in
    let state : t ≡ replaced id new (s.heap ++ replaying rec.logs ∷ []) s =
      ground (arith, subscribe_found id s rec found) in
    let whole : take capacity rec.logs ≡ rec.logs = take_all capacity rec.logs (leb→le _ _ fits) in
    let start : Follows id ch rec.logs t = rw state (
      new,
      lookup-insert_self id new s.items,
      refl,
      mem-concat ch (length s.heap) rec.subscribers ∙ ground arith,
      rw (whole, ← index) (get_elem?-concat s.heap (replaying rec.logs)),
    ) in
    append_logs-Follows id ch lines rec.logs t (subscribe-IsWellFormed id s t ch h w) start

-- On a well-formed store, a subscriber that does not read, where subscribing returned: after more lines are
-- logged its channel holds the first 32 lines of the whole log, in order, and the log holds all of them.
pub subscribe_replays :
    (id : Text) (s t : MemStore) (ch : ℕ) (rec : BuildRecord) (lines : List Text)
    → IsWellFormed s
    → lookup id s.items ≡ some rec
    → subscribe id s ≡ some (done (ch, t))
    → (u : MemStore) × (append_logs id lines t ≡ done u)
      × (get_elem? u.heap ch ≡ some (replaying (take 32 (rec.logs ++ lines))))
      × ((now : BuildRecord) × (lookup id u.items ≡ some now) × (now.logs ≡ rec.logs ++ lines))
subscribe_replays id s t ch rec lines w found h =
    let (u, e, wu, (now, at, logs, listed, holds)) =
      subscribe-Follows id s t ch rec lines w found h in
    (u, e, holds, (now, at, logs))

offer_all_closed :
    (chs : List ℕ) (msg : Text) (heap h : Heap)
    → chs ≢ []
    → All (IsOpen heap) chs
    → ((j : ℕ) → get_elem? h j ≡ (if mem j chs then shut (get_elem? heap j) else get_elem? heap j))
    → offer_all chs msg h ≡ none
unfolding offer_all
offer_all_closed [] msg heap h nonempty opens at = absurd (nonempty refl)
offer_all_closed (ch ∷ chs) msg heap h nonempty (o, opens) at = ground (arith, at ch)

-- On a well-formed store: `Broadcast` reads the subscribers and then sends without the lock: where a close of
-- the build's subscribers comes between, and there is one, the send panics.
pub broadcast_after_close :
    (id message : Text) (s t : MemStore) (rec : BuildRecord)
    → IsWellFormed s
    → lookup id s.items ≡ some rec
    → rec.subscribers ≢ []
    → close_subscribers id s ≡ done t
    → send_all (subscribers_of id s) message t ≡ panics
broadcast_after_close id message s t rec w found nonempty closed =
    let (h, e, at) = close_subscribers_found id s rec found w in
    let own : subscribers_of id s ≡ rec.subscribers = unfold subscribers_of in ground arith in
    let heap : t.heap ≡ h = ground arith in
    let panic : offer_all rec.subscribers message h ≡ none =
      offer_all_closed rec.subscribers message s.heap h nonempty (rw own at (w.opens id)) at in
    unfold send_all in rw own (ground arith)
