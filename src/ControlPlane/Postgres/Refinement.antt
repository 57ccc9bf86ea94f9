-- ===== src/ControlPlane/Postgres/Refinement.antt =====
-- Sequences of calls on the store in Postgres and on the store in memory.
use compute_backend.Prelude.{
  ◌≡◌, refl, sym, ap, ◌∙◌, inl, inr, Option, none, some, List, [], ◌∷◌, Result, ok, err,
  Result-cases, Time,
}
use compute_backend.Strings.{Text}
use compute_backend.ControlPlane.Types.{
  Node, NodeEvent, NodeStatus, pending, provisioning, ready, error, other, ModelAssignment,
}
use compute_backend.ControlPlane.Store.Defs.{
  Store, works, update_node, update_status, set_node_status, append_event, upsert_assignment,
  upsert, update_secrets,
}
use compute_backend.ControlPlane.Provisioner.Outcome.{failure_text, get_node-append_event}
use compute_backend.ControlPlane.Postgres.Defs.{
  Driver, Codec, NodeColumns, pg_append_event, pg_update_node, pg_update_status,
  pg_upsert_assignment, pg_update_secrets, set_secrets,
}
use compute_backend.ControlPlane.Postgres.Contract.{DriverLaws, pg_get_node-append_event}
use compute_backend.ControlPlane.Postgres.Agreement.{IsTotal, with_text, Agrees, update_node-Agrees}

-- The calls that change a node or append an event, with the ids and the readings of the clock that they take.
pub data Call : Type 0 where
  changes_status : Text → NodeStatus → Text → Text → Time → Time → Time → Call
  assigns : Text → ModelAssignment → Time → Call
  sets_secrets : Text → Text → Text → Text → Time → Call
  notes : Text → NodeStatus → Text → Text → Time → Call

-- The node, where the call answers with one, or the error.
abbrev pub Answer : Type 0
Answer = Result Text (Option Node)

abbrev pub with_node : Result Text Node → Answer
with_node (err e) = err e
with_node (ok n) = ok (some n)

abbrev pub without_node : Result Text Node → Answer
without_node (err e) = err e
without_node (ok n) = ok none

abbrev pub error_only : Option Text → Answer
error_only (some e) = err e
error_only none = ok none

unfoldable pub call_memory : Call → Store → Answer × Store
call_memory (changes_status id status message event_id t1 t2 t3) s =
    let (result, after) = update_status id status message event_id t1 t2 t3 works works s in
    (with_node (with_text id result), after)
call_memory (assigns id a now) s =
    let (result, after) = upsert_assignment id a now works s in
    (with_node (with_text id result), after)
call_memory (sets_secrets id password hf_token dashscope now) s =
    let (result, after) = update_secrets id password hf_token dashscope now works s in
    (without_node (with_text id result), after)
call_memory (notes id status message event_id now) s = (
  ok none,
  append_event id
      (record { id = event_id; node_id = id; status = status; message = message; created_at = now })
      works s,
)

module _ {D : Type 0} (driver : Driver D) (codec : Codec) where
  unfoldable pub call_postgres : Call → D → Answer × D
  call_postgres (changes_status id status message event_id t1 t2 t3) d =
      let (result, after) = pg_update_status driver codec id status message event_id t1 t2 t3 d in
      (with_node result, after)
  call_postgres (assigns id a now) d =
      let (result, after) = pg_upsert_assignment driver codec id a now d in
      (with_node result, after)
  call_postgres (sets_secrets id password hf_token dashscope now) d =
      let (failure, after) = pg_update_secrets driver codec id password hf_token dashscope now d in
      (error_only failure, after)
  call_postgres (notes id status message event_id now) d =
      (ok none, pg_append_event driver codec id status message event_id now d)

-- Calls one after another, with their answers.
unfoldable pub run_calls {ℓ} :
    {S : Type ℓ} → (Call → S → Answer × S) → List Call → S → List Answer × S
run_calls call [] s = ([], s)
run_calls call (c ∷ cs) s =
    let (answer, t) = call c s in let (answers, u) = run_calls call cs t in (answer ∷ answers, u)

pub set_node_status-IsTotal :
    (st : NodeStatus) (message : Text) (now : Time) → IsTotal (set_node_status st message now)
set_node_status-IsTotal pending message now n = (refl, refl)
set_node_status-IsTotal provisioning message now n = (refl, refl)
set_node_status-IsTotal ready message now n = (refl, refl)
set_node_status-IsTotal error message now n = (refl, refl)
set_node_status-IsTotal (other t) message now n = (refl, refl)

upsert-IsTotal : (a : ModelAssignment) → IsTotal (upsert a)
unfolding upsert
upsert-IsTotal a n = (refl, refl)

module _ {D : Type 0} {driver : Driver D} {codec : Codec} {row : Text → D → Option NodeColumns}
    {jsonb : Text → Text} (laws : DriverLaws driver codec row jsonb) where
  append_event-Agrees :
      (id : Text) (status : NodeStatus) (message event_id : Text) (now : Time) (s : Store) (d : D)
      → Agrees driver codec s d
      → Agrees driver codec
          (append_event id
            (record {
              id = event_id;
              node_id = id;
              status = status;
              message = message;
              created_at = now;
            })
            works
            s)
          (pg_append_event driver codec id status message event_id now d)
  append_event-Agrees id status message event_id now s d agrees =
      let event : NodeEvent = record {
        id = event_id;
        node_id = id;
        status = status;
        message = message;
        created_at = now;
      } in
      record {
        same = λ j.
            get_node-append_event id j event works s
            ∙ agrees.same j
            ∙ sym (pg_get_node-append_event laws id status message event_id now j d);
        keyed = λ j n h. agrees.keyed j n (sym (get_node-append_event id j event works s) ∙ h);
      }

  update_status-Agrees :
      (id : Text) (status : NodeStatus) (message event_id : Text) (t1 t2 t3 : Time) (s : Store)
      (d : D)
      → Agrees driver codec s d
      → let r = update_status id status message event_id t1 t2 t3 works works s in
        let q = pg_update_status driver codec id status message event_id t1 t2 t3 d in
        (with_text id r.0 ≡ q.0) × Agrees driver codec r.1 q.1
  unfolding update_status pg_update_status
  update_status-Agrees id status message event_id t1 t2 t3 s d agrees =
      let fn = set_node_status status message t1 in
      let (same, after) =
        update_node-Agrees laws id fn t2 s d (set_node_status-IsTotal status message t1) agrees in
      let r = update_node id fn t2 works s in
      let q = pg_update_node driver codec id fn t2 d in
      elim (Result-cases r.0) [
        | inr (e, h) ↦
            let hq : q.0 ≡ err (failure_text id e) = sym same ∙ ap (with_text id) h in
            rw (h, update_status, hq, pg_update_status) (refl, after)
        | inl (n, h) ↦
            let hq : q.0 ≡ ok n = sym same ∙ ap (with_text id) h in
            rw (h, update_status, hq, pg_update_status)
              (refl, append_event-Agrees id status message event_id t3 r.1 q.1 after)
      ]

  update_secrets-Agrees :
      (id password hf_token dashscope : Text) (now : Time) (s : Store) (d : D)
      → Agrees driver codec s d
      → let r = update_secrets id password hf_token dashscope now works s in
        let q = pg_update_secrets driver codec id password hf_token dashscope now d in
        (without_node (with_text id r.0) ≡ error_only q.0) × Agrees driver codec r.1 q.1
  unfolding update_secrets pg_update_secrets
  update_secrets-Agrees id password hf_token dashscope now s d agrees =
      let fn = set_secrets password hf_token dashscope in
      let (same, after) = update_node-Agrees laws id fn now s d (λ n. (refl, refl)) agrees in
      let q = pg_update_node driver codec id fn now d in
      elim (Result-cases q.0) [
        | inr (e, h) ↦ (ap without_node (same ∙ h) ∙ rw (h, pg_update_secrets) refl, after)
        | inl (n, h) ↦ (ap without_node (same ∙ h) ∙ rw (h, pg_update_secrets) refl, after)
      ]

  call-Agrees :
      (c : Call) (s : Store) (d : D)
      → Agrees driver codec s d
      → ((call_memory c s).0 ≡ (call_postgres driver codec c d).0)
        × Agrees driver codec (call_memory c s).1 (call_postgres driver codec c d).1
  unfolding call_memory call_postgres upsert_assignment pg_upsert_assignment
  call-Agrees (changes_status id status message event_id t1 t2 t3) s d agrees =
      let (same, after) = update_status-Agrees id status message event_id t1 t2 t3 s d agrees in
      (ap with_node same, after)
  call-Agrees (assigns id a now) s d agrees =
      let (same, after) = update_node-Agrees laws id (upsert a) now s d (upsert-IsTotal a) agrees in
      (ap with_node same, after)
  call-Agrees (sets_secrets id password hf_token dashscope now) s d agrees =
      update_secrets-Agrees id password hf_token dashscope now s d agrees
  call-Agrees (notes id status message event_id now) s d agrees =
      (refl, append_event-Agrees id status message event_id now s d agrees)

  -- From stores with the same nodes, each under its id, and with a disk that works: calls one after another are
  -- answered alike by both, and leave stores with the same nodes, each under its id.
  pub run_calls-Agrees :
      (cs : List Call) (s : Store) (d : D)
      → Agrees driver codec s d
      → let r = run_calls call_memory cs s in
        let q = run_calls (call_postgres driver codec) cs d in
        (r.0 ≡ q.0) × Agrees driver codec r.1 q.1
  unfolding run_calls
  run_calls-Agrees [] s d agrees = (refl, agrees)
  run_calls-Agrees (c ∷ cs) s d agrees =
      let (first, after) = call-Agrees c s d agrees in
      let (rest, final) =
        run_calls-Agrees cs (call_memory c s).1 (call_postgres driver codec c d).1 after in
      (λ i. first i ∷ rest i, final)
