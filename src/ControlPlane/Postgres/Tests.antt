-- ===== src/ControlPlane/Postgres/Tests.antt =====
-- Calls on one node in both stores.
use compute_backend.Prelude.{
  ℕ, ◌≡◌, sym, ap, ◌∙◌, inl, inr, true, false, none, some, List, [], ◌∷◌, arith, if◌then◌else◌,
  Bool-cases, pos,
}
use compute_backend.Strings.{Text, codes, text_eq, text_eq→eq}
use compute_backend.Maps.{lookup}
use compute_backend.ControlPlane.Types.{Node, pending, provisioning, ready, error}
use compute_backend.ControlPlane.Store.Defs.{Store, get_node}
use compute_backend.ControlPlane.Postgres.Defs.{save_node, pg_get_node, completed}
use compute_backend.ControlPlane.Postgres.Contract.{pg_get_node-save_node}
use compute_backend.ControlPlane.Postgres.Agreement.{Agrees}
use compute_backend.ControlPlane.Postgres.Refinement.{
  Call, changes_status, assigns, sets_secrets, notes, call_memory, call_postgres, run_calls,
  run_calls-Agrees,
}
use compute_backend.ControlPlane.Tests.{outside, provisioner, images}
use compute_backend.ControlPlane.Provisioner.Install.{connect, provision}
use compute_backend.ControlPlane.Postgres.Provisioning.{
  IsKeyed, Keyed, pg_repository, pg_repository_status, provision-pg_repository,
}
use compute_backend.ControlPlane.Postgres.Memory.{
  Rows, rows_driver, codec, rows_laws, pg_get_node-nil,
}

abbrev n1 : Text
n1 = codes "n1"

abbrev blank : Node
blank = record {
  id = n1;
  name = codes "gpu";
  gpu_type = [];
  total_vram_gb = pos 80;
  ip_address = codes "10.0.0.1";
  ssh_username = codes "root";
  ssh_password = codes "pw";
  ssh_private_key = [];
  ssh_port = pos 0;
  models = [];
  assignments = [];
  hf_token = [];
  dash_scope_api_key = [];
  torch_dtype = [];
  device = [];
  enable_xformers = true;
  enable_tf32 = false;
  trust_remote_code = false;
  status = pending;
  last_error = [];
  created_at = 0;
  updated_at = 0;
  last_provisioned_at = none;
}

abbrev node : Node
node = completed n1 4 blank

abbrev store : Store
store = record { path = []; nodes = (n1, node) ∷ []; events = []; file = none }

abbrev rows : Rows
rows = (save_node rows_driver codec node []).1

same_node : (j : Text) → get_node j store ≡ pg_get_node rows_driver codec j rows
unfolding get_node lookup completed
same_node j =
    ap (λ o. if text_eq n1 j then some node else o) (sym (pg_get_node-nil j))
    ∙ sym (pg_get_node-save_node rows_laws node j []).1

one_key : (j : Text) (m : Node) → get_node j store ≡ some m → m.id ≡ j
unfolding get_node lookup completed
one_key j m h = elim (Bool-cases (text_eq n1 j)) [
  | inl e ↦
      let same : some node ≡ some m = ground (arith, h, e) in
      sym (ap (λ o. elim o [ none ↦ n1 | some k ↦ k.id ]) same) ∙ text_eq→eq n1 j e
  | inr e ↦ absurd (ground (arith, h, e))
]

agrees : Agrees rows_driver codec store rows
agrees = record { same = same_node; keyed = one_key }

abbrev calls : List Call
calls =
    changes_status n1 ready (codes "up") (codes "e1") 5 6 7
    ∷ assigns n1
        (record {
          model_id = codes "flux";
          version_id = codes "v1";
          weights_uri = [];
          updated_at = 8;
        })
        9
    ∷ sets_secrets n1 (codes "pw2") [] [] 10
    ∷ notes n1 error (codes "noted") (codes "e2") 11
    ∷ sets_secrets (codes "n2") [] [] [] 12
    ∷ []

run_calls-Agrees_example :
    let r = run_calls call_memory calls store in
    let q = run_calls (call_postgres rows_driver codec) calls rows in
    (r.0 ≡ q.0) × Agrees rows_driver codec r.1 q.1
run_calls-Agrees_example = run_calls-Agrees rows_laws calls store rows agrees

keyed : IsKeyed rows_driver codec rows
keyed j m h = one_key j m (same_node j ∙ h)

found : pg_get_node rows_driver codec n1 rows ≡ some node
unfolding get_node lookup text_eq
found = sym (same_node n1)

provision-pg_repository_example :
    let clock = λ (k : ℕ). k in
    let uuid = λ (k : ℕ). k ∷ [] in
    let before : Keyed rows_laws = (0, (rows, keyed)) in
    let attempt =
      (connect
        (pg_repository rows_laws clock uuid)
        outside
        provisioner
        images
        node
        (pg_repository_status rows_laws clock uuid n1 provisioning
          (codes "Connecting to node")
          before).1).0 in
    let after =
      (provision (pg_repository rows_laws clock uuid) outside provisioner images n1 before).1.0 in
    (m : Node) × (pg_get_node rows_driver codec n1 after ≡ some m)
    × (attempt ≡ none → m.status ≡ ready)
    × ((e : Text) → attempt ≡ some e → (m.status ≡ error) × (m.last_error ≡ e))
    × IsKeyed rows_driver codec after
provision-pg_repository_example =
    provision-pg_repository rows_laws (λ k. k) (λ k. k ∷ []) outside provisioner images n1 0 rows
      keyed node found
