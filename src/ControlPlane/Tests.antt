-- ===== src/ControlPlane/Tests.antt =====
-- The control plane's store and provisioner at one node.
use compute_backend.Strings.{Text, codes, text_eq}
use compute_backend.Strings.Fold.{equal_fold}
use compute_backend.Maps.{lookup}
use compute_backend.ControlPlane.Types.{
  pending, provisioning, ready, error, Node, NodeEvent, ModelAssignment,
}
use compute_backend.ControlPlane.Store.Defs.{
  Store, works, read, node_not_found, callback_failed, NodeFn, container, new_store, get_events,
  get_node, update_node, update_status, delete_node, upsert, find_assignment_for_model,
}
use compute_backend.ControlPlane.Store.Keys.{IsKeyed, touched, deleting, call, call-IsKeyed}
use compute_backend.ControlPlane.Store.Persistence.{new_store-container}
use compute_backend.ControlPlane.Store.Assignments.{
  assigned, Elem, upsert_lem, find_assignment_for_model_lem,
}
use compute_backend.ControlPlane.Store.Updates.{
  after_status, update_node_error, update_status_lem, delete_node_lem,
}
use compute_backend.ControlPlane.Provisioner.Env.{Provisioner}
use compute_backend.ControlPlane.Provisioner.Compose.{
  Images, minio_service, qwen_service, flux_service, compose_for_node,
}
use compute_backend.ControlPlane.Provisioner.Remote.{
  exited, Host, push_file_with_sudo, push_file, run_steps,
}
use compute_backend.ControlPlane.Provisioner.Install.{
  Repository, Outside, write_runner_files, write_qwen_env, connect, provision,
}
use compute_backend.Prelude.{
  ℕ, ◌≡◌, refl, true, false, none, some, [], ◌∷◌, ◌++◌, arith, if◌then◌else◌, ok, err, pos, any,
  find?, All,
}
use compute_backend.ControlPlane.Provisioner.Written.{files_of, placing_all, write_runner_files_ok}
use compute_backend.ControlPlane.Provisioner.Services.{
  IsClosed, IsThereIf, Names, qwen_models, flux_models, compose_for_node-IsClosed,
  compose_for_node_services,
}
use compute_backend.ControlPlane.Provisioner.Outcome.{
  memory_repository, memory_repository_laws, provision_lem,
}

abbrev n1 : Text
n1 = codes "n1"

abbrev assignment : ModelAssignment
assignment = record {
  model_id = codes "qwen-image";
  version_id = codes "v1";
  weights_uri = [];
  updated_at = 3;
}

abbrev node : Node
node = record {
  id = n1;
  name = codes "gpu";
  gpu_type = codes "H100";
  total_vram_gb = pos 80;
  ip_address = codes "10.0.0.1";
  ssh_username = codes "root";
  ssh_password = codes "secret";
  ssh_private_key = [];
  ssh_port = pos 22;
  models = codes "qwen-image" ∷ [];
  assignments = assignment ∷ [];
  hf_token = [];
  dash_scope_api_key = [];
  torch_dtype = codes "float16";
  device = codes "cuda";
  enable_xformers = false;
  enable_tf32 = true;
  trust_remote_code = false;
  status = pending;
  last_error = [];
  created_at = 1;
  updated_at = 1;
  last_provisioned_at = none;
}

abbrev registered_event : NodeEvent
registered_event = record {
  id = codes "e0";
  node_id = n1;
  status = pending;
  message = codes "Node registered";
  created_at = 1;
}

abbrev store : Store
store = record {
  path = codes "nodes.json";
  nodes = (n1, node) ∷ [];
  events = (n1, registered_event ∷ []) ∷ [];
  file = none;
}

store-IsKeyed : IsKeyed store.nodes
unfolding lookup
store-IsKeyed = (refl, refl, tt)

call-IsKeyed_example : IsKeyed (call (deleting n1 works) store).nodes
call-IsKeyed_example = call-IsKeyed (deleting n1 works) store tt store-IsKeyed

new_store-container_example :
    (t : Store) × (new_store (codes "nodes.json") (read (container store)) ≡ some t)
    × ((id : Text) → lookup id t.nodes ≡ lookup id store.nodes)
    × ((id : Text) (n : Node)
        → lookup id store.nodes ≡ some n
        → get_events id t ≡ get_events id store)
    × ((id : Text) → lookup id store.nodes ≡ none → get_events id t ≡ [])
new_store-container_example = new_store-container store store-IsKeyed (ground arith)

upsert_lem_example :
    ((upsert assignment node).0 ≡ none)
    × ((m : Text)
        → assigned m (upsert assignment node).1.assignments ≡ (
            if text_eq assignment.model_id m then some assignment else assigned m node.assignments))
    × (any (λ model. equal_fold model assignment.model_id) (upsert assignment node).1.models ≡ true)
upsert_lem_example = upsert_lem assignment node

find_assignment_for_model_lem_example :
    ((n : Node) (a : ModelAssignment)
      → find_assignment_for_model (codes "QWEN-image") store ≡ some (n, a)
      → Elem n store.nodes
        × (n.status ≡ ready)
        × (find? (λ x. equal_fold x.model_id (codes "QWEN-image")) n.assignments ≡ some a)
        × (equal_fold a.model_id (codes "QWEN-image") ≡ true))
    × ((n : Node)
        → find_assignment_for_model (codes "QWEN-image") store ≡ none
        → Elem n store.nodes
        → n.status ≡ ready
        → any (λ a. equal_fold a.model_id (codes "QWEN-image")) n.assignments ≡ false)
find_assignment_for_model_lem_example = find_assignment_for_model_lem (codes "QWEN-image") store

abbrev refusing : NodeFn
refusing n = (some (codes "no"), record n { name = codes "changed" })

update_node_error_example :
    let t = (update_node n1 refusing 7 works store).1 in
    (t.file ≡ none)
    × (t.events ≡ store.events)
    × ((n : Node)
        → lookup n1 store.nodes ≡ some n
        → lookup n1 t.nodes ≡ some (touched 7 (refusing n)))
unfolding update_node lookup text_eq
update_node_error_example =
    update_node_error n1 refusing 7 works store (callback_failed (codes "no")) refl

update_status_lem_example :
    let (result, t) = update_status n1 error (codes "down") (codes "e1") 4 5 6 works works store in
    (result ≡ ok (after_status error (codes "down") 4 5 node))
    × (get_node n1 t ≡ some (after_status error (codes "down") 4 5 node))
    × (get_events n1 t
        ≡ get_events n1 store
          ++ record {
            id = codes "e1";
            node_id = n1;
            status = error;
            message = codes "down";
            created_at = 6;
          }
            ∷ [])
unfolding lookup text_eq
update_status_lem_example =
    update_status_lem n1 error (codes "down") (codes "e1") 4 5 6 works store node refl

delete_node_lem_example :
    let (failure, t) = delete_node n1 works store in
    (lookup n1 t.nodes ≡ (if text_eq n1 n1 then none else lookup n1 store.nodes))
    × (lookup n1 store.nodes ≡ none → failure ≡ some node_not_found)
    × ((n : Node)
        → lookup n1 store.nodes ≡ some n
        → get_events n1 t ≡ (if text_eq n1 n1 then [] else get_events n1 store))
delete_node_lem_example = delete_node_lem n1 n1 works store

abbrev pub provisioner : Provisioner
provisioner = record {
  script_body = codes "true";
  redis_url = codes "redis://r";
  callback_url = [];
  callback_token = [];
}

-- A host where every command prints "active" and nothing fails.
abbrev pub host : Host
host = record {
  session = λ actions command. exited (codes "active") [] none;
  step = λ actions action. none;
}

abbrev pub outside : Outside Text
outside = record {
  getenv = λ key. [];
  now = λ k. codes "2024-01-01T00:00:0" ++ k ∷ [];
  quote = λ t. t;
  marshal = λ file. ok file.version;
  parse_private_key = λ key. ok key;
  default_signer = err (codes "no default private key found");
  dial = λ address user methods. ok host;
}

abbrev pub images : Images
images = record { flux = codes "flux"; qwen = codes "qwen"; minio = codes "minio" }

abbrev repository : Repository (ℕ × Store)
repository = memory_repository (λ k. k) (λ k. k ∷ [])

provision_lem_example :
    let attempt =
      (connect repository outside provisioner images node
        (repository.update_status n1 provisioning (codes "Connecting to node") (0, store)).1).0 in
    (n' : Node) × (repository.get_node n1
        (provision repository outside provisioner images n1 (0, store))
      ≡ some n')
    × (attempt ≡ none → n'.status ≡ ready)
    × ((e : Text) → attempt ≡ some e → (n'.status ≡ error) × (n'.last_error ≡ e))
unfolding get_node lookup text_eq
provision_lem_example =
    provision_lem repository (memory_repository_laws (λ k. k) (λ k. k ∷ [])) outside provisioner
      images n1 (0, store) node refl

write_runner_files_ok_example :
    (bytes : Text) × (outside.marshal (compose_for_node images node) ≡ ok bytes)
    × ((write_runner_files repository outside provisioner images host node [] []).1
        ≡ [] ++ placing_all [] (files_of outside provisioner node bytes))
unfolding write_runner_files write_qwen_env push_file_with_sudo push_file run_steps
write_runner_files_ok_example =
    write_runner_files_ok repository outside provisioner images host node [] [] (ground arith)

compose_for_node-IsClosed_example :
    All
      (λ entry.
        IsClosed
          (compose_for_node images node).services
          (files_of outside provisioner node (codes "3.9"))
          entry.1)
      (compose_for_node images node).services
compose_for_node-IsClosed_example =
    compose_for_node-IsClosed outside provisioner images node (codes "3.9")

compose_for_node_services_example :
    let services = (compose_for_node images node).services in
    IsThereIf (Names qwen_models node) (lookup (codes "minio") services) (minio_service images)
    × IsThereIf
        (Names qwen_models node)
        (lookup (codes "qwen-image") services)
        (qwen_service images)
    × IsThereIf
        (Names flux_models node)
        (lookup (codes "flux-runner") services)
        (flux_service images node)
compose_for_node_services_example = compose_for_node_services images node
