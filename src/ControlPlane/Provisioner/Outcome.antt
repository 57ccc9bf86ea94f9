-- ===== src/ControlPlane/Provisioner/Outcome.antt =====
-- What `provision` leaves in a repository, and the store in memory as a repository.
use compute_backend.Prelude.{
  ℕ, suc, ◌+◌, ◌≡◌, refl, ◌∙◌, inl, inr, Option, none, some, List, [], ◌∷◌, ◌++◌, arith,
  if◌then◌else◌, ok, err, Option-cases, Result-cases, Time,
}
use compute_backend.Strings.{Text, codes, text_eq}
use compute_backend.Strings.Trim.{trim_space}
use compute_backend.Maps.{lookup}
use compute_backend.ControlPlane.Types.{
  NodeStatus, pending, provisioning, ready, error, other, Node, NodeEvent,
}
use compute_backend.ControlPlane.Store.Defs.{
  Store, Disk, works, StoreError, node_not_found, save_failed, callback_failed, save, get_node,
  update_status, append_event, with_event,
}
use compute_backend.ControlPlane.Store.Updates.{after_status, update_status_lem}
use compute_backend.ControlPlane.Provisioner.Env.{Provisioner}
use compute_backend.ControlPlane.Provisioner.Compose.{Images}
use compute_backend.ControlPlane.Provisioner.Remote.{Action, Host, run_command, push_file}
use compute_backend.ControlPlane.Provisioner.Install.{
  Repository, Outside, build_auth_methods, write_runner_files, install_steps, steps_of,
  install_files, install_runner, address, connect, fail, provision,
}

-- What a repository promises: a status update of a node that is there succeeds and is read back, with the
-- message as the last error where the status is ERROR; an event changes no node.
pub record RepositoryLaws {S : Type 0} (repo : Repository S) : Type 0 where
  pub updates :
      (id : Text) (st : NodeStatus) (message : Text) (s : S) (n : Node)
      → repo.get_node id s ≡ some n
      → ((repo.update_status id st message s).0 ≡ none)
        × ((n' : Node) × (repo.get_node id (repo.update_status id st message s).1 ≡ some n')
            × (n'.status ≡ st)
            × (st ≡ error → n'.last_error ≡ message))
  pub appends :
      (id j : Text) (st : NodeStatus) (message : Text) (s : S)
      → repo.get_node j (repo.append_event id st message s) ≡ repo.get_node j s

-- The store in memory with a working disk, its readings of the clock and its event ids taken from sequences; the
-- state counts those that were taken.
abbrev pub failure_text : Text → StoreError → Text
failure_text id node_not_found = codes "node " ++ id ++ codes " not found"
failure_text id save_failed = codes "save failed"
failure_text id (callback_failed e) = e

abbrev pub memory_update_status :
    (ℕ → Time) → (ℕ → Text) → Text → NodeStatus → Text → ℕ × Store → Option Text × (ℕ × Store)
memory_update_status clock uuid id st message (k, s) =
    let (result, t) =
      update_status id st message (uuid k) (clock k) (clock (suc k)) (clock (k + 2)) works works
        s in
    (elim result [ err e ↦ some (failure_text id e) | ok n ↦ none ], (k + 3, t))

abbrev pub memory_append_event :
    (ℕ → Time) → (ℕ → Text) → Text → NodeStatus → Text → ℕ × Store → ℕ × Store
memory_append_event clock uuid id st message (k, s) = (
  suc k,
  append_event id
      (record { id = uuid k; node_id = id; status = st; message = message; created_at = clock k })
      works s,
)

abbrev pub memory_repository : (ℕ → Time) → (ℕ → Text) → Repository (ℕ × Store)
memory_repository clock uuid = record {
  get_node = λ id t. get_node id t.1;
  update_status = memory_update_status clock uuid;
  append_event = memory_append_event clock uuid;
}

pub status-after_status :
    (st : NodeStatus) (message : Text) (t₁ t₂ : Time) (n : Node)
    → (after_status st message t₁ t₂ n).status ≡ st
status-after_status pending message t₁ t₂ n = refl
status-after_status provisioning message t₁ t₂ n = refl
status-after_status error message t₁ t₂ n = refl
status-after_status ready message t₁ t₂ n = refl
status-after_status (other x) message t₁ t₂ n = refl

pub last_error-after_status :
    (st : NodeStatus) (message : Text) (t₁ t₂ : Time) (n : Node)
    → st ≡ error
    → (after_status st message t₁ t₂ n).last_error ≡ message
last_error-after_status pending message t₁ t₂ n h = cc
last_error-after_status provisioning message t₁ t₂ n h = cc
last_error-after_status error message t₁ t₂ n h = refl
last_error-after_status ready message t₁ t₂ n h = cc
last_error-after_status (other x) message t₁ t₂ n h = cc

pub get_node-append_event :
    (id j : Text) (event : NodeEvent) (disk : Disk) (s : Store)
    → get_node j (append_event id event disk s) ≡ get_node j s
unfolding append_event with_event get_node save
get_node-append_event id j event disk s = ground arith

memory_updates :
    (clock : ℕ → Time) (uuid : ℕ → Text) (id : Text) (st : NodeStatus) (message : Text) (k : ℕ)
    (s : Store) (n : Node)
    → get_node id s ≡ some n
    → ((memory_update_status clock uuid id st message (k, s)).0 ≡ none)
      × ((n' : Node) × (get_node id (memory_update_status clock uuid id st message (k, s)).1.1
            ≡ some n')
          × (n'.status ≡ st)
          × (st ≡ error → n'.last_error ≡ message))
memory_updates clock uuid id st message k s n found =
    let found' : lookup id s.nodes ≡ some n = unfold get_node in found in
    let (result, stored, _) =
      update_status_lem id st message (uuid k) (clock k) (clock (suc k)) (clock (k + 2)) works s n
        found' in
    (
      ground (arith, result),
      (
        after_status st message (clock k) (clock (suc k)) n,
        stored,
        status-after_status st message (clock k) (clock (suc k)) n,
        last_error-after_status st message (clock k) (clock (suc k)) n,
      ),
    )

-- The store in memory keeps the promises of a repository as long as its disk works.
pub memory_repository_laws :
    (clock : ℕ → Time) (uuid : ℕ → Text) → RepositoryLaws (memory_repository clock uuid)
memory_repository_laws clock uuid = record {
  updates = λ id st message t n found. memory_updates clock uuid id st message t.0 t.1 n found;
  appends = λ id j st message t. get_node-append_event id j _ works t.1;
}

module _ {S Signer : Type 0} (repo : Repository S) (laws : RepositoryLaws repo)
    (outside : Outside Signer) (p : Provisioner) (images : Images) where
  get_node-install_steps :
      (host : Host) (id j : Text) (steps : List (Text × Text)) (done : List Action) (s : S)
      → repo.get_node j (install_steps repo outside p images host id steps done s).2
        ≡ repo.get_node j s
  unfolding install_steps run_command
  get_node-install_steps host id j [] done s = refl
  get_node-install_steps host id j ((message, command) ∷ steps) done s =
      let t = repo.append_event id provisioning message s in
      ground (
        arith,
        laws.appends id j provisioning message s,
        get_node-install_steps host id j steps (run_command host command done).1 t,
      )

  get_node-install_files :
      (host : Host) (node : Node) (sudo j : Text) (done : List Action) (s : S)
      → repo.get_node j (install_files repo outside p images host node sudo done s).2
        ≡ repo.get_node j s
  unfolding install_files
  get_node-install_files host node sudo j done s =
      let after =
        (push_file host (codes "/tmp/vyvo/setup_runner_host.sh") p.script_body 493 done).1 in
      let after' = (write_runner_files repo outside p images host node sudo after).1 in
      let message = codes "Writing model configuration" in
      ground (
        arith,
        laws.appends node.id j provisioning message s,
        get_node-install_steps host node.id j (steps_of repo outside p images sudo) after'
            (repo.append_event node.id provisioning message s),
      )

  get_node-install_runner :
      (host : Host) (node : Node) (j : Text) (s : S)
      → repo.get_node j (install_runner repo outside p images host node s).2 ≡ repo.get_node j s
  unfolding install_runner
  get_node-install_runner host node j s =
      let (answer, done) = run_command host (codes "whoami") [] in
      let sudo = if text_eq (trim_space answer.0) (codes "root") then [] else codes "sudo " in
      ground (arith, get_node-install_files host node sudo j done s)

  get_node-connect :
      (node : Node) (j : Text) (s : S)
      → repo.get_node j (connect repo outside p images node s).1 ≡ repo.get_node j s
  unfolding connect
  get_node-connect node j s = elim (Result-cases (build_auth_methods repo outside p images node)) [
    | inr (e, refused) ↦ ground arith
    | inl (methods, built) ↦
        elim (Result-cases
          (outside.dial (address repo outside p images node) node.ssh_username methods)) [
            | inr (e, refused) ↦ ground arith
            | inl (host, dialled) ↦ ground (arith, get_node-install_runner host node j s)
          ]
  ]

  -- On a repository that keeps its promises, a run for a node that is there ends with the node READY, if the
  -- attempt to connect and install succeeds, and else with the node in ERROR, its last error the failure of the
  -- attempt; it never stays PROVISIONING.
  pub provision_lem :
      (id : Text) (s : S) (n : Node)
      → repo.get_node id s ≡ some n
      → let attempt =
          (connect repo outside p images n
            (repo.update_status id provisioning (codes "Connecting to node") s).1).0 in
        (n' : Node) × (repo.get_node id (provision repo outside p images id s) ≡ some n')
        × (attempt ≡ none → n'.status ≡ ready)
        × ((e : Text) → attempt ≡ some e → (n'.status ≡ error) × (n'.last_error ≡ e))
  unfolding provision fail
  provision_lem id s n found =
      let (accepted, (n₁, found₁, _, _)) =
        laws.updates id provisioning (codes "Connecting to node") s n found in
      let t = (repo.update_status id provisioning (codes "Connecting to node") s).1 in
      let (attempt, u) = connect repo outside p images n t in
      let kept : repo.get_node id u ≡ some n₁ = get_node-connect n id t ∙ found₁ in
      elim (Option-cases attempt) [
        | inl fine ↦
            let (_, (n₂, found₂, status, _)) =
              laws.updates id ready (codes "Runner online") u n₁ kept in
            (
              n₂,
              ground (arith, accepted, fine, found₂),
              λ _. status,
              λ e h. ground (arith, fine, h),
            )
        | inr (e, failed) ↦
            let (_, (n₂, found₂, status, last)) = laws.updates id error e u n₁ kept in
            (
              n₂,
              ground (arith, accepted, failed, found₂),
              λ h. ground (arith, failed, h),
              λ e' h. (status, last refl ∙ ground (arith, failed, h)),
            )
      ]
