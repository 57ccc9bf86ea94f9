-- ===== src/ControlPlane/Provisioner/Services.antt =====
-- The services of the compose file of a node.
use compute_backend.Prelude.{
  ℕ, zero, suc, ◌↔◌, inl, inr, Option, arith, get_elem?, Bool-cases, ◌≡◌, refl, Bool, true, false,
  none, some, List, [], ◌∷◌, ◌++◌, if◌then◌else◌, is_some, any, All,
}
use compute_backend.Strings.{Text, codes, text_eq}
use compute_backend.Strings.Fold.{equal_fold}
use compute_backend.Maps.{Assoc, lookup}
use compute_backend.ControlPlane.Types.{Node}
use compute_backend.ControlPlane.Provisioner.Env.{
  Provisioner, build_global_env, build_qwen_env, has_model,
}
use compute_backend.ControlPlane.Provisioner.Compose.{
  ComposeService, Images, runner_env, qwen_env, minio_name, qwen_name, flux_name, minio_service,
  qwen_service, flux_service, has_qwen, has_flux, compose_for_node,
}
use compute_backend.ControlPlane.Provisioner.Install.{Outside}
use compute_backend.ControlPlane.Provisioner.Written.{File, files_of, has_qwen_lem}

-- Every service that the service waits for is one of the services, and every environment file that it reads is
-- one of the files.
abbrev pub IsClosed : Assoc ComposeService → List File → ComposeService → Type 0
IsClosed services files service =
    All (λ name. is_some (lookup name services) ≡ true) service.depends_on
    × All (λ path. any (λ file. text_eq file.0 path) files ≡ true) service.env_file

abbrev services_of : Bool → Bool → Images → Node → Assoc ComposeService
services_of q f images node =
    (if q then (minio_name, minio_service images) ∷ (qwen_name, qwen_service images) ∷ [] else [])
    ++ (if f then (flux_name, flux_service images node) ∷ [] else [])

abbrev files_if : Bool → File → File → File → List File
files_if q first second last = first ∷ (if q then second ∷ [] else []) ++ last ∷ []

refers_inside :
    (q f : Bool) (images : Images) (node : Node) (content content' bytes : Text)
    → let files =
        files_if q
          (runner_env, content, 384)
          (qwen_env, content', 384)
          (codes "/opt/vyvo/docker-compose.yml", bytes, 416) in
      All
        (λ entry. IsClosed (services_of q f images node) files entry.1)
        (services_of q f images node)
unfolding lookup text_eq minio_service qwen_service flux_service
refers_inside true true images node a b c =
    ((tt, tt), (((refl, tt), (refl, (refl, tt))), ((tt, (refl, tt)), tt)))
refers_inside true false images node a b c = ((tt, tt), (((refl, tt), (refl, (refl, tt))), tt))
refers_inside false true images node a b c = ((tt, (refl, tt)), tt)
refers_inside false false images node a b c = tt

services_by :
    (q f : Bool) (images : Images) (node : Node)
    → let services = services_of q f images node in
      (lookup minio_name services ≡ (if q then some (minio_service images) else none))
      × (lookup qwen_name services ≡ (if q then some (qwen_service images) else none))
      × (lookup flux_name services ≡ (if f then some (flux_service images node) else none))
unfolding lookup text_eq
services_by true true images node = (refl, refl, refl)
services_by true false images node = (refl, refl, refl)
services_by false true images node = (refl, refl, refl)
services_by false false images node = (refl, refl, refl)

-- The compose file refers to nothing that is missing: what a service waits for is a service of the same file,
-- and the environment files that it reads are among the files that are written for the node.
pub compose_for_node-IsClosed :
    {Signer : Type 0}
    → (outside : Outside Signer) (p : Provisioner) (images : Images) (node : Node) (bytes : Text)
    → All
        (λ entry.
          IsClosed (compose_for_node images node).services (files_of outside p node bytes) entry.1)
        (compose_for_node images node).services
unfolding compose_for_node
compose_for_node-IsClosed outside p images node bytes = rw (← has_qwen_lem node) (
    refers_inside (has_qwen node) (has_flux node) images node
      (build_global_env p (outside.now 0) node) (build_qwen_env outside.getenv (outside.now 1) node)
      bytes)

-- One of the node's models is one of these, up to case.
abbrev pub Names : List Text → Node → Type 0
Names names node =
    (i : ℕ) × (model : Text) × (get_elem? node.models i ≡ some model)
    × (any (equal_fold model) names ≡ true)

abbrev pub qwen_models : List Text
qwen_models = codes "qwen-image" ∷ codes "qwen-image-dashscope" ∷ []

abbrev pub flux_models : List Text
flux_models = codes "black-forest-labs/FLUX.1-dev" ∷ []

has_model_sound :
    (models : List Text) (target : Text)
    → has_model models target ≡ true
    → (i : ℕ) × (model : Text) × (get_elem? models i ≡ some model)
      × (equal_fold model target ≡ true)
unfolding has_model
has_model_sound [] target h = cc
has_model_sound (model ∷ models) target h = elim (Bool-cases (equal_fold model target)) [
  | inl e ↦ (0, model, refl, e)
  | inr e ↦
      let (i, m, found, same) = has_model_sound models target (ground arith) in
      (suc i, m, found, same)
]

has_model_complete :
    (models : List Text) (target : Text) (i : ℕ) (model : Text)
    → get_elem? models i ≡ some model
    → equal_fold model target ≡ true
    → has_model models target ≡ true
unfolding has_model
has_model_complete [] target i model found same = cc
has_model_complete (m ∷ models) target zero model found same = ground arith
has_model_complete (m ∷ models) target (suc i) model found same =
    ground (arith, has_model_complete models target i model found same)

has_qwen_iff : (node : Node) → (has_qwen node ≡ true) ↔ Names qwen_models node
unfolding has_qwen
has_qwen_iff node = (
  λ h. elim (Bool-cases (has_model node.models (codes "qwen-image"))) [
    | inl e ↦
        let (i, model, found, same) = has_model_sound node.models (codes "qwen-image") e in
        (i, model, found, ground (arith, same))
    | inr e ↦
        let (i, model, found, same) =
          has_model_sound node.models (codes "qwen-image-dashscope") (ground arith) in
        (i, model, found, ground (arith, same))
  ],
  λ (i, model, found, same). ground (
    arith,
    has_model_complete node.models (codes "qwen-image") i model found,
    has_model_complete node.models (codes "qwen-image-dashscope") i model found,
  ),
)

has_flux_iff : (node : Node) → (has_flux node ≡ true) ↔ Names flux_models node
unfolding has_flux
has_flux_iff node = (
  λ h.
      let (i, model, found, same) =
        has_model_sound node.models (codes "black-forest-labs/FLUX.1-dev") h in
      (i, model, found, ground (arith, same)),
  λ (i, model, found, same).
      has_model_complete node.models (codes "black-forest-labs/FLUX.1-dev") i model found
        (ground arith),
)

-- A service is there exactly where a condition holds.
abbrev pub IsThereIf : Type 0 → Option ComposeService → ComposeService → Type 0
IsThereIf C found service = (C → found ≡ some service) × (¬ C → found ≡ none)

there_if :
    {C : Type 0} (b : Bool) (found : Option ComposeService) (service : ComposeService)
    → (b ≡ true) ↔ C
    → found ≡ (if b then some service else none)
    → IsThereIf C found service
there_if true found service (to, from) h = (λ c. h, λ no. absurd (no (to refl)))
there_if false found service (to, from) h = (λ c. absurd (ground (arith, from c)), λ no. h)

-- The services of MinIO and of the Qwen runner are in the compose file exactly for a node one of whose models is,
-- up to case, "qwen-image" or "qwen-image-dashscope", and that of the FLUX runner exactly for a node one of whose
-- models is "black-forest-labs/FLUX.1-dev", up to case.
pub compose_for_node_services :
    (images : Images) (node : Node)
    → let services = (compose_for_node images node).services in
      IsThereIf (Names qwen_models node) (lookup (codes "minio") services) (minio_service images)
      × IsThereIf
          (Names qwen_models node)
          (lookup (codes "qwen-image") services)
          (qwen_service images)
      × IsThereIf
          (Names flux_models node)
          (lookup (codes "flux-runner") services)
          (flux_service images node)
unfolding compose_for_node
compose_for_node_services images node =
    let (minio, qwen, flux) = services_by (has_qwen node) (has_flux node) images node in
    (
      there_if (has_qwen node) _ _ (has_qwen_iff node) minio,
      there_if (has_qwen node) _ _ (has_qwen_iff node) qwen,
      there_if (has_flux node) _ _ (has_flux_iff node) flux,
    )
