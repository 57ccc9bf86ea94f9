-- ===== src/ControlPlane/Provisioner/Compose.antt =====
-- The compose file of a node. A field that a service leaves out is the empty text or list, or `none`.
-- The images are arguments: the source reads them from the environment when it starts.
use compute_backend.Prelude.{ℕ, Bool, ◌||◌, Option, none, some, List, [], ◌∷◌, ◌++◌, if◌then◌else◌}
use compute_backend.Strings.{Text, codes}
use compute_backend.Maps.{Assoc}
use compute_backend.ControlPlane.Types.{Node}
use compute_backend.ControlPlane.Provisioner.Env.{has_model, value_or_default}

pub record ComposeHealthcheck : Type 0 where
  pub test : List Text
  pub interval : Text
  pub timeout : Text
  pub retries : ℕ

pub record ComposeDevice : Type 0 where
  pub driver : Text
  pub count : ℕ
  pub capabilities : List Text

-- The devices of `composeDeploy`, below resources and reservations.
pub record ComposeDeploy : Type 0 where
  pub devices : List ComposeDevice

pub record ComposeService : Type 0 where
  pub image : Text
  pub runtime : Text
  pub restart : Text
  pub depends_on : List Text
  pub env_file : List Text
  pub environment : Assoc Text
  pub command : List Text
  pub ports : List Text
  pub volumes : List Text
  pub healthcheck : Option ComposeHealthcheck
  pub deploy : Option ComposeDeploy
  pub shm_size : Text

-- A volume has no settings in any file, so its name is all there is.
pub record ComposeFile : Type 0 where
  pub version : Text
  pub services : Assoc ComposeService
  pub volumes : List Text

pub record Images : Type 0 where
  pub flux : Text
  pub qwen : Text
  pub minio : Text

unfoldable pub default_images : (Text → Text) → Images
default_images getenv = record {
  flux =
      value_or_default (getenv (codes "FLUX_RUNNER_IMAGE"))
        (codes "ghcr.io/vyvo/runner-flux:latest");
  qwen =
      value_or_default (getenv (codes "QWEN_RUNNER_IMAGE"))
        (codes "ghcr.io/hakankozakli/runner-qwen:latest");
  minio =
      value_or_default (getenv (codes "RUNNER_MINIO_IMAGE")) (codes "quay.io/minio/minio:latest");
}

abbrev pub runner_env : Text
runner_env = codes "/etc/vyvo/runner.env"

abbrev pub qwen_env : Text
qwen_env = codes "/etc/vyvo/qwen.env"

abbrev pub minio_name : Text
minio_name = codes "minio"

abbrev pub qwen_name : Text
qwen_name = codes "qwen-image"

abbrev pub flux_name : Text
flux_name = codes "flux-runner"

abbrev pub minio_data : Text
minio_data = codes "minio-data"

abbrev pub one_gpu : ComposeDeploy
one_gpu = record {
  devices = record { driver = codes "nvidia"; count = 1; capabilities = codes "gpu" ∷ [] } ∷ [];
}

abbrev pub health_of : Text → ComposeHealthcheck
health_of url = record {
  test = codes "CMD" ∷ codes "curl" ∷ codes "-f" ∷ url ∷ [];
  interval = codes "30s";
  timeout = codes "5s";
  retries = 5;
}

unfoldable pub minio_service : Images → ComposeService
minio_service images = record {
  image = images.minio;
  runtime = [];
  restart = codes "unless-stopped";
  depends_on = [];
  env_file = [];
  environment =
      (codes "MINIO_ROOT_USER", codes "vyvo")
      ∷ (codes "MINIO_ROOT_PASSWORD", codes "vyvo-secure-password-change-me")
      ∷ [];
  command = codes "server" ∷ codes "/data" ∷ codes "--console-address" ∷ codes ":9090" ∷ [];
  ports = codes "9000:9000" ∷ codes "9090:9090" ∷ [];
  volumes = codes "minio-data:/data" ∷ [];
  healthcheck = some (health_of (codes "http://localhost:9000/minio/health/live"));
  deploy = none;
  shm_size = [];
}

unfoldable pub qwen_service : Images → ComposeService
qwen_service images = record {
  image = images.qwen;
  runtime = codes "nvidia";
  restart = codes "unless-stopped";
  depends_on = minio_name ∷ [];
  env_file = runner_env ∷ qwen_env ∷ [];
  environment =
      (codes "NVIDIA_VISIBLE_DEVICES", codes "all")
      ∷ (codes "VYVO_MODEL_ID", codes "qwen/image")
      ∷ (codes "MINIO_ENDPOINT", codes "minio:9000")
      ∷ (codes "MINIO_ACCESS_KEY", codes "vyvo")
      ∷ (codes "MINIO_SECRET_KEY", codes "vyvo-secure-password-change-me")
      ∷ (codes "MINIO_BUCKET", codes "generated-images")
      ∷ (codes "MINIO_SECURE", codes "false")
      ∷ [];
  command = [];
  ports = codes "9001:9001" ∷ [];
  volumes = [];
  healthcheck = some (health_of (codes "http://127.0.0.1:9001/healthz"));
  deploy = some one_gpu;
  shm_size = [];
}

unfoldable pub flux_service : Images → Node → ComposeService
flux_service images node = record {
  image = images.flux;
  runtime = codes "nvidia";
  restart = codes "unless-stopped";
  depends_on = [];
  env_file = runner_env ∷ [];
  environment =
      (codes "NVIDIA_VISIBLE_DEVICES", codes "all")
      ∷ (codes "VYVO_MODEL_ID", codes "black-forest-labs/FLUX.1-dev")
      ∷ (codes "FLUX_ENABLE_DIFFUSERS", codes "1")
      ∷ (codes "FLUX_TORCH_DTYPE", value_or_default node.torch_dtype (codes "bfloat16"))
      ∷ (codes "FLUX_DEVICE", value_or_default node.device (codes "cuda"))
      ∷ [];
  command = [];
  ports = [];
  volumes = [];
  healthcheck = none;
  deploy = some one_gpu;
  shm_size = codes "2g";
}

-- The test for either Qwen model.
unfoldable pub has_qwen : Node → Bool
has_qwen node =
    has_model node.models (codes "qwen-image")
    || has_model node.models (codes "qwen-image-dashscope")

unfoldable pub has_flux : Node → Bool
has_flux node = has_model node.models (codes "black-forest-labs/FLUX.1-dev")

-- The file that `composeForNode` marshals.
unfoldable pub compose_for_node : Images → Node → ComposeFile
compose_for_node images node = record {
  version = codes "3.9";
  services =
      (if has_qwen node
        then (minio_name, minio_service images) ∷ (qwen_name, qwen_service images) ∷ []
        else [])
      ++ (if has_flux node then (flux_name, flux_service images node) ∷ [] else []);
  volumes = if has_qwen node then minio_data ∷ [] else [];
}
