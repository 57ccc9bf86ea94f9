-- ===== src/ModelRegistry/Types.antt =====
-- pkg/modelregistry/types.go: models, their versions and the inputs of the registry. `Object` is Go's
-- `map[string]any`, and `none` its nil map.
use compute_backend.Prelude.{Option, List, ℤ, Time}
use compute_backend.Strings.{Text, codes}

abbrev pub status_draft : Text
status_draft = codes "DRAFT"

abbrev pub status_ready : Text
status_ready = codes "READY"

abbrev pub status_inactive : Text
status_inactive = codes "INACTIVE"

-- A slim view of a version.
pub record ModelVersionInfo : Type 0 where
  pub id : Text
  pub version : Text
  pub status : Text
  pub runner_image : Text
  pub runner_family : Option Text
  pub created_at : Time
  pub updated_at : Time

pub record Model (Object : Type 0) : Type 0 where
  pub id : Text
  pub external_id : Text
  pub display_name : Text
  pub family : Text
  pub description : Text
  pub metadata : Option Object
  pub status : Text
  pub default_version_id : Option Text
  pub created_at : Time
  pub updated_at : Time
  pub latest_version : Option ModelVersionInfo

pub record ModelVersion (Object : Type 0) : Type 0 where
  pub id : Text
  pub model_id : Text
  pub version : Text
  pub runner_image : Text
  pub runner_family : Option Text
  pub runner_manifest : Option Object
  pub default_parameters : Option Object
  pub weights_uri : Option Text
  pub min_gpu_mem_gb : Option ℤ
  pub min_vram_gb : Option ℤ
  pub max_batch_size : Option ℤ
  pub parameters : Option Object
  pub capabilities : List Text
  pub latency_tier : Option Text
  pub artifact_uri : Option Text
  pub status : Text
  pub created_at : Time
  pub updated_at : Time

pub record CreateModelInput (Object : Type 0) : Type 0 where
  pub external_id : Text
  pub display_name : Text
  pub family : Text
  pub description : Text
  pub metadata : Option Object

pub record CreateVersionInput (Object : Type 0) : Type 0 where
  pub version : Text
  pub runner_image : Text
  pub runner_family : Option Text
  pub runner_manifest : Option Object
  pub default_parameters : Option Object
  pub weights_uri : Option Text
  pub min_gpu_mem_gb : Option ℤ
  pub min_vram_gb : Option ℤ
  pub max_batch_size : Option ℤ
  pub parameters : Option Object
  pub capabilities : List Text
  pub latency_tier : Option Text
  pub artifact_uri : Option Text
  pub status : Text

pub record UpdateRunnerConfigInput (Object : Type 0) : Type 0 where
  pub runner_image : Option Text
  pub runner_family : Option Text
  pub runner_manifest : Option Object
  pub default_parameters : Option Object

pub record QueryOptions : Type 0 where
  pub status : List Text
  pub family : List Text
  pub limit : ℤ
  pub offset : ℤ
