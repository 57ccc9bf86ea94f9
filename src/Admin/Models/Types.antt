-- ===== src/Admin/Models/Types.antt =====
-- The registry as cmd/admin-rest/main.go takes it, and the requests and answers of its handlers.
use compute_backend.Prelude.{Bool, Option, List, Result, ℤ, Time}
use compute_backend.Strings.{Text, codes}
use compute_backend.Maps.{Assoc}
use compute_backend.Sql.{Error}
use compute_backend.ModelRegistry.Types.{
  Model, ModelVersion, CreateModelInput, CreateVersionInput, UpdateRunnerConfigInput, QueryOptions,
}
use compute_backend.ModelRegistry.Rows.{Json}
use compute_backend.ModelRegistry.Store.{
  Database, create_model, create_version, update_version_runner_config, list_models, get_model,
  promote_version,
}
use compute_backend.Admin.Answers.{Answer, refuses}
use compute_backend.Admin.HuggingFace.Defs.{CardValue}

-- The methods of the registry's `Store`.
pub record ModelStore (Object D : Type 0) : Type 0 where
  pub list_models : QueryOptions → D → Result Error (List (Model Object)) × D
  pub create_model : CreateModelInput Object → D → Result Error (Model Object) × D
  pub create_version : Text → CreateVersionInput Object → D → Result Error (ModelVersion Object) × D
  pub update_version_runner_config :
      Text → Text → UpdateRunnerConfigInput Object → D → Result Error (ModelVersion Object) × D
  pub get_model : Text → D → Result Error (Model Object) × D
  pub promote_version : Text → Text → D → Option Text × D

-- The store in Postgres; the ids and the times that it asks for depend on the state.
abbrev pub postgres_models :
    {Object D : Type 0} → Json Object → Database D → (D → Text) → (D → Time) → ModelStore Object D
postgres_models json db uuid clock = record {
  list_models = list_models json db;
  create_model = λ input d. create_model json db input (uuid d) (clock d) d;
  create_version = λ id input d. create_version json db id input (uuid d) (clock d) d;
  update_version_runner_config =
      λ id version_id input d. update_version_runner_config json db id version_id input (clock d) d;
  get_model = get_model json db;
  promote_version = promote_version json db;
}

pub record CreateModelRequest (Object : Type 0) : Type 0 where
  pub model : CreateModelInput Object
  pub version : Option (CreateVersionInput Object)
  pub promote_version : Bool

pub record ImportModelRequest : Type 0 where
  pub hugging_face_id : Text
  pub runner_image : Text
  pub version : Text
  pub weights_file : Text
  pub promote : Option Bool

pub record ImportModelResponse (Object : Type 0) : Type 0 where
  pub model : Model Object
  pub version : ModelVersion Object

-- The values that the import puts into a map, and how a map is made of its entries.
pub data JsonValue (Object : Type 0) : Type 0 where
  string_value : Text → JsonValue Object
  int_value : ℤ → JsonValue Object
  strings_value : List Text → JsonValue Object
  card_value : Option (Assoc CardValue) → JsonValue Object
  object_value : Object → JsonValue Object

abbrev pub no_registry : {P : Type 0} → Answer P
no_registry = refuses 503 (codes "model registry not configured")

abbrev pub invalid_payload : {P : Type 0} → Answer P
invalid_payload = refuses 400 (codes "invalid JSON payload")
