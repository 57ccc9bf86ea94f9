-- ===== src/ModelRegistry/Tables.antt =====
-- What the statements of pkg/modelregistry/postgres.go do to the tables `models` and `model_versions` of its
-- migrations: the contract of the database that the theorems on the registry assume.
use compute_backend.Prelude.{
  ℕ, ◌≡◌, Bool, false, Option, none, some, List, [], ◌∷◌, if◌then◌else◌, Result, ok, err, ℤ, Time,
}
use compute_backend.Strings.{Text, codes, text_eq, is_empty}
use compute_backend.Maps.{Assoc, lookup, insert}
use compute_backend.Sql.{Value, null, text, bytes, int, time, texts, Error, no_rows}
use compute_backend.ModelRegistry.Rows.{Json, ModelColumns, JoinedColumns, VersionColumns}
use compute_backend.ModelRegistry.Store.{Database}
use compute_backend.ModelRegistry.Statements.{insert_model, insert_version, select_model, promote}

-- The rows by their ids.
pub record Tables : Type 0 where
  pub models : Assoc ModelColumns
  pub versions : Assoc VersionColumns

abbrev pub option_value : Option Text → Value
option_value none = null
option_value (some t) = text t

abbrev pub option_int : Option ℤ → Value
option_int none = null
option_int (some n) = int n

-- The values that the two insertions pass, by the row that they are for.
abbrev pub model_args : ModelColumns → List Value
model_args row =
    text row.id
    ∷ text row.external_id
    ∷ text row.display_name
    ∷ text row.family
    ∷ text row.description
    ∷ bytes row.metadata
    ∷ text row.status
    ∷ time row.created_at
    ∷ time row.updated_at
    ∷ []

abbrev pub version_args : VersionColumns → List Text → List Value
version_args row capabilities =
    text row.id
    ∷ text row.model_id
    ∷ text row.version
    ∷ text row.runner_image
    ∷ option_value row.runner_family
    ∷ bytes row.runner_manifest
    ∷ bytes row.default_parameters
    ∷ option_value row.weights_uri
    ∷ option_int row.min_gpu_mem
    ∷ option_int row.min_vram
    ∷ option_int row.max_batch
    ∷ bytes row.parameters
    ∷ texts capabilities
    ∷ option_value row.latency_tier
    ∷ option_value row.artifact_uri
    ∷ text row.status
    ∷ time row.created_at
    ∷ time row.updated_at
    ∷ []

-- How Postgres keeps JSON, a time and an array, which ids are UUIDs, which rows the constraints let in, and the
-- time of a statement.
pub record Schema (D : Type 0) : Type 1 where
  pub jsonb : Text → Text
  pub kept : Time → Time
  pub array_out : List Text → Text
  pub IsUuid : Text → Type 0
  pub AcceptsModel : ModelColumns → Tables → Type 0
  pub AcceptsVersion : VersionColumns → Tables → Type 0
  pub clock : D → Time

-- `LEFT JOIN`
unfoldable pub joined : ModelColumns → Option VersionColumns → JoinedColumns
joined model none = record {
  model = model;
  version_id = none;
  version_tag = none;
  version_status = none;
  runner_image = none;
  runner_family = none;
  version_created = none;
  version_updated = none;
}
joined model (some v) = record {
  model = model;
  version_id = some v.id;
  version_tag = some v.version;
  version_status = some v.status;
  runner_image = some v.runner_image;
  runner_family = v.runner_family;
  version_created = some v.created_at;
  version_updated = some v.updated_at;
}

unfoldable pub default_row : Option Text → Tables → Option VersionColumns
default_row none t = none
default_row (some id) t = lookup id t.versions

unfoldable pub select_row : Text → Tables → Result Error JoinedColumns
unfolding joined default_row
select_row id t = elim (lookup id t.models) [
  | none ↦ err (no_rows (codes "sql: no rows in result set"))
  | some model ↦ ok (joined model (default_row model.default_version t))
]

-- Is the version one of the model's?
unfoldable pub has_version : Text → Text → Tables → Bool
has_version model_id version_id t = elim (lookup version_id t.versions) [
  | none ↦ false
  | some v ↦ text_eq v.model_id model_id
]

-- The number of rows that the promotion updates, and the tables after it.
unfoldable pub promote_row : Text → Text → Text → Time → Tables → ℕ × Tables
unfolding has_version
promote_row model_id version_id status now t = elim (lookup model_id t.models) [
  | none ↦ (0, t)
  | some model ↦
      if has_version model_id version_id t
      then (
        1,
        record t {
          models =
              insert model_id
                (record model {
                  default_version = some version_id;
                  status = status;
                  updated_at = now;
                })
                t.models;
        },
      )
      else (0, t)
]

abbrev pub kept_model : {D : Type 0} → Schema D → ModelColumns → ModelColumns
kept_model schema row = record row {
  metadata = schema.jsonb row.metadata;
  created_at = schema.kept row.created_at;
  updated_at = schema.kept row.updated_at;
}

abbrev pub kept_version : {D : Type 0} → Schema D → VersionColumns → List Text → VersionColumns
kept_version schema row capabilities = record row {
  runner_manifest = schema.jsonb row.runner_manifest;
  default_parameters = schema.jsonb row.default_parameters;
  parameters = schema.jsonb row.parameters;
  capabilities = some (schema.array_out capabilities);
  created_at = schema.kept row.created_at;
  updated_at = schema.kept row.updated_at;
}

-- The statements, on a database whose tables `view` shows.
pub record DatabaseLaws {D : Type 0} (db : Database D) (view : D → Tables) (schema : Schema D)
    : Type 1 where
  pub insert_model_row :
      (row : ModelColumns) (d : D)
      → row.default_version ≡ none
      → schema.IsUuid row.id
      → schema.AcceptsModel row (view d)
      → let r = db.query_model insert_model (model_args row) d in
        (r.0 ≡ ok (kept_model schema row))
        × (view r.1 ≡ record {
          models = insert row.id (kept_model schema row) (view d).models;
          versions = (view d).versions;
        })
  pub insert_version_row :
      (row : VersionColumns) (capabilities : List Text) (d : D)
      → schema.IsUuid row.id
      → schema.IsUuid row.model_id
      → schema.AcceptsVersion row (view d)
      → let r = db.query_version insert_version (version_args row capabilities) d in
        (r.0 ≡ ok (kept_version schema row capabilities))
        × (view r.1 ≡ record {
          models = (view d).models;
          versions = insert row.id (kept_version schema row capabilities) (view d).versions;
        })
  pub select_model_row :
      (id : Text) (d : D)
      → schema.IsUuid id
      → let r = db.query_joined select_model (text id ∷ []) d in
        (r.0 ≡ select_row id (view d)) × (view r.1 ≡ view d)
  pub promote_model_row :
      (version_id status model_id : Text) (d : D)
      → schema.IsUuid version_id
      → schema.IsUuid model_id
      → let r = db.exec promote (text version_id ∷ text status ∷ text model_id ∷ []) d in
        let after = promote_row model_id version_id status (schema.clock d) (view d) in
        (r.0 ≡ ok (ok after.0)) × (view r.1 ≡ after.1)

-- An object survives its encoding and the column that keeps it.
pub record JsonLaws {D : Type 0} {Object : Type 0} (json : Json Object) (schema : Schema D)
    : Type 0 where
  pub encoded : Object → Text
  pub marshal_lem : (o : Object) → json.marshal o ≡ ok (encoded o)
  pub unmarshal_lem : (o : Object) → json.unmarshal (schema.jsonb (encoded o)) ≡ ok (some o)
  pub is_empty_lem : (o : Object) → is_empty (schema.jsonb (encoded o)) ≡ false
  pub is_null_lem : (o : Object) → text_eq (schema.jsonb (encoded o)) (codes "null") ≡ false
