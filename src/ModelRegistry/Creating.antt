-- ===== src/ModelRegistry/Creating.antt =====
-- `CreateModel` and `CreateVersion` on a database that keeps the contract of its statements.
use compute_backend.Prelude.{
  ◌≡◌, refl, false, Option, none, some, arith, if◌then◌else◌, ok, ℤ, Time,
}
use compute_backend.Strings.{Text, codes, is_empty}
use compute_backend.Strings.Trim.{trim_space}
use compute_backend.Maps.{insert}
use compute_backend.ModelRegistry.Types.{CreateModelInput, CreateVersionInput, status_inactive}
use compute_backend.ModelRegistry.Rows.{
  Json, ModelColumns, VersionColumns, nullable_string, nullable_int, trimmed_all, pq_string_array,
  scan_model, scan_version, model_of, version_of, decode_metadata, decode_column,
}
use compute_backend.ModelRegistry.Store.{
  Database, is_blank, status_or_draft, marshal_or_empty, create_model, create_version,
  version_values,
}
use compute_backend.ModelRegistry.Tables.{
  Tables, Schema, option_value, option_int, version_args, DatabaseLaws, JsonLaws, kept_model,
  kept_version,
}

-- An optional text as it is stored: trimmed, and NULL where nothing is left.
unfoldable pub stored : Option Text → Option Text
stored none = none
stored (some t) = let trimmed = trim_space t in if is_empty trimmed then none else some trimmed

nullable_string-stored : (o : Option Text) → nullable_string o ≡ option_value (stored o)
unfolding nullable_string stored
nullable_string-stored none = refl
nullable_string-stored (some t) = ground arith

nullable_int-option_int : (o : Option ℤ) → nullable_int o ≡ option_int o
unfolding nullable_int
nullable_int-option_int none = refl
nullable_int-option_int (some n) = refl

module _ {Object : Type 0} (json : Json Object) where
  abbrev pub object_of : Option Object → Object
  object_of none = json.empty
  object_of (some o) = o

module _ {Object D : Type 0} (json : Json Object) (db : Database D) {view : D → Tables}
    {schema : Schema D} (jl : JsonLaws json schema) (dl : DatabaseLaws db view schema) where
  abbrev pub raw_of : Option Object → Text
  raw_of o = jl.encoded (object_of json o)

  -- The row that CreateModel inserts.
  unfoldable pub new_model : CreateModelInput Object → Text → Time → ModelColumns
  new_model input id now = record {
    id = id;
    external_id = trim_space input.external_id;
    display_name = trim_space input.display_name;
    family = trim_space input.family;
    description = trim_space input.description;
    metadata = raw_of input.metadata;
    status = status_inactive;
    default_version = none;
    created_at = now;
    updated_at = now;
  }

  -- The row that CreateVersion inserts, but for its capabilities.
  unfoldable pub new_version : Text → CreateVersionInput Object → Text → Time → VersionColumns
  new_version model_id input id now = record {
    id = id;
    model_id = model_id;
    version = trim_space input.version;
    runner_image = trim_space input.runner_image;
    runner_family = stored input.runner_family;
    runner_manifest = raw_of input.runner_manifest;
    default_parameters = raw_of input.default_parameters;
    weights_uri = stored input.weights_uri;
    min_gpu_mem = input.min_gpu_mem_gb;
    min_vram = input.min_vram_gb;
    max_batch = input.max_batch_size;
    parameters = raw_of input.parameters;
    capabilities = none;
    latency_tier = stored input.latency_tier;
    artifact_uri = stored input.artifact_uri;
    status = status_or_draft input.status;
    created_at = now;
    updated_at = now;
  }

  marshal_or_empty_lem :
      (context : Text) (o : Option Object) → marshal_or_empty json context o ≡ ok (raw_of o)
  unfolding marshal_or_empty
  marshal_or_empty_lem context none = rw (jl.marshal_lem json.empty, marshal_or_empty) refl
  marshal_or_empty_lem context (some o) = rw (jl.marshal_lem o, marshal_or_empty) refl

  pub decode_metadata_lem :
      (o : Object) → decode_metadata json (schema.jsonb (jl.encoded o)) ≡ ok (some o)
  unfolding decode_metadata
  decode_metadata_lem o = rw (jl.is_empty_lem o) (jl.unmarshal_lem o)

  decode_column_lem :
      (context : Text) (o : Object)
      → decode_column json context (schema.jsonb (jl.encoded o)) ≡ ok (some o)
  unfolding decode_column
  decode_column_lem context o = rw (jl.is_empty_lem o, jl.is_null_lem o, jl.unmarshal_lem o) refl

  -- CreateModel returns the row that it stores, and stores it.
  pub create_model_lem :
      (input : CreateModelInput Object) (id : Text) (now : Time) (d : D)
      → is_blank input.external_id ≡ false
      → is_blank input.display_name ≡ false
      → is_blank input.family ≡ false
      → schema.IsUuid id
      → schema.AcceptsModel (new_model input id now) (view d)
      → let r = create_model json db input id now d in
        let row = kept_model schema (new_model input id now) in
        (r.0 ≡ ok (model_of row (some (object_of json input.metadata))))
        × (view r.1
            ≡ record { models = insert id row (view d).models; versions = (view d).versions })
  unfolding create_model new_model scan_model
  create_model_lem input id now d he hn hf hu ha =
      let (row, after) = dl.insert_model_row (new_model input id now) d refl hu ha in
      rw
        (
          he,
          hn,
          hf,
          marshal_or_empty_lem (codes "marshal metadata: ") input.metadata,
          row,
          decode_metadata_lem (object_of json input.metadata),
        )
        (refl, after)

  version_values_lem :
      (model_id : Text) (input : CreateVersionInput Object) (id : Text) (now : Time)
      → version_values model_id input
          (raw_of input.parameters)
          (raw_of input.runner_manifest)
          (raw_of input.default_parameters)
          id
          now
        ≡ version_args (new_version model_id input id now) (trimmed_all input.capabilities)
  unfolding new_version pq_string_array
  version_values_lem model_id input id now =
      rw
        (
          nullable_string-stored input.runner_family,
          nullable_string-stored input.weights_uri,
          nullable_int-option_int input.min_gpu_mem_gb,
          nullable_int-option_int input.min_vram_gb,
          nullable_int-option_int input.max_batch_size,
          nullable_string-stored input.latency_tier,
          nullable_string-stored input.artifact_uri,
        )
        refl

  -- CreateVersion returns the row that it stores, and stores it.
  pub create_version_lem :
      (model_id : Text) (input : CreateVersionInput Object) (id : Text) (now : Time) (d : D)
      → is_blank model_id ≡ false
      → is_blank input.version ≡ false
      → is_blank input.runner_image ≡ false
      → schema.IsUuid id
      → schema.IsUuid model_id
      → schema.AcceptsVersion (new_version model_id input id now) (view d)
      → let r = create_version json db model_id input id now d in
        let row =
          kept_version schema
            (new_version model_id input id now)
            (trimmed_all input.capabilities) in
        (r.0
          ≡ ok (
              version_of json row
                (some (object_of json input.runner_manifest))
                (some (object_of json input.default_parameters))
                (some (object_of json input.parameters))))
        × (view r.1
            ≡ record { models = (view d).models; versions = insert id row (view d).versions })
  unfolding create_version scan_version new_version
  create_version_lem model_id input id now d hm hv hi hu hmu ha =
      let (row, after) =
        dl.insert_version_row (new_version model_id input id now) (trimmed_all input.capabilities) d
          hu hmu ha in
      rw
        (
          hm,
          hv,
          hi,
          marshal_or_empty_lem (codes "marshal parameters: ") input.parameters,
          marshal_or_empty_lem (codes "marshal runner manifest: ") input.runner_manifest,
          marshal_or_empty_lem (codes "marshal default parameters: ") input.default_parameters,
          version_values_lem model_id input id now,
          row,
          decode_column_lem (codes "decode runner manifest: ")
              (object_of json input.runner_manifest),
          decode_column_lem (codes "decode default parameters: ")
              (object_of json input.default_parameters),
          decode_column_lem (codes "decode parameters: ") (object_of json input.parameters),
        )
        (refl, after)
