-- ===== src/ModelRegistry/Rows.antt =====
-- pkg/modelregistry/postgres.go: the columns that a row is scanned into, and what becomes of them. A column that
-- may be NULL is an `Option`; JSON is an interface.
use compute_backend.Prelude.{
  ◌||◌, Option, none, some, List, [], ◌∷◌, ◌++◌, map, if◌then◌else◌, Result, ok, err, ℤ, Time,
}
use compute_backend.Strings.{Text, codes, text_eq, is_empty}
use compute_backend.Strings.Trim.{trim_space, trim}
use compute_backend.Strings.Split.{split}
use compute_backend.Sql.{Value, null, text, int, texts, Error, failed, wrap}
use compute_backend.ModelRegistry.Types.{Model, ModelVersion, ModelVersionInfo}

-- `json.Marshal` of an object, `json.Unmarshal` into one (`none`: the text was null), and the map without keys.
pub record Json (Object : Type 0) : Type 0 where
  pub marshal : Object → Result Text Text
  pub unmarshal : Text → Result Text (Option Object)
  pub empty : Object

pub record ModelColumns : Type 0 where
  pub id : Text
  pub external_id : Text
  pub display_name : Text
  pub family : Text
  pub description : Text
  pub metadata : Text
  pub status : Text
  pub default_version : Option Text
  pub created_at : Time
  pub updated_at : Time

-- The columns of the default version in a join, all NULL where there is none.
pub record JoinedColumns : Type 0 where
  pub model : ModelColumns
  pub version_id : Option Text
  pub version_tag : Option Text
  pub version_status : Option Text
  pub runner_image : Option Text
  pub runner_family : Option Text
  pub version_created : Option Time
  pub version_updated : Option Time

-- `capabilities` is the text of the array that `pqArray.Scan` is handed.
pub record VersionColumns : Type 0 where
  pub id : Text
  pub model_id : Text
  pub version : Text
  pub runner_image : Text
  pub runner_family : Option Text
  pub runner_manifest : Text
  pub default_parameters : Text
  pub weights_uri : Option Text
  pub min_gpu_mem : Option ℤ
  pub min_vram : Option ℤ
  pub max_batch : Option ℤ
  pub parameters : Text
  pub capabilities : Option Text
  pub latency_tier : Option Text
  pub artifact_uri : Option Text
  pub status : Text
  pub created_at : Time
  pub updated_at : Time

unfoldable pub nullable_string : Option Text → Value
nullable_string none = null
nullable_string (some value) =
    let trimmed = trim_space value in if is_empty trimmed then null else text trimmed

unfoldable pub nullable_int : Option ℤ → Value
nullable_int none = null
nullable_int (some value) = int value

-- The loop of `pqStringArray`.
unfoldable pub trimmed_all : List Text → List Text
trimmed_all [] = []
trimmed_all (v ∷ vs) =
    let rest = trimmed_all vs in
    let trimmed = trim_space v in if is_empty trimmed then rest else trimmed ∷ rest

unfoldable pub pq_string_array : List Text → Value
unfolding trimmed_all
pq_string_array values = texts (trimmed_all values)

-- A part of an array's text.
unfoldable pub array_element : Text → Option Text
array_element part = some (trim (trim_space part) (codes "\""))

unfoldable pub parse_postgres_array : Text → List (Option Text)
unfolding array_element
parse_postgres_array raw =
    let body = trim raw (codes "{}") in
    if is_empty (trim_space body) then [] else map array_element (split body b',')

-- `pqArray.Scan`, of NULL and of a text.
unfoldable pub scan_array : Option Text → List (Option Text)
scan_array none = []
scan_array (some raw) = parse_postgres_array raw

unfoldable pub flatten_null_string_array : List (Option Text) → List Text
flatten_null_string_array [] = []
flatten_null_string_array (none ∷ values) = flatten_null_string_array values
flatten_null_string_array (some v ∷ values) = v ∷ flatten_null_string_array values

abbrev pub or_empty : Option Text → Text
or_empty none = []
or_empty (some t) = t

abbrev pub or_zero : Option Time → Time
or_zero none = 0
or_zero (some t) = t

unfoldable pub version_info : JoinedColumns → Option ModelVersionInfo
version_info columns = elim columns.version_id [
  | none ↦ none
  | some id ↦ some (record {
    id = id;
    version = or_empty columns.version_tag;
    status = or_empty columns.version_status;
    runner_image = or_empty columns.runner_image;
    runner_family = columns.runner_family;
    created_at = or_zero columns.version_created;
    updated_at = or_zero columns.version_updated;
  })
]

module _ {Object : Type 0} where
  unfoldable pub model_of : ModelColumns → Option Object → Model Object
  model_of columns metadata = record {
    id = columns.id;
    external_id = columns.external_id;
    display_name = columns.display_name;
    family = columns.family;
    description = columns.description;
    metadata = metadata;
    status = columns.status;
    default_version_id = columns.default_version;
    created_at = columns.created_at;
    updated_at = columns.updated_at;
    latest_version = none;
  }

module _ {Object : Type 0} (json : Json Object) where
  -- The metadata of a model.
  unfoldable pub decode_metadata : Text → Result Text (Option Object)
  decode_metadata raw = if is_empty raw then ok (some json.empty) else json.unmarshal raw

  unfoldable pub scan_model : Result Error ModelColumns → Result Error (Model Object)
  unfolding decode_metadata model_of
  scan_model (err e) = err (wrap (codes "scan model: ") e)
  scan_model (ok columns) = elim (decode_metadata columns.metadata) [
    | err e ↦ err (failed (codes "decode metadata: " ++ e))
    | ok metadata ↦ ok (model_of columns metadata)
  ]

  unfoldable pub scan_model_with_version :
      Result Error JoinedColumns → Result Error (Model Object × Option ModelVersionInfo)
  unfolding decode_metadata model_of version_info
  scan_model_with_version (err e) = err (wrap (codes "scan model with version: ") e)
  scan_model_with_version (ok columns) = elim (decode_metadata columns.model.metadata) [
    | err e ↦ err (failed (codes "decode metadata: " ++ e))
    | ok metadata ↦ ok (model_of columns.model metadata, version_info columns)
  ]

  -- A column of JSON in a version: empty where it is NULL, without bytes or null.
  unfoldable pub decode_column : Text → Text → Result Error (Option Object)
  decode_column context raw =
      if is_empty raw || text_eq raw (codes "null")
      then ok (some json.empty)
      else elim (json.unmarshal raw) [
        | err e ↦ err (failed (context ++ e))
        | ok decoded ↦ ok decoded
      ]

  -- The nil map is replaced.
  unfoldable pub or_empty_object : Option Object → Option Object
  or_empty_object none = some json.empty
  or_empty_object (some o) = some o

  unfoldable pub version_of :
      VersionColumns → Option Object → Option Object → Option Object → ModelVersion Object
  version_of columns manifest defaults parameters = record {
    id = columns.id;
    model_id = columns.model_id;
    version = columns.version;
    runner_image = columns.runner_image;
    runner_family = columns.runner_family;
    runner_manifest = or_empty_object manifest;
    default_parameters = or_empty_object defaults;
    weights_uri = columns.weights_uri;
    min_gpu_mem_gb = columns.min_gpu_mem;
    min_vram_gb = columns.min_vram;
    max_batch_size = columns.max_batch;
    parameters = parameters;
    capabilities = flatten_null_string_array (scan_array columns.capabilities);
    latency_tier = columns.latency_tier;
    artifact_uri = columns.artifact_uri;
    status = columns.status;
    created_at = columns.created_at;
    updated_at = columns.updated_at;
  }

  unfoldable pub scan_version : Result Error VersionColumns → Result Error (ModelVersion Object)
  unfolding decode_column version_of or_empty_object
  scan_version (err e) = err (wrap (codes "scan version: ") e)
  scan_version (ok columns) =
      elim (decode_column (codes "decode runner manifest: ") columns.runner_manifest) [
        | err e ↦ err e
        | ok manifest ↦
            elim (decode_column (codes "decode default parameters: ") columns.default_parameters) [
              | err e ↦ err e
              | ok defaults ↦
                  elim (decode_column (codes "decode parameters: ") columns.parameters) [
                    | err e ↦ err e
                    | ok parameters ↦ ok (version_of columns manifest defaults parameters)
                  ]
            ]
      ]
