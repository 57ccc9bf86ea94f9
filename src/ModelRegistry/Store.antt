-- ===== src/ModelRegistry/Store.antt =====
-- The operations of `PostgresStore` in pkg/modelregistry/postgres.go. The database is an interface; an id from
-- package uuid and the time of the call are arguments of the operations that ask for them.
use compute_backend.Prelude.{
  ℕ, zero, suc, Bool, Option, none, some, List, [], ◌∷◌, ◌++◌, if◌then◌else◌, Result, ok, err, Time,
}
use compute_backend.Strings.{Text, codes, is_empty}
use compute_backend.Strings.Trim.{trim_space}
use compute_backend.Sql.{Value, text, bytes, time, Error, no_rows, failed}
use compute_backend.ModelRegistry.Types.{
  Model, ModelVersion, ModelVersionInfo, CreateModelInput, CreateVersionInput,
  UpdateRunnerConfigInput, QueryOptions, status_draft, status_ready, status_inactive,
}
use compute_backend.ModelRegistry.Rows.{
  Json, ModelColumns, JoinedColumns, VersionColumns, nullable_string, nullable_int, pq_string_array,
  scan_model, scan_model_with_version, scan_version,
}
use compute_backend.ModelRegistry.Statements.{insert_model, insert_version, select_model, promote}
use compute_backend.ModelRegistry.Queries.{list_query, set_clauses, update_statement}

-- A query by the columns that its row is scanned into. `query_rows` gives what each `Scan` answers and the error
-- of `rows.Err`; `exec` the number of the rows affected.
pub record Database (D : Type 0) : Type 0 where
  pub query_model : Text → List Value → D → Result Error ModelColumns × D
  pub query_version : Text → List Value → D → Result Error VersionColumns × D
  pub query_joined : Text → List Value → D → Result Error JoinedColumns × D
  pub query_rows :
      Text → List Value → D → Result Text (List (Result Error JoinedColumns) × Option Text) × D
  pub exec : Text → List Value → D → Result Text (Result Text ℕ) × D

abbrev pub is_blank : Text → Bool
is_blank t = is_empty (trim_space t)

abbrev pub status_or_draft : Text → Text
status_or_draft status = if is_blank status then status_draft else status

module _ {Object : Type 0} where
  unfoldable pub with_latest : Model Object → Option ModelVersionInfo → Model Object
  with_latest model none = model
  with_latest model (some info) = record model { latest_version = some info }

  abbrev pub model_values : CreateModelInput Object → Text → Text → Time → List Value
  model_values input raw id now =
      text id
      ∷ text (trim_space input.external_id)
      ∷ text (trim_space input.display_name)
      ∷ text (trim_space input.family)
      ∷ text (trim_space input.description)
      ∷ bytes raw
      ∷ text status_inactive
      ∷ time now
      ∷ time now
      ∷ []

  abbrev pub version_values :
      Text → CreateVersionInput Object → Text → Text → Text → Text → Time → List Value
  version_values model_id input parameters manifest defaults id now =
      text id
      ∷ text model_id
      ∷ text (trim_space input.version)
      ∷ text (trim_space input.runner_image)
      ∷ nullable_string input.runner_family
      ∷ bytes manifest
      ∷ bytes defaults
      ∷ nullable_string input.weights_uri
      ∷ nullable_int input.min_gpu_mem_gb
      ∷ nullable_int input.min_vram_gb
      ∷ nullable_int input.max_batch_size
      ∷ bytes parameters
      ∷ pq_string_array input.capabilities
      ∷ nullable_string input.latency_tier
      ∷ nullable_string input.artifact_uri
      ∷ text (status_or_draft input.status)
      ∷ time now
      ∷ time now
      ∷ []

module _ {Object : Type 0} (json : Json Object) where
  -- `json.Marshal` of a map that is made where it is nil.
  unfoldable pub marshal_or_empty : Text → Option Object → Result Error Text
  marshal_or_empty context none = elim (json.marshal json.empty) [
    | err e ↦ err (failed (context ++ e))
    | ok raw ↦ ok raw
  ]
  marshal_or_empty context (some o) = elim (json.marshal o) [
    | err e ↦ err (failed (context ++ e))
    | ok raw ↦ ok raw
  ]

module _ {Object D : Type 0} (json : Json Object) (db : Database D) where
  unfoldable pub create_model :
      CreateModelInput Object → Text → Time → D → Result Error (Model Object) × D
  unfolding marshal_or_empty
  create_model input id now d =
      if is_blank input.external_id
      then (err (failed (codes "external_id is required")), d)
      else if is_blank input.display_name
      then (err (failed (codes "display_name is required")), d)
      else if is_blank input.family
      then (err (failed (codes "family is required")), d)
      else elim (marshal_or_empty json (codes "marshal metadata: ") input.metadata) [
        | err e ↦ (err e, d)
        | ok raw ↦
            let (row, after) = db.query_model insert_model (model_values input raw id now) d in
            (scan_model json row, after)
      ]

  unfoldable pub create_version :
      Text → CreateVersionInput Object → Text → Time → D → Result Error (ModelVersion Object) × D
  unfolding marshal_or_empty
  create_version model_id input id now d =
      if is_blank model_id
      then (err (failed (codes "model_id is required")), d)
      else if is_blank input.version
      then (err (failed (codes "version is required")), d)
      else if is_blank input.runner_image
      then (err (failed (codes "runner_image is required")), d)
      else elim (marshal_or_empty json (codes "marshal parameters: ") input.parameters) [
        | err e ↦ (err e, d)
        | ok parameters ↦
            elim (marshal_or_empty json (codes "marshal runner manifest: ") input.runner_manifest) [
              | err e ↦ (err e, d)
              | ok manifest ↦
                  elim (marshal_or_empty json (codes "marshal default parameters: ")
                    input.default_parameters) [
                      | err e ↦ (err e, d)
                      | ok defaults ↦
                          let (row, after) =
                            db.query_version insert_version
                              (version_values model_id input parameters manifest defaults id now)
                              d in
                          (scan_version json row, after)
                    ]
            ]
      ]

  unfoldable pub update_version_runner_config :
      Text
      → Text
      → UpdateRunnerConfigInput Object
      → Time
      → D
      → Result Error (ModelVersion Object) × D
  update_version_runner_config model_id version_id input now d =
      if is_blank model_id
      then (err (failed (codes "model_id is required")), d)
      else if is_blank version_id
      then (err (failed (codes "version_id is required")), d)
      else elim (set_clauses json input) [
        | err e ↦ (err e, d)
        | ok b ↦ elim b.clauses [
          | [] ↦ (err (failed (codes "no runner configuration fields provided")), d)
          | c ∷ cs ↦
              let (query, args) = update_statement b now model_id version_id in
              let (row, after) = db.query_version query args d in (scan_version json row, after)
        ]
      ]

  -- The loop over the rows, up to the first that cannot be scanned.
  unfoldable pub collect : List (Result Error JoinedColumns) → Result Error (List (Model Object))
  unfolding with_latest
  collect [] = ok []
  collect (row ∷ rows) =
      let rest = collect rows in
      elim (scan_model_with_version json row) [
        | err e ↦ err e
        | ok (model, info) ↦ elim rest [
          | err e ↦ err e
          | ok models ↦ ok (with_latest model info ∷ models)
        ]
      ]

  unfoldable pub list_models : QueryOptions → D → Result Error (List (Model Object)) × D
  unfolding collect
  list_models opts d =
      let (query, args) = list_query opts in
      let (answer, after) = db.query_rows query args d in
      elim answer [
        | err e ↦ (err (failed (codes "list models: " ++ e)), after)
        | ok (rows, ended) ↦ elim (collect rows) [
          | err e ↦ (err e, after)
          | ok models ↦ elim ended [
            | some e ↦ (err (failed (codes "iterate models: " ++ e)), after)
            | none ↦ (ok models, after)
          ]
        ]
      ]

  unfoldable pub get_model : Text → D → Result Error (Model Object) × D
  unfolding with_latest
  get_model id d =
      let (row, after) = db.query_joined select_model (text id ∷ []) d in
      elim (scan_model_with_version json row) [
        | err (no_rows e) ↦ (err (failed (codes "model not found")), after)
        | err (failed e) ↦ (err (failed e), after)
        | ok (model, info) ↦ (ok (with_latest model info), after)
      ]

  unfoldable pub promote_version : Text → Text → D → Option Text × D
  promote_version model_id version_id d =
      let (answer, after) =
        db.exec promote (text version_id ∷ text status_ready ∷ text model_id ∷ []) d in
      elim answer [
        | err e ↦ (some (codes "promote version: " ++ e), after)
        | ok (err e) ↦ (some (codes "promote version rows: " ++ e), after)
        | ok (ok zero) ↦ (some (codes "model not found"), after)
        | ok (ok (suc n)) ↦ (none, after)
      ]
