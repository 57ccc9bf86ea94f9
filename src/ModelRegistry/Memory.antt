-- ===== src/ModelRegistry/Memory.antt =====
-- A database of the registry in memory, which keeps the contract of its statements.
use compute_backend.Prelude.{
  ℕ, ◌≡◌, refl, false, Option, none, some, List, [], ◌∷◌, ◌++◌, arith, Result, ok, err, ℤ,
}
use compute_backend.Strings.{Text, codes, newline, text_eq, is_empty}
use compute_backend.Maps.{lookup, insert}
use compute_backend.Sql.{Value, text, bytes, int, time, texts, null, Error, failed}
use compute_backend.ModelRegistry.Rows.{Json, ModelColumns, VersionColumns, JoinedColumns}
use compute_backend.ModelRegistry.Store.{Database}
use compute_backend.ModelRegistry.Arrays.{array_text}
use compute_backend.ModelRegistry.Tables.{
  Tables, Schema, DatabaseLaws, JsonLaws, select_row, promote_row, option_value, option_int,
}
use compute_backend.ModelRegistry.Sorting.{sort_strings}
use compute_backend.ModelRegistry.Migrations.{Transactions, TransactionLaws}

-- An object is the text behind its brace.
abbrev pub unmarshal : Text → Result Text (Option Text)
unmarshal [] = err (codes "unexpected end of JSON input")
unmarshal (c ∷ t) = ok (some t)

abbrev pub json : Json Text
json = record { marshal = λ t. ok (b'{' ∷ t); unmarshal = unmarshal; empty = codes "}" }

abbrev pub refused : {A : Type 0} → Tables → Result Error A × Tables
refused d = (err (failed (codes "unexpected statement")), d)

abbrev pub schema : Schema Tables
schema = record {
  jsonb = λ t. t;
  kept = λ t. t;
  array_out = array_text;
  IsUuid = λ id. is_empty id ≡ false;
  AcceptsModel = λ row t. lookup row.id t.models ≡ none;
  AcceptsVersion = λ row t. lookup row.id t.versions ≡ none;
  clock = λ t. 9;
}

abbrev pub read_text : Value → Option Text
read_text (text t) = some t
read_text null = none
read_text (bytes t) = none
read_text (int n) = none
read_text (time t) = none
read_text (texts ts) = none

abbrev pub read_int : Value → Option ℤ
read_int (int n) = some n
read_int null = none
read_int (text t) = none
read_int (bytes t) = none
read_int (time t) = none
read_int (texts ts) = none

read_text-option_value : (o : Option Text) → read_text (option_value o) ≡ o
read_text-option_value none = refl
read_text-option_value (some t) = refl

read_int-option_int : (o : Option ℤ) → read_int (option_int o) ≡ o
read_int-option_int none = refl
read_int-option_int (some n) = refl

abbrev pub add_model : ModelColumns → Tables → Result Error ModelColumns × Tables
add_model row d = (ok row, record d { models = insert row.id row d.models })

abbrev pub add_version : VersionColumns → Tables → Result Error VersionColumns × Tables
add_version row d = (ok row, record d { versions = insert row.id row d.versions })

unfoldable pub query_model : Text → List Value → Tables → Result Error ModelColumns × Tables
query_model statement
      (text id
        ∷ text external_id
        ∷ text display_name
        ∷ text family
        ∷ text description
        ∷ bytes metadata
        ∷ text status
        ∷ time created_at
        ∷ time updated_at
        ∷ [])
      d =
    add_model
      (record {
        id = id;
        external_id = external_id;
        display_name = display_name;
        family = family;
        description = description;
        metadata = metadata;
        status = status;
        default_version = none;
        created_at = created_at;
        updated_at = updated_at;
      })
      d
query_model statement _ d = refused d

unfoldable pub query_version : Text → List Value → Tables → Result Error VersionColumns × Tables
query_version statement
      (text id
        ∷ text model_id
        ∷ text version
        ∷ text runner_image
        ∷ runner_family
        ∷ bytes runner_manifest
        ∷ bytes default_parameters
        ∷ weights_uri
        ∷ min_gpu_mem
        ∷ min_vram
        ∷ max_batch
        ∷ bytes parameters
        ∷ texts capabilities
        ∷ latency_tier
        ∷ artifact_uri
        ∷ text status
        ∷ time created_at
        ∷ time updated_at
        ∷ [])
      d =
    add_version
      (record {
        id = id;
        model_id = model_id;
        version = version;
        runner_image = runner_image;
        runner_family = read_text runner_family;
        runner_manifest = runner_manifest;
        default_parameters = default_parameters;
        weights_uri = read_text weights_uri;
        min_gpu_mem = read_int min_gpu_mem;
        min_vram = read_int min_vram;
        max_batch = read_int max_batch;
        parameters = parameters;
        capabilities = some (array_text capabilities);
        latency_tier = read_text latency_tier;
        artifact_uri = read_text artifact_uri;
        status = status;
        created_at = created_at;
        updated_at = updated_at;
      })
      d
query_version statement _ d = refused d

abbrev pub query_joined : Text → List Value → Tables → Result Error JoinedColumns × Tables
query_joined statement (text id ∷ []) d = (select_row id d, d)
query_joined statement _ d = refused d

abbrev pub exec : Text → List Value → Tables → Result Text (Result Text ℕ) × Tables
exec statement (text version_id ∷ text status ∷ text model_id ∷ []) d =
    let (n, after) = promote_row model_id version_id status 9 d in (ok (ok n), after)
exec statement _ d = (err (codes "unexpected statement"), d)

abbrev pub memory : Database Tables
memory = record {
  query_model = query_model;
  query_version = query_version;
  query_joined = query_joined;
  query_rows = λ statement args d. (ok ([], none), d);
  exec = exec;
}

pub memory_laws : DatabaseLaws memory (λ d. d) schema
unfolding query_model query_version
memory_laws = record {
  insert_model_row = λ row d default uuid accepted. rw (← default) (refl, refl);
  insert_version_row = λ row capabilities d uuid model_uuid accepted.
      rw
        (
          read_text-option_value row.runner_family,
          read_text-option_value row.weights_uri,
          read_int-option_int row.min_gpu_mem,
          read_int-option_int row.min_vram,
          read_int-option_int row.max_batch,
          read_text-option_value row.latency_tier,
          read_text-option_value row.artifact_uri,
        )
        (refl, refl);
  select_model_row = λ id d uuid. (refl, refl);
  promote_model_row = λ version_id status model_id d uuid model_uuid. (refl, refl);
}

pub json_laws : JsonLaws json schema
unfolding text_eq
json_laws = record {
  encoded = λ o. b'{' ∷ o;
  marshal_lem = λ o. refl;
  unmarshal_lem = λ o. refl;
  is_empty_lem = λ o. refl;
  is_null_lem = λ o. refl;
}

-- A database that is the list of the statements run on it.
abbrev pub statements : Transactions (List Text) (List Text)
statements = record {
  begin = λ d. (ok d, d);
  exec = λ sql t. (none, t ++ sql ∷ []);
  commit = λ t d. (none, t);
  rollback = λ t d. d;
}

abbrev pub migration_text : Text → Result Text Text
migration_text name = ok (codes "-- " ++ name ++ newline ∷ [])

pub statements_laws :
    TransactionLaws migration_text sort_strings statements
      (λ d. d)
      (λ t. t)
      (λ sql c. some (c ++ sql ∷ []))
statements_laws = record {
  begin_lem = λ d. refl;
  begin_inside = λ d t h. ground (arith, h);
  exec_lem = λ sql t h. refl;
  commit_lem = λ t d h. refl;
  commit_refused = λ t d e h. absurd (ground arith);
  rollback_lem = λ t d. refl;
}
