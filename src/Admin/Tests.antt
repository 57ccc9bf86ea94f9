-- ===== src/Admin/Tests.antt =====
-- The admin service at small inputs.
use compute_backend.Prelude.{
  inl, inr, map, ◌≤◌, ◌≡◌, refl, false, ◌||◌, none, some, List, [], ◌∷◌, if◌then◌else◌, Result, ok,
  err, pos, Time, length, drop,
}
use compute_backend.Strings.{Text, codes}
use compute_backend.Strings.Affix.{has_prefix, trim_prefix, has_suffix}
use compute_backend.Strings.Trim.{trim_space}
use compute_backend.Strings.Fold.{to_lower}
use compute_backend.Maps.{Assoc, lookup, insert}
use compute_backend.ModelRegistry.Store.{create_model, get_model}
use compute_backend.ModelRegistry.Tables.{Tables}
use compute_backend.ModelRegistry.Publish.{published}
use compute_backend.ModelRegistry.Memory.{json, memory, json_laws, memory_laws, query_model}
use compute_backend.Admin.Answers.{answers}
use compute_backend.Admin.HuggingFace.Defs.{
  HuggingFaceFile, HuggingFaceModel, Api, build_weights_url, candidate_file,
  fetch_hugging_face_model,
}
use compute_backend.Admin.HuggingFace.Weights.{weight_suffixes, IsFirstBest, build_weights_url-best}
use compute_backend.Admin.Jobs.Types.{JobSummary, RedisJobRecord, JobRedis}
use compute_backend.Admin.Jobs.Redis.{limit_of, list_jobs_from_redis}
use compute_backend.Admin.Jobs.Listing.{Reads, shown, IsListOf, list_jobs_from_redis-newest}
use compute_backend.Admin.Queues.Handlers.{handle_wipe_all}
use compute_backend.Admin.Queues.Wiping.{is_among, handle_wipe_all_lem}
use compute_backend.Admin.Models.Types.{
  ImportModelRequest, ImportModelResponse, JsonValue, postgres_models,
}
use compute_backend.Admin.Models.Import.{import_model_input, import_version_input}
use compute_backend.Admin.Models.Handlers.{handle_import}
use compute_backend.Admin.Models.Publishing.{handle_import-get_model}
use compute_backend.Admin.Memory.{sort_jobs, sort_laws, key_redis, key_laws}

abbrev file : Text → HuggingFaceFile
file name = record { rfilename = name; size = pos 1 }

abbrev files : List HuggingFaceFile
files = file (codes "model.bin") ∷ file (codes "b.safetensors") ∷ file (codes "a.SafeTensors") ∷ []

-- The first of the best files.
weights_run :
    build_weights_url (codes "org/m") [] (file (codes "README.md") ∷ files)
    ≡ codes "https://huggingface.co/org/m/resolve/main/b.safetensors"
unfolding build_weights_url candidate_file trim_space has_suffix to_lower trim_prefix
weights_run = refl

build_weights_url-best_example :
    (best : HuggingFaceFile) × IsFirstBest weight_suffixes (file (codes "README.md") ∷ files) best
    × (build_weights_url (codes "org/m") (codes " ") (file (codes "README.md") ∷ files)
        ≡ build_weights_url (codes "org/m") best.rfilename [])
unfolding trim_space
build_weights_url-best_example =
    build_weights_url-best (codes "org/m") (codes " ") (file (codes "README.md")) files refl

abbrev job : Text → Time → RedisJobRecord
job id created = record {
  id = id;
  model = codes "flux";
  status = codes "completed";
  params = none;
  worker_id = codes "w";
  node_id = [];
  created_at = created;
  started_at = 0;
  completed_at = 0;
  result = [];
  error = [];
  logs = [];
  backend_mode = [];
  backend_reason = [];
}

decode_job : Text → Result Text RedisJobRecord
decode_job [] = err (codes "unexpected end of JSON input")
decode_job (c ∷ t) = ok (job (c ∷ t) c)

-- The body of a job is its key without "job:"; its time the first code point.
abbrev job_redis : JobRedis
job_redis = record {
  scan = λ pattern. (codes "job:a" ∷ codes "job:" ∷ codes "job:c" ∷ codes "job:b" ∷ [], none);
  get = λ key. ok (drop 4 key);
  decode = decode_job;
  artifact_items = λ raw. none;
  marshal_item = λ raw. ok raw;
}

abbrev read : List RedisJobRecord
read = job (codes "a") b'a' ∷ job (codes "c") b'c' ∷ job (codes "b") b'b' ∷ []

reads : Reads job_redis (codes "job:a" ∷ codes "job:" ∷ codes "job:c" ∷ codes "job:b" ∷ []) read
unfolding decode_job
reads = (
  _,
  refl,
  inr (
    _,
    _,
    refl,
    refl,
    (
      _,
      refl,
      inl (_, refl, (_, refl, inr (_, _, refl, refl, (_, refl, inr (_, _, refl, refl, refl))))),
    ),
  ),
)

list_jobs_from_redis-newest_example :
    (jobs : List JobSummary) × (list_jobs_from_redis job_redis sort_jobs
        (limit_of (λ t. some (pos 2)) (codes "2"))
      ≡ ok jobs)
    × (length jobs ≤ 500)
    × (1 ≤ limit_of (λ t. some (pos 2)) (codes "2"))
    × IsListOf jobs (map shown read) (limit_of (λ t. some (pos 2)) (codes "2"))
list_jobs_from_redis-newest_example =
    list_jobs_from_redis-newest job_redis (λ t. some (pos 2)) sort_jobs (codes "2") read sort_laws
      reads refl

abbrev redis_keys : List Text
redis_keys = codes "queue:flux" ∷ codes "node:1" ∷ codes "job:7" ∷ []

handle_wipe_all_lem_example : is_among (codes "job:7") (handle_wipe_all key_redis redis_keys).1 ≡ (
    if has_prefix (codes "job:7") (codes "queue:") || has_prefix (codes "job:7") (codes "job:")
    then false
    else is_among (codes "job:7") redis_keys)
handle_wipe_all_lem_example = handle_wipe_all_lem key_laws redis_keys (codes "job:7")

abbrev hugging_face : HuggingFaceModel
hugging_face = record {
  model_id = codes "org/m";
  pipeline_tag = codes "text-to-image";
  tags = codes " art " ∷ [];
  card_data = none;
  siblings = files;
  library_name = codes "diffusers";
  description = [];
  likes = pos 1;
  downloads = pos 2;
  last_modified = codes "2024";
}

abbrev api : Api
api = record { request = λ url. ok (200, codes "{}"); decode = λ body. ok hugging_face }

abbrev request : ImportModelRequest
request = record {
  hugging_face_id = codes " org/m ";
  runner_image = codes "img";
  version = [];
  weights_file = [];
  promote = none;
}

-- The first id is for the model, the next for its version.
abbrev uuid : Tables → Text
uuid t = elim t.models [ [] ↦ codes "m1" | entry ∷ entries ↦ codes "v1" ]

abbrev make : Assoc (JsonValue Text) → Text
make entries = codes "}"

abbrev no_tables : Tables
no_tables = record { models = []; versions = [] }

handle_import-get_model_example :
    let d =
      (handle_import
        (some (postgres_models json memory uuid (λ t. 5)))
        make
        api
        (some request)
        no_tables) in
    ((response : ImportModelResponse Text) × (d.0 ≡ answers 201 response))
    × ((get_model json memory (codes "m1") d.1).0
        ≡ ok (
            published json memory json_laws memory_laws
              (import_model_input make (codes "org/m") hugging_face)
              (codes "m1")
              5
              (import_version_input make request (codes "org/m") hugging_face)
              (codes "v1")
              5
              9))
unfolding fetch_hugging_face_model trim_space import_model_input import_version_input create_model
    query_model insert lookup
handle_import-get_model_example =
    handle_import-get_model json memory json_laws memory_laws uuid (λ t. 5) make api request
      hugging_face no_tables refl refl refl refl refl refl refl refl refl refl refl refl
