-- ===== src/Builder/Postgres.antt =====
-- pkg/builder/postgres_store.go: builds and their logs in Postgres, the second store of the service. The database
-- is an interface.
pub mod Refused
mod Tests
use compute_backend.Prelude.{
  ℕ, zero, suc, ◌+◌, ◌-◌, ◌*◌, ◌/◌, ◌%◌, ◌^◌, ◌≤◌, ◌<◌, String, ◌≡◌, refl, sym, ap, ◌∙◌, ◌≢◌, ◌↔◌,
  ◌⊎◌, inl, inr, Bool, true, false, not, ◌&&◌, ◌||◌, Option, none, some, List, [], ◌∷◌, ◌++◌, map,
  append_assoc, append-nil, arith, ltb, leb, ◌==◌, if◌then◌else◌, ltb→lt, leb→le, ==_iff, ==-refl,
  Bool-cases, Result, ok, err, is_some, Option-cases, Result-cases, ℤ, pos, negsuc, is_zero, Time,
  length, get_elem?, set, take, drop, get_elem?-set_self, get_elem?-set_ne, get_elem?-concat,
  get_elem?-append, get_elem?-lt, length-append, length-take-le, drop-append, drop_add-append,
  take_all, take-append, any, find?, All, All-append,
}
use compute_backend.Strings.{
  Text, codes, newline, slash, text_eq, is_empty, text_eq→eq, text_eq_refl, eq→text_eq, text_eq_iff,
  Lacks,
}
use compute_backend.Strings.Affix.{
  after_prefix, has_prefix, trim_prefix, has_suffix, trim_suffix, contains, after_prefix-append,
  after_prefix_sound, has_prefix-append, trim_prefix-append, has_prefix_sound, trim_prefix_none,
  has_suffix-append, trim_suffix-append, trim_suffix_none,
}
use compute_backend.Strings.Trim.{
  is_space, in_set, trim_left_by, trim_right_by, trim_by, trim_space, trim, trim_right,
  trim_space_idem, trim_space-cons, trim_left_by_id, trim_right_by-concat, trim_right_by-drops,
  trim_right_by_none, trim_right_by-append, trim_by-append, trim_left_by-trim_by, trim_by-cons,
}
use compute_backend.Strings.Search.{index, last_index, index_first}
use compute_backend.Strings.Split.{split, join, split-Lacks, split-append}
use compute_backend.Strings.Fold.{
  lower, upper, fold, to_lower, to_upper, equal_fold, replace_all, equal_fold_refl,
  equal_fold_trans, equal_fold_sym,
}
use compute_backend.Sql.{Value, null, text, time, int}
use compute_backend.Builder.Types.{Build, Status, queued, running, succeeded, failed}
use compute_backend.Builder.Service.{Database}

-- The columns that a row of `runner_builds` is scanned into.
pub record BuildColumns : Type 0 where
  pub id : Text
  pub template : Text
  pub runner_name : Text
  pub model_id : Text
  pub version : Text
  pub repository : Text
  pub runner_image : Text
  pub weights : Option Text
  pub status : Status
  pub created_at : Time
  pub updated_at : Time
  pub finished_at : Option Time
  pub err_msg : Option Text

-- A statement with its values; a query with what each `Scan` answers and the error of `rows.Err`.
pub record Driver (D : Type 0) : Type 0 where
  pub exec : Text → List Value → D → Option Text × D
  pub query_builds :
      Text → List Value → D → Result Text (List (Result Text BuildColumns) × Option Text)
  pub query_build : Text → List Value → D → Result Text BuildColumns
  pub query_lines : Text → List Value → D → Result Text (List (Result Text Text) × Option Text)

abbrev pub status_text : Status → Text
status_text queued = codes "queued"
status_text running = codes "running"
status_text succeeded = codes "succeeded"
status_text failed = codes "failed"

abbrev pub insert_build : Text
insert_build =
    codes
      "INSERT INTO runner_builds (id, template, runner_name, model_id, version, repository, weights_uri, status, created_at, updated_at)\n"
    ++ codes "VALUES ($1,$2,$3,$4,$5,$6,$7,$8,$9,$10,$11)\n"
    ++ codes "ON CONFLICT (id) DO UPDATE SET\n"
    ++ codes "    template = EXCLUDED.template,\n"
    ++ codes "    runner_name = EXCLUDED.runner_name,\n"
    ++ codes "    model_id = EXCLUDED.model_id,\n"
    ++ codes "    version = EXCLUDED.version,\n"
    ++ codes "    repository = EXCLUDED.repository,\n"
    ++ codes "    runner_image = EXCLUDED.runner_image,\n"
    ++ codes "    weights_uri = EXCLUDED.weights_uri,\n"
    ++ codes "    status = EXCLUDED.status,\n"
    ++ codes "    updated_at = EXCLUDED.updated_at"

abbrev pub update_build : Text
update_build =
    codes "UPDATE runner_builds SET status=$1, updated_at=$2, finished_at=$3, error=$4 WHERE id=$5"

abbrev pub insert_line : Text
insert_line = codes "INSERT INTO runner_build_logs (build_id, line) VALUES ($1,$2)"

abbrev pub select_builds : Text
select_builds =
    codes
      "SELECT id, template, runner_name, model_id, version, repository, runner_image, weights_uri, status, created_at, updated_at, finished_at, error FROM runner_builds"

abbrev pub select_lines : Text
select_lines = codes "SELECT line FROM runner_build_logs WHERE build_id=$1 ORDER BY id ASC LIMIT $2"

abbrev pub build_values : Build → List Value
build_values b =
    text b.id
    ∷ text b.template
    ∷ text b.runner_name
    ∷ text b.model_id
    ∷ text b.version
    ∷ text b.repository
    ∷ text b.runner_image
    ∷ text b.weights_uri
    ∷ text (status_text b.status)
    ∷ time b.created_at
    ∷ time b.updated_at
    ∷ []

abbrev pub time_value : Option Time → Value
time_value none = null
time_value (some t) = time t

-- What is made of a row: NULL is the zero value.
unfoldable pub build_of : BuildColumns → Build
build_of c = record {
  id = c.id;
  template = c.template;
  runner_name = c.runner_name;
  model_id = c.model_id;
  version = c.version;
  repository = c.repository;
  runner_image = c.runner_image;
  weights_uri = elim c.weights [ none ↦ [] | some t ↦ t ];
  status = c.status;
  created_at = c.created_at;
  updated_at = c.updated_at;
  finished_at = elim c.finished_at [ none ↦ 0 | some t ↦ t ];
  error = elim c.err_msg [ none ↦ [] | some t ↦ t ];
}

-- A loop over rows, up to the first that cannot be scanned.
unfoldable pub scan_rows : {A B : Type 0} → (A → B) → List (Result Text A) → Result Text (List B)
scan_rows f [] = ok []
scan_rows f (err e ∷ rows) = err e
scan_rows f (ok a ∷ rows) =
    let rest = scan_rows f rows in elim rest [ err e ↦ err e | ok bs ↦ ok (f a ∷ bs) ]

-- The rows of a query, and its error where the iteration ends with one.
unfoldable pub all_rows :
    {A B : Type 0}
    → (A → B)
    → Result Text (List (Result Text A) × Option Text)
    → Result Text (List B)
unfolding scan_rows
all_rows f (err e) = err e
all_rows f (ok (rows, ended)) = elim (scan_rows f rows) [
  | err e ↦ err e
  | ok bs ↦ elim ended [ some e ↦ err e | none ↦ ok bs ]
]

module _ {D : Type 0} (driver : Driver D) (clock : D → Time) where
  unfoldable pub pg_create : Build → D → Option Text × D
  pg_create b d = driver.exec insert_build (build_values b) d

  unfoldable pub pg_update_status : Text → Status → Option Time → Text → D → Option Text × D
  pg_update_status id status finished_at message d =
      driver.exec update_build
        (text (status_text status)
          ∷ time (clock d)
          ∷ time_value finished_at
          ∷ text message
          ∷ text id
          ∷ [])
        d

  unfoldable pub pg_append_log : Text → Text → D → Option Text × D
  pg_append_log id line d = driver.exec insert_line (text id ∷ text line ∷ []) d

  unfoldable pub pg_list : D → Result Text (List Build)
  pg_list d =
      all_rows build_of
        (driver.query_builds (select_builds ++ codes " ORDER BY created_at DESC") [] d)

  unfoldable pub pg_get : Text → D → Result Text Build
  pg_get id d = elim (driver.query_build (select_builds ++ codes " WHERE id=$1") (text id ∷ []) d) [
    | err e ↦ err e
    | ok columns ↦ ok (build_of columns)
  ]

  unfoldable pub pg_list_logs : Text → ℤ → D → Result Text (List Text)
  pg_list_logs id limit d =
      all_rows (λ line. line) (driver.query_lines select_lines (text id ∷ int limit ∷ []) d)

  -- The store as the service takes it.
  abbrev pub postgres_store : Database D
  postgres_store = record {
    create_row = pg_create;
    update_row = pg_update_status;
    append_row = pg_append_log;
    rows = pg_list;
    row = pg_get;
  }
