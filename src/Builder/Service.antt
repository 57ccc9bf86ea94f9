-- ===== src/Builder/Service.antt =====
-- cmd/builder/main.go: a request for a build, and the run of the build in the background. Postgres is an interface
-- that may be missing, the build command with its environment is an argument. What two goroutines log from the
-- command's outputs is one list of lines, in the order in which they reach the store.
pub mod Steps
pub mod Lifecycle
use compute_backend.Prelude.{
  ℕ, zero, suc, ◌+◌, ◌-◌, ◌*◌, ◌/◌, ◌%◌, ◌^◌, ◌≤◌, ◌<◌, String, ◌≡◌, refl, sym, ap, ◌∙◌, ◌≢◌, ◌↔◌,
  ◌⊎◌, inl, inr, Bool, true, false, not, ◌&&◌, ◌||◌, Option, none, some, List, [], ◌∷◌, ◌++◌, map,
  append_assoc, append-nil, arith, ltb, leb, ◌==◌, if◌then◌else◌, ltb→lt, leb→le, ==_iff, ==-refl,
  Bool-cases, Result, ok, err, is_some, Option-cases, Result-cases, ℤ, pos, negsuc, is_zero, Time,
  length, get_elem?, set, take, drop, get_elem?-set_self, get_elem?-set_ne, get_elem?-concat,
  get_elem?-append, get_elem?-lt, length-append, length-take-le, drop-append, drop_add-append,
  take_all, take-append, any, find?, All, All-append,
}
use compute_backend.Strings.{
  Text, codes, newline, slash, text_eq, is_empty, text_eq→eq, text_eq_refl, eq→text_eq, text_eq_iff,
  Lacks,
}
use compute_backend.Strings.Affix.{
  after_prefix, has_prefix, trim_prefix, has_suffix, trim_suffix, contains, after_prefix-append,
  after_prefix_sound, has_prefix-append, trim_prefix-append, has_prefix_sound, trim_prefix_none,
  has_suffix-append, trim_suffix-append, trim_suffix_none,
}
use compute_backend.Strings.Trim.{
  is_space, in_set, trim_left_by, trim_right_by, trim_by, trim_space, trim, trim_right,
  trim_space_idem, trim_space-cons, trim_left_by_id, trim_right_by-concat, trim_right_by-drops,
  trim_right_by_none, trim_right_by-append, trim_by-append, trim_left_by-trim_by, trim_by-cons,
}
use compute_backend.Strings.Search.{index, last_index, index_first}
use compute_backend.Strings.Split.{split, join, split-Lacks, split-append}
use compute_backend.Strings.Fold.{
  lower, upper, fold, to_lower, to_upper, equal_fold, replace_all, equal_fold_refl,
  equal_fold_trans, equal_fold_sym,
}
use compute_backend.Builder.Types.{Status, queued, running, succeeded, failed, Build, CreateRequest}
use compute_backend.Builder.MemStore.Defs.{
  MemStore, Run, done, panics, blocks, create, set_status, append_log, get, list, close_subscribers,
}

-- The methods of `PostgresStore` that the service calls. Their errors are logged or answered.
pub record Database (D : Type 0) : Type 0 where
  pub create_row : Build → D → Option Text × D
  pub update_row : Text → Status → Option Time → Text → D → Option Text × D
  pub append_row : Text → Text → D → Option Text × D
  pub rows : D → Result Text (List Build)
  pub row : Text → D → Result Text Build

-- A call of the registry: the address, and what the body is made from.
pub record RegistryCall : Type 0 where
  pub endpoint : Text
  pub version : Text
  pub runner_image : Text
  pub weights_uri : Text
  pub status : Text

-- The stores, how often the clock was read, and the calls of the registry.
pub record World (D : Type 0) : Type 0 where
  pub mem : MemStore
  pub db : D
  pub ticks : ℕ
  pub calls : List RegistryCall

-- What becomes of the command: it cannot be prepared or started; or, with the lines that are logged until then, it never
-- ends, as one that waits for its output to be read after a line was too long for the scanner; or it is waited for, with
-- the lines that are logged before that ends and those that are logged later, behind both closes of the subscribers, and
-- its error.
pub data Command : Type 0 where
  no_stdout no_stderr no_start : Text → Command
  endless : List Text → Command
  waited : List Text → List Text → Option Text → Command

pub data Answer : Type 0 where
  accepted : Build → Answer
  builds : List Build → Answer
  one_build : Build → Answer
  bad_request not_found server_error : Text → Answer

abbrev pub is_finished : Status → Bool
is_finished succeeded = true
is_finished failed = true
is_finished _ = false

-- `get` of the store in memory with the text of its error.
abbrev pub or_not_found : Option Build → Result Text Build
or_not_found none = err (codes "build not found")
or_not_found (some b) = ok b

abbrev pub after_get : Result Text Build → Answer
after_get (err e) = not_found e
after_get (ok b) = one_build b

abbrev pub after_list : Result Text (List Build) → Answer
after_list (err e) = server_error e
after_list (ok bs) = builds bs

-- One step after another.
unfoldable pub then_run : {A B : Type 0} → Run A → (A → Run B) → Run B
then_run (done a) next = next a
then_run panics next = panics
then_run blocks next = blocks

module _ {D : Type 0} (postgres : Option (Database D)) (clock : ℕ → Time) (getenv : Text → Text)
    (path_escape : Text → Text) where
  abbrev pub log_row : Text → Text → World D → MemStore → World D
  log_row id line w mem = elim postgres [
    | none ↦ record w { mem = mem }
    | some pg ↦ record w { mem = mem; db = (pg.append_row id line w.db).1 }
  ]

  unfoldable pub log_line : Text → Text → World D → Run (World D)
  unfolding then_run
  log_line id line w = then_run (append_log id line w.mem) (λ mem. done (log_row id line w mem))

  unfoldable pub log_lines : Text → List Text → World D → Run (World D)
  unfolding log_line
  log_lines id [] w = done w
  log_lines id (line ∷ lines) w = then_run (log_line id line w) (λ v. log_lines id lines v)

  -- The readings of the clock are those of the service and of the store.
  unfoldable pub update_status : Text → Status → Text → World D → World D
  update_status id status message w =
      let at = clock w.ticks in
      let mem : MemStore =
        elim (set_status id status (is_finished status) at message (clock (suc w.ticks)) w.mem) [
          | none ↦ w.mem
          | some (b, t) ↦ t
        ] in
      elim postgres [
        | none ↦ record w { mem = mem; ticks = w.ticks + 2 }
        | some pg ↦ record w {
          mem = mem;
          ticks = w.ticks + 2;
          db =
              (pg.update_row id status (if is_finished status then some at else none) message
                w.db).1;
        }
      ]

  unfoldable pub close_all_subscribers : Text → World D → Run (World D)
  unfolding then_run
  close_all_subscribers id w =
      then_run (close_subscribers id w.mem) (λ mem. done (record w { mem = mem }))

  unfoldable pub fail_build : Text → Text → World D → Run (World D)
  unfolding log_line update_status close_all_subscribers
  fail_build id message w =
      then_run (log_line id message w)
        (λ v. close_all_subscribers id (update_status id failed message v))

  -- An answer of the registry is only logged.
  unfoldable pub notify_registry : CreateRequest → World D → World D
  notify_registry payload w =
      let base = trim_space (getenv (codes "BUILDER_REGISTRY_URL")) in
      if is_empty base then w else record w {
        calls =
            w.calls
            ++ record {
              endpoint =
                  trim_suffix base (slash ∷ [])
                  ++ (codes "/api/models/" ++ (path_escape payload.model_id ++ codes "/versions"));
              version = payload.version;
              runner_image = payload.runner_image;
              weights_uri = payload.weights_uri;
              status = codes "READY";
            }
              ∷ [];
      }

  unfoldable pub succeed : Text → CreateRequest → World D → Run (World D)
  unfolding log_line update_status close_all_subscribers notify_registry
  succeed id payload w =
      then_run
        (log_line id (codes "build completed successfully") (update_status id succeeded [] w))
        (λ v. then_run (close_all_subscribers id v) (λ u. done (notify_registry payload u)))

  abbrev pub simulated : List Text
  simulated =
      codes "cloning repository"
      ∷ codes "building docker image"
      ∷ codes "pushing image to registry"
      ∷ codes "updating model registry"
      ∷ []

  -- The command's own part. Where it fails, the subscribers are closed a second time, and what is still read from its
  -- outputs is logged after that.
  unfoldable pub run_command : Text → CreateRequest → Command → World D → Run (World D)
  unfolding log_lines fail_build succeed close_all_subscribers
  run_command id payload (no_stdout e) w = fail_build id (codes "stdout pipe error: " ++ e) w
  run_command id payload (no_stderr e) w = fail_build id (codes "stderr pipe error: " ++ e) w
  run_command id payload (no_start e) w =
      fail_build id (codes "build command start failed: " ++ e) w
  run_command id payload (endless lines) w = then_run (log_lines id lines w) (λ v. blocks)
  run_command id payload (waited early late none) w =
      then_run (log_lines id (early ++ late) w) (λ v. succeed id payload v)
  run_command id payload (waited early late (some e)) w = then_run (log_lines id early w) (λ v.
      then_run (fail_build id (codes "build command failed: " ++ e) v)
        (λ u. then_run (close_all_subscribers id u) (λ t. log_lines id late t)))

  unfoldable pub run_build : Text → CreateRequest → Command → World D → Run (World D)
  unfolding run_command
  run_build id payload command w =
      then_run
        (log_line id
          (codes "queued build for " ++ (payload.runner_name ++ (codes ":" ++ payload.version))) w)
        (λ v.
          let u = update_status id running [] v in
          if is_empty (trim_space (getenv (codes "BUILDER_BUILD_COMMAND")))
          then then_run (log_lines id simulated u) (λ t. succeed id payload t)
          else run_command id payload command u)

  abbrev pub is_incomplete : CreateRequest → Bool
  is_incomplete p =
      is_empty p.template
      || is_empty p.runner_name
      || is_empty p.model_id
      || is_empty p.version
      || is_empty p.repository
      || is_empty p.runner_image

  abbrev pub queued_build : Text → Time → CreateRequest → Build
  queued_build id now p = record {
    id = id;
    template = p.template;
    runner_name = p.runner_name;
    model_id = p.model_id;
    version = p.version;
    repository = p.repository;
    runner_image = p.runner_image;
    weights_uri = p.weights_uri;
    status = queued;
    created_at = now;
    updated_at = now;
    finished_at = 0;
    error = [];
  }

  -- The handler up to its answer; `none` is a body that cannot be decoded. The run in the background follows.
  unfoldable pub handle_create_build : Text → Option CreateRequest → World D → Answer × World D
  handle_create_build id none w = (bad_request (codes "invalid JSON payload"), w)
  handle_create_build id (some p) w =
      if is_incomplete p
      then (
        bad_request (
            codes
              "template, runner_name, model_id, version, repository, and runner_image are required"),
        w,
      )
      else (let build = queued_build id (clock w.ticks) p in
          let v = record w { mem = create build w.mem; ticks = suc w.ticks } in
          (
            accepted build,
            elim postgres [ none ↦ v | some pg ↦ record v { db = (pg.create_row build v.db).1 } ],
          ))

  unfoldable pub handle_list_builds : World D → Answer
  handle_list_builds w = elim postgres [
    | none ↦ builds (list w.mem)
    | some pg ↦ after_list (pg.rows w.db)
  ]

  unfoldable pub handle_get_build : Text → World D → Answer
  handle_get_build id w =
      after_get (elim postgres [ none ↦ or_not_found (get id w.mem) | some pg ↦ pg.row id w.db ])
