-- ===== src/Builder/Service/Lifecycle.antt =====
-- The life of a build in cmd/builder/main.go, from the request to the end of its run.
use compute_backend.Prelude.{
  ℕ, ◌≡◌, refl, Bool, true, false, Option, none, some, List, [], ◌∷◌, ◌++◌, arith, Time,
}
use compute_backend.Strings.{Text, codes}
use compute_backend.Maps.{lookup, lookup-insert_self}
use compute_backend.Builder.Types.{Build, Status, queued, succeeded, failed, CreateRequest}
use compute_backend.Builder.MemStore.Defs.{Run, done, create}
use compute_backend.Builder.MemStore.Invariant.{IsWellFormed, create-IsWellFormed}
use compute_backend.Builder.Service.{
  accepted, handle_create_build, is_incomplete, queued_build, Database, RegistryCall, World,
  Command, endless, no_stdout, no_stderr, no_start, waited, notify_registry,
}
use compute_backend.Builder.Service.Steps.{Tracks}

-- The command is run and does not end.
abbrev pub hangs : Bool → Command → Bool
hangs true command = false
hangs false (endless lines) = true
hangs false _ = false

-- The error with which the run of a command ends; `none` is a success. The first argument says that no command is
-- configured and the build is simulated.
abbrev pub failure_of : Bool → Command → Option Text
failure_of true command = none
failure_of false (no_stdout e) = some (codes "stdout pipe error: " ++ e)
failure_of false (no_stderr e) = some (codes "stderr pipe error: " ++ e)
failure_of false (no_start e) = some (codes "build command start failed: " ++ e)
failure_of false (endless lines) = none
failure_of false (waited early late none) = none
failure_of false (waited early late (some e)) = some (codes "build command failed: " ++ e)

abbrev pub completed_line : Text
completed_line = codes "build completed successfully"

abbrev pub simulated_lines : List Text
simulated_lines =
    codes "cloning repository"
    ∷ codes "building docker image"
    ∷ codes "pushing image to registry"
    ∷ codes "updating model registry"
    ∷ []

-- The log after the run of the command, from that before it.
abbrev pub log_after : Bool → Command → List Text → List Text
log_after true command logs = (logs ++ simulated_lines) ++ completed_line ∷ []
log_after false (no_stdout e) logs = logs ++ (codes "stdout pipe error: " ++ e) ∷ []
log_after false (no_stderr e) logs = logs ++ (codes "stderr pipe error: " ++ e) ∷ []
log_after false (no_start e) logs = logs ++ (codes "build command start failed: " ++ e) ∷ []
log_after false (endless lines) logs = logs ++ lines
log_after false (waited early late none) logs = (logs ++ (early ++ late)) ++ completed_line ∷ []
log_after false (waited early late (some e)) logs =
    ((logs ++ early) ++ (codes "build command failed: " ++ e) ∷ []) ++ late

abbrev pub final_status : Option Text → Status
final_status none = succeeded
final_status (some e) = failed

abbrev pub final_error : Option Text → Text
final_error none = []
final_error (some e) = e

-- The build of a request at a time.
abbrev pub build_for : Text → Time → CreateRequest → Build
build_for id at p = record {
  id = id;
  template = p.template;
  runner_name = p.runner_name;
  model_id = p.model_id;
  version = p.version;
  repository = p.repository;
  runner_image = p.runner_image;
  weights_uri = p.weights_uri;
  status = queued;
  created_at = at;
  updated_at = at;
  finished_at = 0;
  error = [];
}

module _ {D : Type 0} (postgres : Option (Database D)) (clock : ℕ → Time) (getenv : Text → Text)
    (path_escape : Text → Text) where
  abbrev pub final_calls : Option Text → CreateRequest → World D → List RegistryCall
  final_calls none p first = (notify_registry postgres clock getenv path_escape p first).calls
  final_calls (some e) p first = first.calls

  -- How the part of the run that depends on the command ends.
  abbrev pub Ends :
      Text → CreateRequest → Bool → Command → List Text → World D → Run (World D) → Type 0
  Ends id p sim command logs first run =
      (v : World D) × (run ≡ done v)
      × Tracks id (final_status (failure_of sim command)) (final_error (failure_of sim command))
          (log_after sim command logs) (final_calls (failure_of sim command) p first) v

  -- On a well-formed store, a request with all the fields that are required is answered by its build, with the
  -- fields of the request, queued at the time of the clock; the store holds exactly that build under the id, with
  -- an empty log and no subscriber, and is ready for its run; a request that is incomplete or cannot be decoded
  -- changes nothing.
  pub handle_create_build_lem :
      (id : Text) (p : CreateRequest) (w : World D)
      → IsWellFormed w.mem
      → let handle = λ (request : Option CreateRequest).
        handle_create_build postgres clock getenv path_escape id request w in
        ((handle none).1 ≡ w)
        × (is_incomplete postgres clock getenv path_escape p ≡ true → (handle (some p)).1 ≡ w)
        × (is_incomplete postgres clock getenv path_escape p ≡ false
            → ((handle (some p)).0 ≡ accepted (build_for id (clock w.ticks) p))
              × (lookup id (handle (some p)).1.mem.items
                  ≡ some (record {
                    build = build_for id (clock w.ticks) p;
                    subscribers = [];
                    logs = [];
                  }))
              × Tracks id queued [] [] w.calls (handle (some p)).1)
  handle_create_build_lem id p w well =
      let b = queued_build postgres clock getenv path_escape id (clock w.ticks) p in
      let after = (handle_create_build postgres clock getenv path_escape id (some p) w).1 in
      (
        unfold handle_create_build in refl,
        λ lacks. unfold handle_create_build in ground (arith, lacks),
        λ whole.
            let kept : after.mem ≡ create b w.mem =
              unfold handle_create_build in ground (arith, whole) in
            (
              unfold handle_create_build in ground (arith, whole),
              rw kept (unfold create in lookup-insert_self id _ w.mem.items),
              record {
                well = rw kept (create-IsWellFormed b w.mem well);
                rec = record { build = b; subscribers = []; logs = [] };
                found = rw kept (unfold create in lookup-insert_self id _ w.mem.items);
                has_status = refl;
                has_error = refl;
                has_logs = refl;
                has_calls = unfold handle_create_build in ground (arith, whole);
              },
            ),
      )
