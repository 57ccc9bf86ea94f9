-- ===== src/Builder/Service/Steps.antt =====
-- What each step of the service does to a build that the store holds.
use compute_backend.Prelude.{
  ℕ, suc, ◌≡◌, refl, ap, ◌∙◌, Option, some, List, [], ◌∷◌, ◌++◌, append_assoc, append-nil, arith,
  Time,
}
use compute_backend.Strings.{Text, codes}
use compute_backend.Maps.{lookup, lookup-insert_self}
use compute_backend.Builder.Types.{Status, succeeded, failed, Build, CreateRequest}
use compute_backend.Builder.MemStore.Defs.{
  BuildRecord, MemStore, Run, done, replaced, with_status, set_status, append_log,
  close_subscribers,
}
use compute_backend.Builder.MemStore.Invariant.{
  IsWellFormed, set_status-IsWellFormed, append_log-IsWellFormed, append_log_found,
}
use compute_backend.Builder.MemStore.Subscribing.{
  close_subscribers-IsWellFormed, close_subscribers_found,
}
use compute_backend.Builder.Service.{
  Database, RegistryCall, World, is_finished, then_run, log_row, log_line, log_lines, update_status,
  close_all_subscribers, fail_build, notify_registry, succeed,
}

-- The store is well formed and holds the build with this status, error and log; and these calls of the registry were
-- made.
pub record Tracks {D : Type 0} (id : Text) (st : Status) (message : Text) (logs : List Text)
    (calls : List RegistryCall) (w : World D) : Type 0 where
  pub well : IsWellFormed w.mem
  pub rec : BuildRecord
  pub found : lookup id w.mem.items ≡ some rec
  pub has_status : rec.build.status ≡ st
  pub has_error : rec.build.error ≡ message
  pub has_logs : rec.logs ≡ logs
  pub has_calls : w.calls ≡ calls

pub then_run-done :
    {A B : Type 0} (m : Run A) (a : A) (next : A → Run B) → m ≡ done a → then_run m next ≡ next a
unfolding then_run
then_run-done m a next h = rw h refl

module _ {D : Type 0} (postgres : Option (Database D)) (clock : ℕ → Time) (getenv : Text → Text)
    (path_escape : Text → Text) where
  mem-log_row :
      (id line : Text) (w : World D) (mem : MemStore)
      → (log_row postgres clock getenv path_escape id line w mem).mem ≡ mem
  mem-log_row id line w mem = ground arith

  calls-log_row :
      (id line : Text) (w : World D) (mem : MemStore)
      → (log_row postgres clock getenv path_escape id line w mem).calls ≡ w.calls
  calls-log_row id line w mem = ground arith

  pub log_line-Tracks :
      (id line : Text) (st : Status) (message : Text) (logs : List Text) (calls : List RegistryCall)
      (w : World D)
      → Tracks id st message logs calls w
      → (v : World D) × (log_line postgres clock getenv path_escape id line w ≡ done v)
        × Tracks id st message (logs ++ line ∷ []) calls v
  log_line-Tracks id line st message logs calls w t =
      let (mem, e, well) = append_log-IsWellFormed id line w.mem t.well in
      let (h, e', _) = append_log_found id line w.mem t.rec t.found t.well in
      let new : BuildRecord = record t.rec { logs = t.rec.logs ++ line ∷ [] } in
      let same : mem ≡ replaced id new h w.mem = ground (arith, e, e') in
      let v = log_row postgres clock getenv path_escape id line w mem in
      let kept : v.mem ≡ mem = mem-log_row id line w mem in
      (
        v,
        unfold log_line in then_run-done (append_log id line w.mem) mem _ e,
        record {
          well = rw kept well;
          rec = new;
          found = rw (kept, same) (lookup-insert_self id new w.mem.items);
          has_status = t.has_status;
          has_error = t.has_error;
          has_logs = ap (λ l. l ++ line ∷ []) t.has_logs;
          has_calls = calls-log_row id line w mem ∙ t.has_calls;
        },
      )

  pub update_status-Tracks :
      (id : Text) (st st' : Status) (message message' : Text) (logs : List Text)
      (calls : List RegistryCall) (w : World D)
      → Tracks id st message logs calls w
      → Tracks id st' message' logs calls
          (update_status postgres clock getenv path_escape id st' message' w)
  update_status-Tracks id st st' message message' logs calls w t =
      let at = clock w.ticks in
      let now = clock (suc w.ticks) in
      let fin = is_finished st' in
      let b : Build = with_status st' fin at message' now t.rec.build in
      let new : BuildRecord = record t.rec { build = b } in
      let mem = replaced id new w.mem.heap w.mem in
      let set : set_status id st' fin at message' now w.mem ≡ some (b, mem) =
        unfold set_status in ground (arith, t.found) in
      let after = update_status postgres clock getenv path_escape id st' message' w in
      let kept : after.mem ≡ mem = unfold update_status in ground (arith, set) in
      let told : after.calls ≡ w.calls = unfold update_status in ground arith in
      record {
        well = rw kept (set_status-IsWellFormed id st' fin at message' now w.mem b mem set t.well);
        rec = new;
        found = rw kept (lookup-insert_self id new w.mem.items);
        has_status = refl;
        has_error = refl;
        has_logs = t.has_logs;
        has_calls = told ∙ t.has_calls;
      }

  pub close-Tracks :
      (id : Text) (st : Status) (message : Text) (logs : List Text) (calls : List RegistryCall)
      (w : World D)
      → Tracks id st message logs calls w
      → (v : World D) × (close_all_subscribers postgres clock getenv path_escape id w ≡ done v)
        × Tracks id st message logs calls v
  close-Tracks id st message logs calls w t =
      let (mem, e, well) = close_subscribers-IsWellFormed id w.mem t.well in
      let (h, e', _) = close_subscribers_found id w.mem t.rec t.found t.well in
      let new : BuildRecord = record t.rec { subscribers = [] } in
      let same : mem ≡ replaced id new h w.mem = ground (arith, e, e') in
      (
        record w { mem = mem },
        unfold close_all_subscribers in then_run-done (close_subscribers id w.mem) mem _ e,
        record {
          well = well;
          rec = new;
          found = rw same (lookup-insert_self id new w.mem.items);
          has_status = t.has_status;
          has_error = t.has_error;
          has_logs = t.has_logs;
          has_calls = t.has_calls;
        },
      )

  pub log_lines-Tracks :
      (id : Text) (lines : List Text) (st : Status) (message : Text) (logs : List Text)
      (calls : List RegistryCall) (w : World D)
      → Tracks id st message logs calls w
      → (v : World D) × (log_lines postgres clock getenv path_escape id lines w ≡ done v)
        × Tracks id st message (logs ++ lines) calls v
  unfolding log_lines
  log_lines-Tracks id [] st message logs calls w t = (w, refl, rw (append-nil logs) t)
  log_lines-Tracks id (line ∷ lines) st message logs calls w t =
      let (v, e, tv) = log_line-Tracks id line st message logs calls w t in
      let (u, e', tu) = log_lines-Tracks id lines st message (logs ++ line ∷ []) calls v tv in
      (u, then_run-done _ v _ e ∙ e', rw (← append_assoc logs (line ∷ []) lines) tu)

  pub fail_build-Tracks :
      (id e : Text) (st : Status) (message : Text) (logs : List Text) (calls : List RegistryCall)
      (w : World D)
      → Tracks id st message logs calls w
      → (v : World D) × (fail_build postgres clock getenv path_escape id e w ≡ done v)
        × Tracks id failed e (logs ++ e ∷ []) calls v
  fail_build-Tracks id e st message logs calls w t =
      let (v, h, tv) = log_line-Tracks id e st message logs calls w t in
      let tu = update_status-Tracks id st failed message e (logs ++ e ∷ []) calls v tv in
      let (u, h', tu') = close-Tracks id failed e (logs ++ e ∷ []) calls _ tu in
      (u, unfold fail_build in then_run-done _ v _ h ∙ h', tu')

  -- What the registry is told depends on the calls before alone.
  calls-notify_registry :
      (p : CreateRequest) (v w : World D)
      → v.calls ≡ w.calls
      → (notify_registry postgres clock getenv path_escape p v).calls
        ≡ (notify_registry postgres clock getenv path_escape p w).calls
  unfolding notify_registry
  calls-notify_registry p v w h = ground arith

  mem-notify_registry :
      (p : CreateRequest) (w : World D)
      → (notify_registry postgres clock getenv path_escape p w).mem ≡ w.mem
  unfolding notify_registry
  mem-notify_registry p w = ground arith

  pub succeed-Tracks :
      (id : Text) (p : CreateRequest) (st : Status) (message : Text) (logs : List Text)
      (w first : World D)
      → Tracks id st message logs first.calls w
      → (v : World D) × (succeed postgres clock getenv path_escape id p w ≡ done v)
        × Tracks id succeeded []
            (logs ++ codes "build completed successfully" ∷ [])
            (notify_registry postgres clock getenv path_escape p first).calls
            v
  succeed-Tracks id p st message logs w first t =
      let line = codes "build completed successfully" in
      let tw = update_status-Tracks id st succeeded message [] logs first.calls w t in
      let (v, h, tv) = log_line-Tracks id line succeeded [] logs first.calls _ tw in
      let (u, h', tu) = close-Tracks id succeeded [] (logs ++ line ∷ []) first.calls v tv in
      (
        notify_registry postgres clock getenv path_escape p u,
        unfold succeed in then_run-done _ v _ h ∙ then_run-done _ u _ h',
        record {
          well = rw (mem-notify_registry p u) tu.well;
          rec = tu.rec;
          found = rw (mem-notify_registry p u) tu.found;
          has_status = tu.has_status;
          has_error = tu.has_error;
          has_logs = tu.has_logs;
          has_calls = calls-notify_registry p u first tu.has_calls;
        },
      )
