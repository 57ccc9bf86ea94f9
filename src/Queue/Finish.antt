-- ===== src/Queue/Finish.antt =====
-- How a job ends: completed or failed.
use compute_backend.Prelude.{◌≡◌, refl, sym, ap, ◌∙◌, none, some, List, arith, ok, Time}
use compute_backend.Strings.{Text, text_eq_refl}
use compute_backend.Queue.{
  completed, failed, Job, Redis, JobCodec, job_key, queue_key, load, marshalled, finished,
  complete_job, fail_job, get_job,
}
use compute_backend.Queue.Contract.{RedisLaws, CodecLaws, job_key_other}
use compute_backend.Queue.Delivery.{load-get_job, get_job_found}

module _ {R J : Type 0} (redis : Redis R) (items : Text → R → List Text)
    (laws : RedisLaws redis items) (codec : JobCodec J) (encoding : CodecLaws codec) where
  stored :
      (id model bytes : Text) (next : Job J) (r : R)
      → codec.marshal next ≡ ok bytes
      → (redis.set (job_key id) (marshalled redis codec next) r).0 ≡ none
      → (get_job redis codec id (redis.set (job_key id) (marshalled redis codec next) r).1
          ≡ ok next)
        × (items (queue_key model) (redis.set (job_key id) (marshalled redis codec next) r).1
            ≡ items (queue_key model) r)
  stored id model bytes next r encoded h =
      let key = job_key id in
      let value : marshalled redis codec next ≡ bytes =
        unfold marshalled in ground (arith, encoded) in
      (
        get_job_found redis items laws codec encoding id bytes _ next
            (ground (
              arith,
              laws.get-set key key (marshalled redis codec next) r,
              text_eq_refl key,
              value,
            ))
            (encoding.unmarshal-marshal next bytes encoded),
        laws.items-set key (queue_key model) (marshalled redis codec next) r
            (job_key_other id model),
      )

  -- On a server that keeps its promises, a stored job that is completed, or failed, without an error and that
  -- can be encoded is read back with that status and the time, with the result or the message, and is otherwise
  -- as it was; no queue changes.
  pub complete_job_lem :
      (id model message bytes bytes' : Text) (value : J) (now : Time) (job : Job J) (r : R)
      → get_job redis codec id r ≡ ok job
      → codec.marshal (record (finished redis codec completed now job) { result = some value })
        ≡ ok bytes
      → codec.marshal (record (finished redis codec failed now job) { error = message }) ≡ ok bytes'
      → ((complete_job redis codec id value now r).0 ≡ none
          → let after = (complete_job redis codec id value now r).1 in
            (get_job redis codec id after
              ≡ ok (record job { status = completed; completed_at = now; result = some value }))
            × (items (queue_key model) after ≡ items (queue_key model) r))
        × ((fail_job redis codec id message now r).0 ≡ none
            → let after = (fail_job redis codec id message now r).1 in
              (get_job redis codec id after
                ≡ ok (record job { status = failed; completed_at = now; error = message }))
              × (items (queue_key model) after ≡ items (queue_key model) r))
  complete_job_lem id model message bytes bytes' value now job r read encoded encoded' =
      let loaded : load redis codec id r ≡ ok job =
        load-get_job redis items laws codec encoding id r r job refl read in
      let done = record (finished redis codec completed now job) { result = some value } in
      let lost = record (finished redis codec failed now job) { error = message } in
      let e : complete_job redis codec id value now r
          ≡ redis.set (job_key id) (marshalled redis codec done) r =
        unfold complete_job in ground (arith, loaded) in
      let e' : fail_job redis codec id message now r
          ≡ redis.set (job_key id) (marshalled redis codec lost) r =
        unfold fail_job in ground (arith, loaded) in
      (
        λ h. rw e (stored id model bytes done r encoded (sym (ap (λ x. x.0) e) ∙ h)),
        λ h. rw e' (stored id model bytes' lost r encoded' (sym (ap (λ x. x.0) e') ∙ h)),
      )
