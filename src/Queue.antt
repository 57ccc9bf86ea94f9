-- ===== src/Queue.antt =====
-- pkg/queue/redis.go: the job queue in Redis. The server is an interface; JSON and the clock are arguments.
-- `Params` and `Result` are JSON values of a type that the queue does not look into.
mod Contract
mod Delivery
mod Finish
mod Memory
mod Encoding
mod Tests
use compute_backend.Prelude.{
  ℕ, zero, suc, ◌+◌, ◌-◌, ◌*◌, ◌/◌, ◌%◌, ◌^◌, ◌≤◌, ◌<◌, String, ◌≡◌, refl, sym, ap, ◌∙◌, ◌≢◌, ◌↔◌,
  ◌⊎◌, inl, inr, Bool, true, false, not, ◌&&◌, ◌||◌, Option, none, some, List, [], ◌∷◌, ◌++◌, map,
  append_assoc, append-nil, arith, ltb, leb, ◌==◌, if◌then◌else◌, ltb→lt, leb→le, ==_iff, ==-refl,
  Bool-cases, Result, ok, err, is_some, Option-cases, Result-cases, ℤ, pos, negsuc, is_zero, Time,
  length, get_elem?, set, take, drop, get_elem?-set_self, get_elem?-set_ne, get_elem?-concat,
  get_elem?-append, get_elem?-lt, length-append, length-take-le, drop-append, drop_add-append,
  take_all, take-append, any, find?, All, All-append,
}
use compute_backend.Strings.{
  Text, codes, newline, slash, text_eq, is_empty, text_eq→eq, text_eq_refl, eq→text_eq, text_eq_iff,
  Lacks,
}
use compute_backend.Strings.Affix.{
  after_prefix, has_prefix, trim_prefix, has_suffix, trim_suffix, contains, after_prefix-append,
  after_prefix_sound, has_prefix-append, trim_prefix-append, has_prefix_sound, trim_prefix_none,
  has_suffix-append, trim_suffix-append, trim_suffix_none,
}
use compute_backend.Strings.Trim.{
  is_space, in_set, trim_left_by, trim_right_by, trim_by, trim_space, trim, trim_right,
  trim_space_idem, trim_space-cons, trim_left_by_id, trim_right_by-concat, trim_right_by-drops,
  trim_right_by_none, trim_right_by-append, trim_by-append, trim_left_by-trim_by, trim_by-cons,
}
use compute_backend.Strings.Search.{index, last_index, index_first}
use compute_backend.Strings.Split.{split, join, split-Lacks, split-append}
use compute_backend.Strings.Fold.{
  lower, upper, fold, to_lower, to_upper, equal_fold, replace_all, equal_fold_refl,
  equal_fold_trans, equal_fold_sym,
}

pub data JobStatus : Type 0 where
  pending processing completed failed : JobStatus

pub record Job (J : Type 0) : Type 0 where
  pub id : Text
  pub model : Text
  pub status : JobStatus
  pub params : J
  pub worker_id : Text
  pub node_id : Text
  pub created_at : Time
  pub started_at : Time
  pub completed_at : Time
  pub result : Option J
  pub error : Text

-- What GET and BLPOP answer; `absent` is `redis.Nil`.
pub data Answer : Type 0 where
  found : Text → Answer
  absent : Answer
  broken : Text → Answer

-- The commands that the queue sends; the time to live and the time of waiting are left out.
pub record Redis (R : Type 0) : Type 0 where
  pub set : Text → Text → R → Option Text × R
  pub get : Text → R → Answer
  pub rpush : Text → Text → R → Option Text × R
  pub blpop : Text → R → Answer × R
  pub llen : Text → R → Result Text ℕ

pub record JobCodec (J : Type 0) : Type 0 where
  pub marshal : Job J → Result Text Text
  pub unmarshal : Text → Result Text (Job J)

unfoldable pub job_key : Text → Text
job_key id = codes "job:" ++ id

unfoldable pub queue_key : Text → Text
queue_key model = codes "queue:" ++ model

unfoldable pub node_queue : Text → Text → Text
node_queue node_id model = codes "queue:" ++ (node_id ++ (codes ":" ++ model))

abbrev pub nil_text : Text
nil_text = codes "redis: nil"

module _ {R J : Type 0} (redis : Redis R) (codec : JobCodec J) where
  -- The queue of the node first, where the job names one.
  unfoldable pub push_node : Job J → R → Option Text × R
  push_node job r =
      if is_empty (trim_space job.node_id)
      then (none, r)
      else redis.rpush (node_queue job.node_id job.model) job.id r

  abbrev pub enqueued : Time → Job J → Job J
  enqueued now job = record job { created_at = now; status = pending }

  unfoldable pub enqueue_job : Time → Job J → R → Option Text × R
  unfolding push_node
  enqueue_job now given r =
      let job = enqueued now given in
      elim (codec.marshal job) [
        | err e ↦ (some e, r)
        | ok bytes ↦
            let (refused, r₁) = redis.set (job_key job.id) bytes r in
            elim refused [
              | some e ↦ (some e, r₁)
              | none ↦
                  let (refused', r₂) = push_node job r₁ in
                  elim refused' [
                    | some e ↦ (some e, r₂)
                    | none ↦ redis.rpush (queue_key job.model) job.id r₂
                  ]
            ]
      ]

  -- GET and `Unmarshal`; the error of a missing key is that of the client.
  unfoldable pub load : Text → R → Result Text (Job J)
  load id r = elim (redis.get (job_key id) r) [
    | found bytes ↦ codec.unmarshal bytes
    | absent ↦ err nil_text
    | broken e ↦ err e
  ]

  -- `Marshal` with its error dropped: then the value is empty.
  unfoldable pub marshalled : Job J → Text
  marshalled job = elim (codec.marshal job) [ ok bytes ↦ bytes | err e ↦ [] ]

  abbrev pub started : Text → Time → Job J → Job J
  started worker now job = record job { status = processing; worker_id = worker; started_at = now }

  -- The error of SET is dropped.
  unfoldable pub dequeue_job : Text → Text → Time → R → Result Text (Option (Job J)) × R
  unfolding load marshalled
  dequeue_job model worker now r =
      let (answer, r₁) = redis.blpop (queue_key model) r in
      elim answer [
        | absent ↦ (ok none, r₁)
        | broken e ↦ (err e, r₁)
        | found id ↦ elim (load id r₁) [
          | err e ↦ (err e, r₁)
          | ok job ↦
              let next = started worker now job in
              (ok (some next), (redis.set (job_key id) (marshalled next) r₁).1)
        ]
      ]

  abbrev pub finished : JobStatus → Time → Job J → Job J
  finished status now job = record job { status = status; completed_at = now }

  unfoldable pub complete_job : Text → J → Time → R → Option Text × R
  unfolding load marshalled
  complete_job id value now r = elim (load id r) [
    | err e ↦ (some e, r)
    | ok job ↦
        redis.set (job_key id)
          (marshalled (record (finished completed now job) { result = some value })) r
  ]

  unfoldable pub fail_job : Text → Text → Time → R → Option Text × R
  unfolding load marshalled
  fail_job id message now r = elim (load id r) [
    | err e ↦ (some e, r)
    | ok job ↦
        redis.set (job_key id) (marshalled (record (finished failed now job) { error = message })) r
  ]

  unfoldable pub get_job : Text → R → Result Text (Job J)
  get_job id r = elim (redis.get (job_key id) r) [
    | found bytes ↦ codec.unmarshal bytes
    | absent ↦ err (codes "job not found")
    | broken e ↦ err e
  ]

  unfoldable pub get_queue_length : Text → R → Result Text ℕ
  get_queue_length model r = redis.llen (queue_key model) r
