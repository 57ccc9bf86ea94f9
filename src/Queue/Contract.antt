-- ===== src/Queue/Contract.antt =====
-- What the queue relies on: Redis, and an encoding of jobs; and that its keys are apart.
use compute_backend.Prelude.{
  ◌≡◌, refl, ap, inl, inr, false, none, List, [], ◌∷◌, ◌++◌, arith, if◌then◌else◌, Bool-cases, ok,
  length, length-append,
}
use compute_backend.Strings.{Text, text_eq, text_eq→eq, text_eq_iff}
use compute_backend.Queue.{Job, found, Redis, JobCodec, job_key, queue_key, node_queue}

-- What Redis documents: `items` is the list at a key, and there is one space of keys. GET reads the last SET, RPUSH
-- appends, BLPOP takes the first item of a list that is not empty, and each leaves all other keys; what a SET does to a
-- list, or an RPUSH to a string, is left open.
pub record RedisLaws {R : Type 0} (redis : Redis R) (items : Text → R → List Text) : Type 0 where
  pub get-set :
      (k j v : Text) (r : R)
      → (redis.set k v r).0 ≡ none
      → redis.get j (redis.set k v r).1 ≡ (if text_eq k j then found v else redis.get j r)
  pub items-set :
      (k j v : Text) (r : R) → text_eq k j ≡ false → items j (redis.set k v r).1 ≡ items j r
  pub get-rpush :
      (k j x : Text) (r : R)
      → text_eq k j ≡ false
      → redis.get j (redis.rpush k x r).1 ≡ redis.get j r
  pub items-rpush :
      (k j x : Text) (r : R)
      → (redis.rpush k x r).0 ≡ none
      → items j (redis.rpush k x r).1 ≡ (if text_eq k j then items j r ++ x ∷ [] else items j r)
  pub blpop_first :
      (k x : Text) (xs : List Text) (r : R) → items k r ≡ x ∷ xs → (redis.blpop k r).0 ≡ found x
  pub items-blpop :
      (k j x : Text) (xs : List Text) (r : R)
      → items k r ≡ x ∷ xs
      → items j (redis.blpop k r).1 ≡ (if text_eq k j then xs else items j r)
  pub get-blpop :
      (k j : Text) (r : R) → text_eq k j ≡ false → redis.get j (redis.blpop k r).1 ≡ redis.get j r

-- A job that is encoded is decoded again.
pub record CodecLaws {J : Type 0} (codec : JobCodec J) : Type 0 where
  pub unmarshal-marshal :
      (job : Job J) (bytes : Text) → codec.marshal job ≡ ok bytes → codec.unmarshal bytes ≡ ok job

pub node_queue_other :
    (node_id model : Text) → text_eq (node_queue node_id model) (queue_key model) ≡ false
unfolding node_queue queue_key
node_queue_other node_id model =
    elim (Bool-cases (text_eq (node_queue node_id model) (queue_key model))) [
      | inr differs ↦ differs
      | inl same ↦
          let e = ap length (text_eq→eq (node_queue node_id model) (queue_key model) same) in
          ground (arith, e, length-append node_id (58 ∷ model))
    ]

pub queue_key_other :
    (node_id model : Text) → text_eq (queue_key model) (node_queue node_id model) ≡ false
queue_key_other node_id model = ground (
  arith,
  node_queue_other node_id model,
  text_eq_iff (queue_key model) (node_queue node_id model),
  text_eq_iff (node_queue node_id model) (queue_key model),
)

-- The key of a job is that of no queue.
pub job_key_other : (id model : Text) → text_eq (job_key id) (queue_key model) ≡ false
unfolding job_key queue_key text_eq
job_key_other id model = refl

pub queue_job_other : (model id : Text) → text_eq (queue_key model) (job_key id) ≡ false
unfolding job_key queue_key text_eq
queue_job_other model id = refl

pub node_job_other :
    (node_id model id : Text) → text_eq (node_queue node_id model) (job_key id) ≡ false
unfolding job_key node_queue text_eq
node_job_other node_id model id = refl

pub job_node_other :
    (id node_id model : Text) → text_eq (job_key id) (node_queue node_id model) ≡ false
unfolding job_key node_queue text_eq
job_node_other id node_id model = refl
