-- ===== src/Queue/Delivery.antt =====
-- What becomes of a job from the time it is enqueued.
use compute_backend.Prelude.{
  ◌≡◌, refl, inl, inr, false, none, some, List, [], ◌∷◌, ◌++◌, arith, if◌then◌else◌, ok,
  Result-cases, Time,
}
use compute_backend.Strings.{Text, codes, text_eq, is_empty, text_eq_refl}
use compute_backend.Strings.Trim.{trim_space}
use compute_backend.Queue.{
  Job, found, Redis, JobCodec, job_key, queue_key, node_queue, push_node, enqueued, enqueue_job,
  load, marshalled, started, dequeue_job, get_job,
}
use compute_backend.Queue.Contract.{
  RedisLaws, CodecLaws, node_queue_other, queue_key_other, job_key_other, queue_job_other,
  node_job_other, job_node_other,
}

module _ {R J : Type 0} (redis : Redis R) (items : Text → R → List Text)
    (laws : RedisLaws redis items) (codec : JobCodec J) (encoding : CodecLaws codec) where
  pub load-get_job :
      (id : Text) (r r' : R) (job : Job J)
      → redis.get (job_key id) r' ≡ redis.get (job_key id) r
      → get_job redis codec id r ≡ ok job
      → load redis codec id r' ≡ ok job
  unfolding load get_job
  load-get_job id r r' job same h = ground arith

  pub dequeue_job_next :
      (model worker id other : Text) (now : Time) (rest : List Text) (job : Job J) (r : R)
      → items (queue_key model) r ≡ id ∷ rest
      → get_job redis codec id r ≡ ok job
      → let (result, after) = dequeue_job redis codec model worker now r in
        (result ≡ ok (some (started redis codec worker now job)))
        × (items (queue_key other) after ≡ (
            if text_eq (queue_key model) (queue_key other)
            then rest
            else items (queue_key other) r))
  unfolding dequeue_job
  dequeue_job_next model worker id other now rest job r queued stored =
      let key = queue_key model in
      let popped = (redis.blpop key r).1 in
      let first = laws.blpop_first key id rest r queued in
      let read =
        load-get_job id r popped job (laws.get-blpop key (job_key id) r (queue_job_other model id))
          stored in
      (
        ground (arith, first, read),
        ground (
          arith,
          first,
          read,
          laws.items-blpop key (queue_key other) id rest r queued,
          laws.items-set (job_key id) (queue_key other)
              (marshalled redis codec (started redis codec worker now job)) popped
              (job_key_other id other),
        ),
      )

  pub get_job_found :
      (id bytes : Text) (r : R) (job : Job J)
      → redis.get (job_key id) r ≡ found bytes
      → codec.unmarshal bytes ≡ ok job
      → get_job redis codec id r ≡ ok job
  unfolding get_job
  get_job_found id bytes r job h h' = ground arith

  push_node-get :
      (job : Job J) (r : R) (id : Text)
      → redis.get (job_key id) (push_node redis codec job r).1 ≡ redis.get (job_key id) r
  unfolding push_node
  push_node-get job r id =
      let node = node_queue job.node_id job.model in
      ground
        (arith, laws.get-rpush node (job_key id) job.id r (node_job_other job.node_id job.model id))

  push_node-model :
      (job : Job J) (r : R)
      → (push_node redis codec job r).0 ≡ none
      → items (queue_key job.model) (push_node redis codec job r).1 ≡ items (queue_key job.model) r
  unfolding push_node
  push_node-model job r h = ground (
    arith,
    node_queue_other job.node_id job.model,
    laws.items-rpush (node_queue job.node_id job.model) (queue_key job.model) job.id r,
  )

  push_node-node :
      (job : Job J) (r : R)
      → (push_node redis codec job r).0 ≡ none
      → is_empty (trim_space job.node_id) ≡ false
      → items (node_queue job.node_id job.model) (push_node redis codec job r).1
        ≡ items (node_queue job.node_id job.model) r ++ job.id ∷ []
  unfolding push_node
  push_node-node job r h named =
      let key = node_queue job.node_id job.model in
      ground (arith, text_eq_refl key, laws.items-rpush key key job.id r)

  pub enqueue_job_ok :
      (now : Time) (job : Job J) (r : R)
      → (enqueue_job redis codec now job r).0 ≡ none
      → let after = (enqueue_job redis codec now job r).1 in
        (get_job redis codec job.id after ≡ ok (enqueued redis codec now job))
        × (items (queue_key job.model) after ≡ items (queue_key job.model) r ++ job.id ∷ [])
        × (is_empty (trim_space job.node_id) ≡ false
            → items (node_queue job.node_id job.model) after
              ≡ items (node_queue job.node_id job.model) r ++ job.id ∷ [])
  unfolding enqueue_job
  enqueue_job_ok now given r h =
      elim (Result-cases (codec.marshal (enqueued redis codec now given))) [
        | inr (e, refused) ↦ ground arith
        | inl (bytes, encoded) ↦
            let job = enqueued redis codec now given in
            let node = node_queue job.node_id job.model in
            let model = queue_key job.model in
            let key = job_key job.id in
            let r₁ = (redis.set key bytes r).1 in
            let r₂ = (push_node redis codec job r₁).1 in
            let after = (enqueue_job redis codec now given r).1 in
            let read : redis.get key after ≡ found bytes = ground (
              arith,
              text_eq_refl key,
              laws.get-set key key bytes r,
              push_node-get job r₁ job.id,
              laws.get-rpush model key job.id r₂ (queue_job_other job.model job.id),
            ) in
            (
              get_job_found job.id bytes after job read
                  (encoding.unmarshal-marshal job bytes encoded),
              ground (
                arith,
                text_eq_refl model,
                laws.items-set key model bytes r (job_key_other job.id job.model),
                push_node-model job r₁,
                laws.items-rpush model model job.id r₂,
              ),
              λ named. ground (
                arith,
                queue_key_other job.node_id job.model,
                laws.items-set key node bytes r (job_node_other job.id job.node_id job.model),
                push_node-node job r₁,
                laws.items-rpush model node job.id r₂,
              ),
            )
      ]

  -- What the worker of a node's queue leaves: its job, as processing, and the id in the model's queue.
  enqueue_job_once :
      (now at : Time) (worker : Text) (job : Job J) (r : R)
      → is_empty (trim_space job.node_id) ≡ false
      → items (queue_key job.model) r ≡ []
      → items (node_queue job.node_id job.model) r ≡ []
      → (enqueue_job redis codec now job r).0 ≡ none
      → let after = (enqueue_job redis codec now job r).1 in
        let (result, final) =
          dequeue_job redis codec (job.node_id ++ (codes ":" ++ job.model)) worker at after in
        (result ≡ ok (some (started redis codec worker at (enqueued redis codec now job))))
        × (items (queue_key job.model) final ≡ job.id ∷ [])
  enqueue_job_once now at worker job r named empty empty' h =
      let after = (enqueue_job redis codec now job r).1 in
      let (stored, queued, placed) = enqueue_job_ok now job r h in
      let node_model = job.node_id ++ (codes ":" ++ job.model) in
      let key : queue_key node_model ≡ node_queue job.node_id job.model =
        unfold queue_key node_queue in refl in
      let front : items (queue_key node_model) after ≡ job.id ∷ [] =
        rw key (ground (arith, placed named, empty')) in
      let (result, left) =
        dequeue_job_next node_model worker job.id job.model at [] (enqueued redis codec now job)
          after front stored in
      (result, ground (arith, left, key, node_queue_other job.node_id job.model, queued, empty))

  -- The job that a worker took is stored as it was handed out, where that can be encoded and SET answers.
  dequeue_job_stored :
      (model worker id bytes : Text) (now : Time) (rest : List Text) (job : Job J) (r : R)
      → items (queue_key model) r ≡ id ∷ rest
      → get_job redis codec id r ≡ ok job
      → codec.marshal (started redis codec worker now job) ≡ ok bytes
      → ((k v : Text) (s : R) → (redis.set k v s).0 ≡ none)
      → get_job redis codec id (dequeue_job redis codec model worker now r).1
        ≡ ok (started redis codec worker now job)
  dequeue_job_stored model worker id bytes now rest job r queued stored encoded answers =
      let next = started redis codec worker now job in
      let key = queue_key model in
      let popped = (redis.blpop key r).1 in
      let first = laws.blpop_first key id rest r queued in
      let read =
        load-get_job id r popped job (laws.get-blpop key (job_key id) r (queue_job_other model id))
          stored in
      let value : marshalled redis codec next ≡ bytes =
        unfold marshalled in ground (arith, encoded) in
      let after : (dequeue_job redis codec model worker now r).1
          ≡ (redis.set (job_key id) (marshalled redis codec next) popped).1 =
        unfold dequeue_job in ground (arith, first, read) in
      rw after (
        get_job_found id bytes _ next
          (ground (
            arith,
            laws.get-set (job_key id) (job_key id) (marshalled redis codec next) popped
                (answers (job_key id) (marshalled redis codec next) popped),
            text_eq_refl (job_key id),
            value,
          ))
          (encoding.unmarshal-marshal next bytes encoded))

  -- On a server that keeps its promises and answers each SET, a job for a node is handed out twice: enqueued on empty
  -- queues and given to a worker of the node's queue, marked as processing, which can be encoded, it is given again to
  -- a worker of the model's queue.
  pub enqueue_job_twice :
      (now at at' : Time) (worker worker' bytes : Text) (job : Job J) (r : R)
      → is_empty (trim_space job.node_id) ≡ false
      → items (queue_key job.model) r ≡ []
      → items (node_queue job.node_id job.model) r ≡ []
      → (enqueue_job redis codec now job r).0 ≡ none
      → codec.marshal (started redis codec worker at (enqueued redis codec now job)) ≡ ok bytes
      → ((k v : Text) (s : R) → (redis.set k v s).0 ≡ none)
      → let after = (enqueue_job redis codec now job r).1 in
        let taken = started redis codec worker at (enqueued redis codec now job) in
        let (first, between) =
          dequeue_job redis codec (job.node_id ++ (codes ":" ++ job.model)) worker at after in
        (first ≡ ok (some taken))
        × ((dequeue_job redis codec job.model worker' at' between).0
            ≡ ok (some (started redis codec worker' at' taken)))
  enqueue_job_twice now at at' worker worker' bytes job r named empty empty' h encoded answers =
      let after = (enqueue_job redis codec now job r).1 in
      let (stored, queued, placed) = enqueue_job_ok now job r h in
      let node_model = job.node_id ++ (codes ":" ++ job.model) in
      let key : queue_key node_model ≡ node_queue job.node_id job.model =
        unfold queue_key node_queue in refl in
      let front : items (queue_key node_model) after ≡ job.id ∷ [] =
        rw key (ground (arith, placed named, empty')) in
      let pending_job = enqueued redis codec now job in
      let between = (dequeue_job redis codec node_model worker at after).1 in
      let (first, left) = enqueue_job_once now at worker job r named empty empty' h in
      let kept =
        dequeue_job_stored node_model worker job.id bytes at [] pending_job after front stored
          encoded answers in
      let taken = started redis codec worker at pending_job in
      (
        first,
        (dequeue_job_next job.model worker' job.id job.model at' [] taken between left kept).0,
      )
