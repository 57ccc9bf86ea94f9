-- ===== src/Queue/Tests.antt =====
-- The queue on a server in memory.
use compute_backend.Prelude.{◌≡◌, refl, none, some, [], ok}
use compute_backend.Strings.{codes, text_eq}
use compute_backend.Strings.Trim.{trim_space}
use compute_backend.Maps.{lookup, insert}
use compute_backend.Queue.{
  failed, Job, job_key, queue_key, node_queue, push_node, enqueued, enqueue_job, started,
  dequeue_job, get_job, completed, complete_job, fail_job,
}
use compute_backend.Queue.Delivery.{enqueue_job_twice}
use compute_backend.Queue.Finish.{complete_job_lem}
use compute_backend.Queue.Memory.{Memory, items_at, answer_at, push_at, memory, memory_laws}
use compute_backend.Queue.Encoding.{Json, encode_text, codec, codec_laws}

abbrev job : Job Json
job = record {
  id = codes "7";
  model = codes "qwen";
  status = failed;
  params = tt;
  worker_id = [];
  node_id = codes "n1";
  created_at = 0;
  started_at = 0;
  completed_at = 0;
  result = none;
  error = [];
}

abbrev empty : Memory
empty = []

abbrev waiting : Memory
waiting = (enqueue_job memory codec 9 job empty).1

enqueue_job_twice_example :
    ((dequeue_job memory codec (codes "n1:qwen") (codes "w") 12 waiting).0
      ≡ ok (some (started memory codec (codes "w") 12 (enqueued memory codec 9 job))))
    × ((dequeue_job memory codec
          (codes "qwen")
          (codes "v")
          13
          (dequeue_job memory codec (codes "n1:qwen") (codes "w") 12 waiting).1).0
        ≡ ok (
            some (
              started memory codec
                (codes "v")
                13
                (started memory codec (codes "w") 12 (enqueued memory codec 9 job)))))
unfolding enqueue_job push_node trim_space items_at lookup push_at insert text_eq job_key node_queue
    queue_key
enqueue_job_twice_example =
    enqueue_job_twice memory items_at memory_laws codec codec_laws 9 12 13 (codes "w") (codes "v") _
      job empty refl refl refl refl refl (λ k v s. refl)

complete_job_lem_example :
    ((complete_job memory codec (codes "7") tt 20 waiting).0 ≡ none
      → let after = (complete_job memory codec (codes "7") tt 20 waiting).1 in
        (get_job memory codec (codes "7") after
          ≡ ok (record (enqueued memory codec 9 job) {
            status = completed;
            completed_at = 20;
            result = some tt;
          }))
        × (items_at (queue_key (codes "qwen")) after ≡ items_at (queue_key (codes "qwen")) waiting))
    × ((fail_job memory codec (codes "7") (codes "oom") 20 waiting).0 ≡ none
        → let after = (fail_job memory codec (codes "7") (codes "oom") 20 waiting).1 in
          (get_job memory codec (codes "7") after
            ≡ ok (record (enqueued memory codec 9 job) {
              status = failed;
              completed_at = 20;
              error = codes "oom";
            }))
          × (items_at (queue_key (codes "qwen")) after
              ≡ items_at (queue_key (codes "qwen")) waiting))
unfolding enqueue_job push_node trim_space items_at queue_key node_queue get_job answer_at job_key
    insert lookup text_eq encode_text push_at
complete_job_lem_example =
    complete_job_lem memory items_at memory_laws codec codec_laws (codes "7") (codes "qwen")
      (codes "oom") _ _ tt 20 (enqueued memory codec 9 job) waiting refl refl refl
