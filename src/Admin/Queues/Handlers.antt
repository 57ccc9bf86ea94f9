-- ===== src/Admin/Queues/Handlers.antt =====
-- cmd/admin-rest/main.go: the health, the queues and the keys of Redis, which is an interface. A reading of the clock
-- is an argument.
use compute_backend.Prelude.{
  ℕ, Option, none, some, List, [], ◌∷◌, ◌++◌, if◌then◌else◌, Result, ok, err, Time, length, drop,
}
use compute_backend.Strings.{Text, codes, is_empty}
use compute_backend.Admin.Answers.{Answer, answers, refuses}

pub record QueueStats : Type 0 where
  pub model : Text
  pub length : ℕ
  pub timestamp : Time

pub record AllQueues : Type 0 where
  pub queues : List QueueStats
  pub timestamp : Time

pub record Health : Type 0 where
  pub status : Text
  pub redis : Text
  pub orchestrator : Text
  pub timestamp : Time

pub record RedisAdmin (R : Type 0) : Type 0 where
  pub ping : R → Option Text
  pub keys : Text → R → Result Text (List Text)
  pub llen : Text → R → Result Text ℕ
  pub info : R → Result Text Text
  pub del : List Text → R → Result Text ℕ × R
  pub flush_all : R → Option Text × R

module _ {R : Type 0} (redis : RedisAdmin R) where
  unfoldable pub handle_health : Time → R → Answer Health
  handle_health now r = elim (redis.ping r) [
    | none ↦ answers 200 (record {
      status = codes "ok";
      redis = codes "ok";
      orchestrator = codes "ok";
      timestamp = now;
    })
    | some e ↦ answers 503 (record {
      status = codes "degraded";
      redis = codes "error: " ++ e;
      orchestrator = codes "ok";
      timestamp = now;
    })
  ]

  -- The loop over the keys, each behind its "queue:"; one whose length is not answered is left out.
  unfoldable pub queue_stats : Time → List Text → R → List QueueStats
  queue_stats now [] r = []
  queue_stats now (key ∷ keys) r =
      let rest = queue_stats now keys r in
      elim (redis.llen key r) [
        | err e ↦ rest
        | ok n ↦ record { model = drop 6 key; length = n; timestamp = now } ∷ rest
      ]

  unfoldable pub handle_list_queues : Time → R → Answer AllQueues
  unfolding queue_stats
  handle_list_queues now r = elim (redis.keys (codes "queue:*") r) [
    | err e ↦ refuses 500 (codes "failed to list queues: " ++ e)
    | ok keys ↦ answers 200 (record { queues = queue_stats now keys r; timestamp = now })
  ]

  unfoldable pub handle_get_queue_stats : Text → Time → R → Answer QueueStats
  handle_get_queue_stats model now r = elim (redis.llen (codes "queue:" ++ model) r) [
    | err e ↦ refuses 500 (codes "failed to get queue length: " ++ e)
    | ok n ↦ answers 200 (record { model = model; length = n; timestamp = now })
  ]

  -- The answer is the number of keys that were deleted.
  unfoldable pub handle_clear_queue : Text → R → Answer ℕ × R
  handle_clear_queue model r =
      let (deleted, after) = redis.del ((codes "queue:" ++ model) ∷ []) r in
      (
        elim deleted [
          | err e ↦ refuses 500 (codes "failed to clear queue: " ++ e)
          | ok n ↦ answers 200 n
        ],
        after,
      )

  unfoldable pub handle_list_redis_keys : Text → R → Answer (List Text)
  handle_list_redis_keys pattern r =
      elim (redis.keys (if is_empty pattern then codes "*" else pattern) r) [
        | err e ↦ refuses 500 (codes "failed to list keys: " ++ e)
        | ok keys ↦ answers 200 keys
      ]

  unfoldable pub handle_flush_redis : R → Answer Text × R
  handle_flush_redis r =
      let (failure, after) = redis.flush_all r in
      (
        elim failure [
          | some e ↦ refuses 500 (codes "failed to flush Redis: " ++ e)
          | none ↦ answers 200 (codes "Redis flushed successfully")
        ],
        after,
      )

  unfoldable pub handle_redis_info : R → Answer Text
  handle_redis_info r = elim (redis.info r) [
    | err e ↦ refuses 500 (codes "failed to get Redis info: " ++ e)
    | ok info ↦ answers 200 info
  ]

  -- An error of `Keys` is dropped, and leaves no keys.
  abbrev pub keys_or_none : Result Text (List Text) → List Text
  keys_or_none (err e) = []
  keys_or_none (ok keys) = keys

  abbrev pub keys_to_wipe : R → List Text
  keys_to_wipe r =
      keys_or_none (redis.keys (codes "queue:*") r) ++ keys_or_none (redis.keys (codes "job:*") r)

  -- `Del` is called where there are keys, and its error is dropped. The answer is the number of the keys.
  unfoldable pub handle_wipe_all : R → Answer ℕ × R
  handle_wipe_all r =
      let all_keys = keys_to_wipe r in
      (
        answers 200 (length all_keys),
        elim all_keys [ [] ↦ r | key ∷ keys ↦ (redis.del (key ∷ keys) r).1 ],
      )
