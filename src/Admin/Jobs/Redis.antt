-- ===== src/Admin/Jobs/Redis.antt =====
-- The jobs that cmd/admin-rest/main.go reads from Redis. `strconv.Atoi` and `sort.Slice` are arguments; seconds are points of
-- time not before 1970.
use compute_backend.Prelude.{
  ℕ, ◌&&◌, Option, none, some, List, [], ◌∷◌, ◌++◌, ltb, leb, ◌==◌, if◌then◌else◌, Result, ok, err,
  ℤ, pos, negsuc, Time, take,
}
use compute_backend.Strings.{Text, codes, is_empty}
use compute_backend.Strings.Trim.{trim_space}
use compute_backend.Strings.Fold.{to_upper}
use compute_backend.Sql.{no_rows, failed, message}
use compute_backend.Admin.Jobs.Types.{JobSummary, JobDetail, RedisJobRecord, JobRedis}

-- The limit of a list, from the query's parameter.
unfoldable pub limit_of : (Text → Option ℤ) → Text → ℕ
limit_of atoi parameter =
    let v = trim_space parameter in
    if is_empty v then 100 else elim (atoi v) [
      | none ↦ 100
      | some parsed ↦ elim parsed [
        | pos n ↦ if ltb 0 n && leb n 500 then n else 100
        | negsuc n ↦ 100
      ]
    ]

-- The last time that a record has.
unfoldable pub updated_of : RedisJobRecord → Time
updated_of r =
    let updated = if r.completed_at == 0 then r.started_at else r.completed_at in
    if updated == 0 then r.created_at else updated

unfoldable pub summary_of : RedisJobRecord → JobSummary
unfolding updated_of
summary_of r = record {
  request_id = r.id;
  model_id = r.model;
  status = to_upper r.status;
  created_at = r.created_at;
  worker_id = r.worker_id;
  queue_pos = none;
  updated_at = updated_of r;
}

module _ (redis : JobRedis) where
  -- The loop over the keys; a record that cannot be decoded is left out.
  unfoldable pub summaries : List Text → Result Text (List JobSummary)
  unfolding summary_of
  summaries [] = ok []
  summaries (key ∷ keys) =
      let rest = summaries keys in
      elim (redis.get key) [
        | err e ↦ err (message e)
        | ok blob ↦ elim (redis.decode blob) [
          | err e ↦ rest
          | ok r ↦ elim rest [ err e ↦ err e | ok found ↦ ok (summary_of r ∷ found) ]
        ]
      ]

  unfoldable pub list_jobs_from_redis :
      (List JobSummary → List JobSummary) → ℕ → Result Text (List JobSummary)
  unfolding summaries
  list_jobs_from_redis sort_slice limit =
      let (keys, ended) = redis.scan (codes "job:*") in
      elim (summaries keys) [
        | err e ↦ err e
        | ok found ↦ elim ended [ some e ↦ err e | none ↦ ok (take limit (sort_slice found)) ]
      ]

  -- The loop over the artifacts; one that cannot be encoded is left out.
  unfoldable pub marshalled_items : List Text → List Text
  marshalled_items [] = []
  marshalled_items (item ∷ items) =
      let rest = marshalled_items items in
      elim (redis.marshal_item item) [ err e ↦ rest | ok raw ↦ raw ∷ rest ]

  unfoldable pub artifacts_of : Text → List Text
  unfolding marshalled_items
  artifacts_of result =
      if is_empty result
      then []
      else elim (redis.artifact_items result) [ none ↦ [] | some items ↦ marshalled_items items ]

  unfoldable pub redis_job_detail : Text → Result Text JobDetail
  unfolding updated_of
  redis_job_detail job_id = elim (redis.get (codes "job:" ++ job_id)) [
    | err (no_rows e) ↦ err (codes "job not found")
    | err (failed e) ↦ err e
    | ok blob ↦ elim (redis.decode blob) [
      | err e ↦ err e
      | ok r ↦ ok (record {
        id = r.id;
        model_id = r.model;
        version_id = none;
        node_id =
            if is_empty r.node_id
            then (if is_empty r.worker_id then none else some r.worker_id)
            else some r.node_id;
        status = to_upper r.status;
        queue_position = none;
        payload = elim r.params [ none ↦ [] | some raw ↦ raw ];
        result = r.result;
        logs = r.logs;
        artifacts = artifacts_of r.result;
        created_at = r.created_at;
        updated_at = updated_of r;
        events = [];
      })
    ]
  ]
