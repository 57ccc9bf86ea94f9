-- ===== src/Admin/Jobs/Handlers.antt =====
-- The handlers for jobs in cmd/admin-rest/main.go: Postgres where it is configured, else Redis.
use compute_backend.Prelude.{
  ℕ, zero, suc, Option, none, some, List, [], ◌∷◌, ◌++◌, Result, ok, err, ℤ,
}
use compute_backend.Strings.{Text, codes}
use compute_backend.Sql.{text}
use compute_backend.Admin.Answers.{Answer, answers, refuses}
use compute_backend.Admin.Jobs.Types.{JobSummary, JobsResponse, JobDetail, JobRedis, JobDatabase}
use compute_backend.Admin.Jobs.Redis.{limit_of, list_jobs_from_redis, redis_job_detail}
use compute_backend.Admin.Jobs.Rows.{
  jobs_answer, ensure_job_store, list_jobs_from_rows, get_job_from_rows,
}

-- The number of rows that a DELETE affects.
unfoldable pub deletion : Text → Text → Result Text (Result Text ℕ) → Answer ℕ
deletion failure inspection (err e) = refuses 500 (failure ++ e)
deletion failure inspection (ok (err e)) = refuses 500 (inspection ++ e)
deletion failure inspection (ok (ok n)) = answers 200 n

abbrev pub zero_is_missing : Answer ℕ → Answer ℕ
zero_is_missing (answers code zero) = refuses 404 (codes "job not found")
zero_is_missing (answers code (suc n)) = answers code (suc n)
zero_is_missing (refuses code e) = refuses code e

-- The handlers. The job database may be missing; where it is there, its schema is applied first.
module _ {D : Type 0} (redis : JobRedis) (job_db : Option (JobDatabase D))
    (job_store_schema : Text) where
  abbrev pub when_ready : {P : Type 0} → JobDatabase D → D → (D → Answer P × D) → Answer P × D
  when_ready db d next = elim (ensure_job_store db job_store_schema d).0 [
    | some e ↦
        (refuses 500 (codes "ensure job store: " ++ e), (ensure_job_store db job_store_schema d).1)
    | none ↦ next (ensure_job_store db job_store_schema d).1
  ]

  unfoldable pub handle_list_jobs :
      (Text → Option ℤ) → (List JobSummary → List JobSummary) → Text → D → Answer JobsResponse × D
  unfolding list_jobs_from_redis
  handle_list_jobs atoi sort_slice parameter d =
      let limit = limit_of atoi parameter in
      elim job_db [
        | none ↦ elim (list_jobs_from_redis redis sort_slice limit) [
          | err e ↦ (refuses 500 (codes "redis jobs: " ++ e), d)
          | ok jobs ↦ (jobs_answer jobs, d)
        ]
        | some db ↦ when_ready db d (λ t. (list_jobs_from_rows db limit t, t))
      ]

  unfoldable pub handle_get_job : Text → D → Answer JobDetail × D
  unfolding redis_job_detail get_job_from_rows
  handle_get_job job_id d = elim job_db [
    | none ↦ elim (redis_job_detail redis job_id) [
      | err e ↦ (refuses 404 (codes "job not found"), d)
      | ok detail ↦ (answers 200 detail, d)
    ]
    | some db ↦ when_ready db d (λ t. (get_job_from_rows db job_id t, t))
  ]

  unfoldable pub handle_delete_job : Text → D → Answer ℕ × D
  unfolding deletion
  handle_delete_job job_id d = elim job_db [
    | none ↦ (refuses 503 (codes "job store not configured"), d)
    | some db ↦ when_ready db d (λ t.
        let (rows, after) = db.exec (codes "DELETE FROM jobs WHERE id = $1") (text job_id ∷ []) t in
        (
          zero_is_missing (deletion (codes "delete job: ") (codes "inspect delete result: ") rows),
          after,
        ))
  ]

  unfoldable pub handle_clear_all_jobs : D → Answer ℕ × D
  unfolding deletion
  handle_clear_all_jobs d = elim job_db [
    | none ↦ (refuses 503 (codes "job store not configured"), d)
    | some db ↦ when_ready db d (λ t.
        let (rows, after) = db.exec (codes "DELETE FROM jobs") [] t in
        (deletion (codes "clear jobs: ") (codes "inspect clear result: ") rows, after))
  ]
