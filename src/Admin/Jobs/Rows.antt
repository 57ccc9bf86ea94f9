-- ===== src/Admin/Jobs/Rows.antt =====
-- The jobs that cmd/admin-rest/main.go reads from Postgres, and the schema that it applies first.
use compute_backend.Prelude.{
  ℕ, Option, none, some, List, [], ◌∷◌, ◌++◌, if◌then◌else◌, Result, ok, err, pos, length,
}
use compute_backend.Strings.{Text, codes, is_empty}
use compute_backend.Strings.Trim.{trim_space}
use compute_backend.Strings.Split.{split}
use compute_backend.Sql.{text, int, no_rows, failed}
use compute_backend.Admin.Answers.{Answer, answers, refuses}
use compute_backend.Admin.Jobs.Types.{
  JobSummary, JobsResponse, JobEvent, JobDetail, JobColumns, DetailColumns, EventColumns,
  JobDatabase,
}

-- A row of the list. `none` in a column of a number or a node leaves the field out.
unfoldable pub summary_of_row : JobColumns → JobSummary
summary_of_row c = record {
  request_id = c.id;
  model_id = c.model_id;
  status = c.status;
  created_at = c.created_at;
  worker_id = elim c.node_id [ none ↦ [] | some t ↦ t ];
  queue_pos = c.queue_position;
  updated_at = c.updated_at;
}

-- The loop over the rows; a row that cannot be scanned is left out.
unfoldable pub summaries_of_rows : List (Result Text JobColumns) → List JobSummary
unfolding summary_of_row
summaries_of_rows [] = []
summaries_of_rows (err e ∷ rows) = summaries_of_rows rows
summaries_of_rows (ok c ∷ rows) = summary_of_row c ∷ summaries_of_rows rows

abbrev pub jobs_answer : List JobSummary → Answer JobsResponse
jobs_answer jobs = answers 200 (record { jobs = jobs; total = length jobs })

module _ {D : Type 0} (db : JobDatabase D) where
  -- The loop over the statements of the schema.
  unfoldable pub exec_all : List Text → D → Option Text × D
  exec_all [] d = (none, d)
  exec_all (stmt ∷ stmts) d =
      let trimmed = trim_space stmt in
      if is_empty trimmed then exec_all stmts d else elim (db.exec trimmed [] d).0 [
        | err e ↦ (some e, (db.exec trimmed [] d).1)
        | ok rows ↦ exec_all stmts (db.exec trimmed [] d).1
      ]

  unfoldable pub ensure_job_store : Text → D → Option Text × D
  unfolding exec_all
  ensure_job_store job_store_schema d = exec_all (split job_store_schema b';') d

  unfoldable pub list_jobs_from_rows : ℕ → D → Answer JobsResponse
  unfolding summaries_of_rows
  list_jobs_from_rows limit d =
      elim (db.query_jobs
        (codes
            "\n\t\tSELECT id, model_id, version_id, node_id, status, queue_position, created_at, updated_at\n"
          ++ codes "\t\tFROM jobs\n"
          ++ codes "\t\tORDER BY created_at DESC\n"
          ++ codes "\t\tLIMIT $1\n\t")
        (int (pos limit) ∷ []) d) [
          | err e ↦ refuses 500 (codes "query jobs: " ++ e)
          | ok (rows, ended) ↦ elim ended [
            | some e ↦ refuses 500 (codes "iterate jobs: " ++ e)
            | none ↦ jobs_answer (summaries_of_rows rows)
          ]
        ]

  -- The loop over the rows of the events.
  unfoldable pub events_of_rows : List (Result Text EventColumns) → Result Text (List JobEvent)
  events_of_rows [] = ok []
  events_of_rows (err e ∷ rows) = err e
  events_of_rows (ok c ∷ rows) =
      let rest = events_of_rows rows in
      elim rest [
        | err e ↦ err e
        | ok events ↦
            ok (
              record { status = c.status; message = c.message; created_at = c.created_at } ∷ events)
      ]

  -- A column of JSON that may be empty.
  abbrev pub decoded_or : (Text → Result Text (List Text)) → Text → Result Text (List Text)
  decoded_or decode raw = if is_empty raw then ok [] else decode raw

  unfoldable pub job_detail : DetailColumns → List Text → List Text → List JobEvent → JobDetail
  job_detail c logs artifacts events = record {
    id = c.job.id;
    model_id = c.job.model_id;
    version_id = c.job.version_id;
    node_id = c.job.node_id;
    status = c.job.status;
    queue_position = c.job.queue_position;
    payload = c.payload;
    result = c.result;
    logs = logs;
    artifacts = artifacts;
    created_at = c.job.created_at;
    updated_at = c.job.updated_at;
    events = events;
  }

  -- The events of a job, behind its detail.
  unfoldable pub with_events : DetailColumns → List Text → List Text → Text → D → Answer JobDetail
  unfolding events_of_rows job_detail
  with_events c logs artifacts job_id d =
      elim (db.query_events
        (codes "\n\t\tSELECT status, message, created_at\n"
          ++ codes "\t\tFROM job_events\n"
          ++ codes "\t\tWHERE job_id = $1\n"
          ++ codes "\t\tORDER BY created_at ASC\n\t")
        (text job_id ∷ []) d) [
          | err e ↦ refuses 500 (codes "query job events: " ++ e)
          | ok (rows, ended) ↦ elim (events_of_rows rows) [
            | err e ↦ refuses 500 (codes "scan job event: " ++ e)
            | ok events ↦ elim ended [
              | some e ↦ refuses 500 (codes "iterate job events: " ++ e)
              | none ↦ answers 200 (job_detail c logs artifacts events)
            ]
          ]
        ]

  unfoldable pub get_job_from_rows : Text → D → Answer JobDetail
  unfolding with_events
  get_job_from_rows job_id d =
      elim (db.query_job
        (codes
            "\n\t\tSELECT id, model_id, version_id, node_id, status, queue_position, payload, result, logs, artifacts, created_at, updated_at\n"
          ++ codes "\t\tFROM jobs\n"
          ++ codes "\t\tWHERE id = $1\n\t")
        (text job_id ∷ []) d) [
          | err (no_rows e) ↦ refuses 404 (codes "job not found")
          | err (failed e) ↦ refuses 500 (codes "query job: " ++ e)
          | ok c ↦ elim (decoded_or db.decode_logs c.logs) [
            | err e ↦ refuses 500 (codes "decode logs: " ++ e)
            | ok logs ↦ elim (decoded_or db.decode_artifacts c.artifacts) [
              | err e ↦ refuses 500 (codes "decode artifacts: " ++ e)
              | ok artifacts ↦ with_events c logs artifacts job_id d
            ]
          ]
        ]
