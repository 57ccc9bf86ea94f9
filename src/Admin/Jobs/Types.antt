-- ===== src/Admin/Jobs/Types.antt =====
-- The jobs of cmd/admin-rest/main.go: what is answered, the records of Redis and the rows of Postgres.
use compute_backend.Prelude.{ℕ, Option, List, Result, ℤ, Time}
use compute_backend.Strings.{Text}
use compute_backend.Sql.{Value, Error}

pub record JobSummary : Type 0 where
  pub request_id : Text
  pub model_id : Text
  pub status : Text
  pub created_at : Time
  pub worker_id : Text
  pub queue_pos : Option ℤ
  pub updated_at : Time

pub record JobsResponse : Type 0 where
  pub jobs : List JobSummary
  pub total : ℕ

pub record JobEvent : Type 0 where
  pub status : Text
  pub message : Option Text
  pub created_at : Time

-- Raw JSON is its text, none is the empty text.
pub record JobDetail : Type 0 where
  pub id : Text
  pub model_id : Text
  pub version_id : Option Text
  pub node_id : Option Text
  pub status : Text
  pub queue_position : Option ℤ
  pub payload : Text
  pub result : Text
  pub logs : List Text
  pub artifacts : List Text
  pub created_at : Time
  pub updated_at : Time
  pub events : List JobEvent

-- `params` is the text of its JSON where it has a key; `result` is raw.
pub record RedisJobRecord : Type 0 where
  pub id : Text
  pub model : Text
  pub status : Text
  pub params : Option Text
  pub worker_id : Text
  pub node_id : Text
  pub created_at : Time
  pub started_at : Time
  pub completed_at : Time
  pub result : Text
  pub error : Text
  pub logs : List Text
  pub backend_mode : Text
  pub backend_reason : Text

-- `Scan` gives the keys and the error that ends the iteration; `Get` an error, which is `redis.Nil` for a
-- missing key. `artifact_items` are the values under "artifacts" of a result, where that is a list.
pub record JobRedis : Type 0 where
  pub scan : Text → List Text × Option Text
  pub get : Text → Result Error Text
  pub decode : Text → Result Text RedisJobRecord
  pub artifact_items : Text → Option (List Text)
  pub marshal_item : Text → Result Text Text

pub record JobColumns : Type 0 where
  pub id : Text
  pub model_id : Text
  pub version_id : Option Text
  pub node_id : Option Text
  pub status : Text
  pub queue_position : Option ℤ
  pub created_at : Time
  pub updated_at : Time

pub record DetailColumns : Type 0 where
  pub job : JobColumns
  pub payload : Text
  pub result : Text
  pub logs : Text
  pub artifacts : Text

pub record EventColumns : Type 0 where
  pub status : Text
  pub message : Option Text
  pub created_at : Time

-- The job store: its schema, and its queries with what each `Scan` answers and the error of `rows.Err`.
pub record JobDatabase (D : Type 0) : Type 0 where
  pub exec : Text → List Value → D → Result Text (Result Text ℕ) × D
  pub query_jobs : Text → List Value → D → Result Text (List (Result Text JobColumns) × Option Text)
  pub query_job : Text → List Value → D → Result Error DetailColumns
  pub query_events :
      Text → List Value → D → Result Text (List (Result Text EventColumns) × Option Text)
  pub decode_logs : Text → Result Text (List Text)
  pub decode_artifacts : Text → Result Text (List Text)
