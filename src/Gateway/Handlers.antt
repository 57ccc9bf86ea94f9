-- ===== src/Gateway/Handlers.antt =====
-- The handlers of cmd/gateway/main.go and `mapJobToStatus`, over the types of
-- pkg/falcompat/types.go.
use compute_backend.Prelude.{
  ℕ, Bool, true, false, not, ◌||◌, Option, none, some, List, [], ◌∷◌, ◌++◌, if◌then◌else◌, ok, err,
  ℤ,
}
use compute_backend.Strings.{Text, codes, slash, text_eq, is_empty}
use compute_backend.Strings.Affix.{trim_prefix}
use compute_backend.Strings.Trim.{trim_space, trim}
use compute_backend.Strings.Fold.{equal_fold}
use compute_backend.OrchestratorClient.{
  Method, get, post, put, JobDetails, CancelResponse, ClientError, not_found, Transport, Codec,
  submit_job, get_job, cancel_job, invoke_sync, stream_status, new_client,
}
use compute_backend.OrchestratorClient.Events.{End, read_events}
use compute_backend.Gateway.Paths.{split_request_path, response_url, queue_base}

-- pkg/falcompat: the statuses shared with fal.ai. A status is a text that need not be one of these.
abbrev pub status_in_queue : Text
status_in_queue = codes "IN_QUEUE"

abbrev pub status_in_progress : Text
status_in_progress = codes "IN_PROGRESS"

abbrev pub status_completed : Text
status_completed = codes "COMPLETED"

abbrev pub status_error : Text
status_error = codes "ERROR"

pub record SubmissionEnvelope : Type 0 where
  pub request_id : Text
  pub response_url : Text
  pub status_url : Text
  pub cancel_url : Text

pub record StatusResponse : Type 0 where
  pub status : Text
  pub queue_position : Option ℤ
  pub response_url : Text
  pub logs : List Text
  pub artifacts : List Text

-- What a handler writes: a fixed text, a client's error behind a fixed text, or a JSON document.
pub data Body : Type 0 where
  page_not_found : Body
  message : Text → Body
  failure : Text → ClientError → Body
  raw : Text → Body
  envelope : SubmissionEnvelope → Body
  job_status : StatusResponse → Body
  job_result : Text → List Text → Body
  cancellation : CancelResponse → Body
  events : List StatusResponse → Body

pub record Response : Type 0 where
  pub code : ℕ
  pub body : Body

-- What the handlers read of a request; `body` is `none` where it cannot be read.
pub record Request : Type 0 where
  pub method : Method
  pub path : Text
  pub body : Option Text
  pub store_io : Text
  pub fal_webhook : Text

pub record Server : Type 0 where
  pub queue_base : Text
  pub base_url : Text
  pub transport : Transport
  pub codec : Codec

abbrev pub respond : ℕ → Body → Response
respond code body = record { code = code; body = body }

abbrev pub http_not_found : Response
http_not_found = respond 404 page_not_found

abbrev pub is_method : Method → Method → Bool
is_method get get = true
is_method post post = true
is_method put put = true
is_method Method.delete Method.delete = true
is_method Method.options Method.options = true
is_method _ _ = false

unfoldable pub map_job_to_status : JobDetails → Text → StatusResponse
map_job_to_status job url = record {
  status = job.status;
  queue_position = if text_eq job.status status_in_queue then job.queue_position else none;
  response_url = url;
  logs = job.logs;
  artifacts = job.artifacts;
}

-- Why the stream of `handleStatusStream` ends early.
pub data StreamError : Type 0 where
  decode_payload write_event read_error : StreamError

module _ (s : Server) where
  unfoldable pub handle_sync_invoke : Request → Response
  handle_sync_invoke r =
      let model_path = trim_prefix (trim r.path (slash ∷ [])) (codes "sync/") in
      if is_empty model_path then http_not_found else elim r.body [
        | none ↦ respond 400 (message (codes "failed to read body"))
        | some payload ↦
            elim (invoke_sync s.transport s.codec s.base_url
              (record { model_id = model_path; payload = payload })) [
                | err e ↦ respond 502 (failure (codes "sync invoke failed: ") e)
                | ok resp ↦ elim resp.result [
                  | none ↦ respond 200 (raw (codes "{}"))
                  | some result ↦ respond 200 (raw result)
                ]
              ]
      ]

  unfoldable pub handle_queue_submission : Request → Response
  handle_queue_submission r =
      let model_path = trim r.path (slash ∷ []) in
      if not (is_method r.method post)
      then respond 405 (message (codes "method not allowed"))
      else if is_empty model_path
      then http_not_found
      else elim r.body [
        | none ↦ respond 400 (message (codes "failed to read body"))
        | some payload ↦
            elim (submit_job s.transport s.codec s.base_url (record {
              model_id = model_path;
              version_id = none;
              payload = payload;
              store_io = not (equal_fold r.store_io (codes "0"));
              fal_webhook =
                  if is_empty (trim_space r.fal_webhook) then none else some r.fal_webhook;
            })) [
              | err e ↦ respond 502 (failure (codes "queue submit failed: ") e)
              | ok resp ↦
                  let url = response_url s.queue_base model_path resp.request_id in
                  respond 201 (
                    envelope (record {
                      request_id = resp.request_id;
                      response_url = url;
                      status_url = url ++ codes "/status";
                      cancel_url = url ++ codes "/cancel";
                    }))
            ]
      ]

  unfoldable pub handle_status : Text → Text → Response
  handle_status model_path request_id = elim (get_job s.transport s.codec s.base_url request_id) [
    | err not_found ↦ http_not_found
    | err e ↦ respond 502 (failure (codes "status lookup failed: ") e)
    | ok job ↦
        respond 200
          (job_status (map_job_to_status job (response_url s.queue_base model_path request_id)))
  ]

  -- The `switch` of `handleGetResponse` on the status of the job.
  unfoldable pub answer_job : Text → Text → JobDetails → Response
  answer_job model_path request_id job =
      if text_eq job.status status_completed
      then elim job.result [
        | none ↦ respond 500 (message (codes "missing result payload"))
        | some result ↦ respond 200 (job_result result job.artifacts)
      ]
      else if text_eq job.status status_in_queue || text_eq job.status status_in_progress
      then respond 202
          (job_status (map_job_to_status job (response_url s.queue_base model_path request_id)))
      else if text_eq job.status status_error
      then respond 502 (message (codes "job failed"))
      else respond 400 (message (codes "job not ready"))

  unfoldable pub handle_get_response : Text → Text → Response
  handle_get_response model_path request_id =
      elim (get_job s.transport s.codec s.base_url request_id) [
        | err not_found ↦ http_not_found
        | err e ↦ respond 502 (failure (codes "response lookup failed: ") e)
        | ok job ↦ answer_job model_path request_id job
      ]

  -- The callback of the stream: the state is what has been written, and `writable` says whether the
  -- connection takes one more event behind these.
  unfoldable pub forward :
      (List StatusResponse → Bool)
      → Text
      → Text
      → List StatusResponse
      → Option StreamError × List StatusResponse
  forward writable url payload written = elim (s.codec.unmarshal_job payload) [
    | none ↦ (some decode_payload, written)
    | some job ↦
        if writable written
        then (none, written ++ map_job_to_status job url ∷ [])
        else (some write_event, written)
  ]

  -- `flushable` says whether the connection can stream, `end` how the orchestrator's stream ends. An
  -- error of the stream is logged: what was written stays written.
  unfoldable pub handle_status_stream :
      Bool → (List StatusResponse → Bool) → End StreamError → Text → Text → Response
  handle_status_stream flushable writable end model_path request_id =
      elim (stream_status s.transport s.base_url request_id) [
        | err e ↦ respond 502 (failure (codes "status stream failed: ") e)
        | ok resp ↦
            if not flushable
            then respond 500 (message (codes "streaming unsupported"))
            else respond 200 (
                events
                  (read_events (forward writable (response_url s.queue_base model_path request_id))
                    resp.body end []).1)
      ]

  unfoldable pub handle_get_requests :
      Bool → (List StatusResponse → Bool) → End StreamError → Request → Response
  handle_get_requests flushable writable end r =
      elim (split_request_path (trim r.path (slash ∷ []))) [
        | none ↦ http_not_found
        | some p ↦
            if is_empty p.suffix
            then handle_get_response p.model_path p.request_id
            else if text_eq p.suffix (codes "status")
            then handle_status p.model_path p.request_id
            else if text_eq p.suffix (codes "status/stream")
            then handle_status_stream flushable writable end p.model_path p.request_id
            else http_not_found
      ]

  unfoldable pub handle_mutations : Request → Response
  handle_mutations r =
      if not (is_method r.method put)
      then respond 405 (message (codes "method not allowed"))
      else elim (split_request_path (trim r.path (slash ∷ []))) [
        | none ↦ http_not_found
        | some p ↦
            if not (text_eq p.suffix (codes "cancel"))
            then http_not_found
            else elim (cancel_job s.transport s.codec s.base_url p.request_id) [
              | err not_found ↦ http_not_found
              | err e ↦ respond 502 (failure (codes "cancel failed: ") e)
              | ok resp ↦
                  if text_eq resp.status (codes "CANCELLATION_REQUESTED")
                  then respond 202 (cancellation resp)
                  else respond 400 (cancellation resp)
            ]
      ]

-- `newServer`.
unfoldable pub new_server : Text → Text → Transport → Codec → Server
new_server queue_base_url orchestrator_url transport codec = record {
  queue_base = queue_base queue_base_url;
  base_url = new_client orchestrator_url;
  transport = transport;
  codec = codec;
}
