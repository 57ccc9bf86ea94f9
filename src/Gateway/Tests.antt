-- ===== src/Gateway/Tests.antt =====
-- The gateway at concrete requests and answers.
use compute_backend.Prelude.{
  ℕ, ◌≡◌, refl, ◌↔◌, true, none, some, [], ◌∷◌, ◌++◌, arith, if◌then◌else◌, ok, pos, All,
}
use compute_backend.Strings.{Text, codes, slash, is_empty}
use compute_backend.Strings.Affix.{contains}
use compute_backend.Strings.Trim.{trim_space, trim}
use compute_backend.Strings.Fold.{equal_fold}
use compute_backend.OrchestratorClient.{post, JobDetails, Codec, get_job, submit_job, stream_status}
use compute_backend.OrchestratorClient.Events.{eof}
use compute_backend.OrchestratorClient.Events.Streams.{frames, IsPayload}
use compute_backend.Gateway.Paths.{response_url}
use compute_backend.Gateway.Handlers.{
  Request, Server, SubmissionEnvelope, respond, envelope, events, job_result, status_completed,
  map_job_to_status, handle_queue_submission, handle_get_response, handle_status_stream,
}
use compute_backend.Gateway.Polling.{polling, base_of, routed, parsed}
use compute_backend.Gateway.Answers.{get_response_ok, always, handle_status_stream_lem}

abbrev finished : JobDetails
finished = record {
  request_id = codes "7";
  model_id = codes "qwen/image";
  version_id = none;
  node_id = none;
  status = codes "COMPLETED";
  queue_position = some (pos 3);
  logs = [];
  result = some (codes "{}");
  artifacts = [];
}

abbrev codec : Codec
codec = record {
  marshal_submit = λ r. some r.payload;
  decode_submit = λ t. some (record { request_id = t });
  decode_job = λ t. some finished;
  unmarshal_job = λ t. if is_empty t then none else some finished;
  decode_cancel = λ t. none;
  marshal_sync = λ r. some r.payload;
  decode_sync = λ t. none;
}

abbrev answering : ℕ → Text → Server
answering code body = record {
  queue_base = codes "https://q/";
  base_url = codes "http://o";
  transport = record {
    valid_url = λ u. true;
    round_trip = λ r. ok (record { status_code = code; body = body });
  };
  codec = codec;
}

abbrev submission : Request
submission = record {
  method = post;
  path = codes "/qwen/image/";
  body = some (codes "{}");
  store_io = [];
  fal_webhook = [];
}

abbrev handed_out : SubmissionEnvelope
handed_out = record {
  request_id = codes "7";
  response_url = codes "https://q/qwen/image/requests/7";
  status_url = codes "https://q/qwen/image/requests/7/status";
  cancel_url = codes "https://q/qwen/image/requests/7/cancel";
}

submits :
    handle_queue_submission (answering 201 (codes "7")) submission
    ≡ respond 201 (envelope handed_out)
unfolding handle_queue_submission trim equal_fold trim_space submit_job response_url
submits = refl

polling_example :
    (response status cancel : Text) × (handed_out.response_url
      ≡ base_of (answering 201 (codes "7")) ++ response)
    × (handed_out.status_url ≡ base_of (answering 201 (codes "7")) ++ status)
    × (handed_out.cancel_url ≡ base_of (answering 201 (codes "7")) ++ cancel)
    × (routed response ≡ parsed (trim (codes "/qwen/image/") (slash ∷ [])) (codes "7") [])
    × (routed status
        ≡ parsed (trim (codes "/qwen/image/") (slash ∷ [])) (codes "7") (codes "status"))
    × (routed cancel
        ≡ parsed (trim (codes "/qwen/image/") (slash ∷ [])) (codes "7") (codes "cancel"))
unfolding contains trim
polling_example =
    polling (answering 201 (codes "7")) submission handed_out submits refl (omega arith) cc

get_response_ok_example :
    (handle_get_response (answering 200 []) (codes "m") (codes "7")
      ≡ respond 200 (job_result (codes "{}") []))
    ↔ ((job : JobDetails) × (get_job
            (answering 200 []).transport
            codec
            (codes "http://o")
            (codes "7")
          ≡ ok job)
        × (job.status ≡ status_completed)
        × (job.result ≡ some (codes "{}"))
        × (job.artifacts ≡ []))
get_response_ok_example = get_response_ok (answering 200 []) (codes "m") (codes "7") (codes "{}") []

one-IsPayload : All IsPayload (codes "x" ∷ [])
unfolding trim_space
one-IsPayload = (record { one_line = (refl, tt); trimmed = refl; nonempty = cc }, tt)

abbrev streaming : Server
streaming = answering 200 (frames (codes "x" ∷ []))

streams :
    stream_status streaming.transport streaming.base_url (codes "7")
    ≡ ok (record { status_code = 200; body = frames (codes "x" ∷ []) })
unfolding stream_status
streams = refl

handle_status_stream_lem_example :
    handle_status_stream streaming true always eof (codes "m") (codes "7")
    ≡ respond 200 (
        events (
          map_job_to_status finished (response_url streaming.queue_base (codes "m") (codes "7"))
          ∷ []))
handle_status_stream_lem_example =
    handle_status_stream_lem streaming (codes "m") (codes "7")
      (record { status_code = 200; body = frames (codes "x" ∷ []) }) (codes "x" ∷ [])
      (finished ∷ []) [] streams refl one-IsPayload refl tt
