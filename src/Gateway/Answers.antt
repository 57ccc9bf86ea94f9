-- ===== src/Gateway/Answers.antt =====
-- What the gateway answers, by what the orchestrator answers.
use compute_backend.Prelude.{
  ◌≡◌, refl, sym, ◌∙◌, ◌↔◌, Bool, true, none, some, List, [], ◌∷◌, ◌++◌, map, append_assoc,
  append-nil, arith, Result, ok, err, All,
}
use compute_backend.Strings.{Text, codes, text_eq_iff}
use compute_backend.OrchestratorClient.{
  JobDetails, HttpResponse, ClientError, not_found, Codec, get_job, stream_status,
}
use compute_backend.OrchestratorClient.Events.{eof}
use compute_backend.OrchestratorClient.Events.Streams.{
  frames, IsPayload, deliver, read_events-frames,
}
use compute_backend.Gateway.Paths.{response_url}
use compute_backend.Gateway.Handlers.{
  Server, StatusResponse, answer_job, failure, respond, events, job_result, http_not_found,
  status_completed, map_job_to_status, forward, handle_get_response, handle_status_stream,
}

module _ (s : Server) (model id : Text) where
  answer_job_ok :
      (job : JobDetails) (result : Text) (artifacts : List Text)
      → (answer_job s model id job ≡ respond 200 (job_result result artifacts)) ↔ (
          (job.status ≡ status_completed)
          × (job.result ≡ some result)
          × (job.artifacts ≡ artifacts))
  unfolding answer_job
  answer_job_ok job result artifacts = (
    λ h. ground (arith, text_eq_iff job.status status_completed),
    λ h. ground (arith, text_eq_iff job.status status_completed),
  )

  -- A result is answered with code 200 exactly for a completed job that has one, and it is answered as
  -- the orchestrator sent it, with the job's artifacts.
  pub get_response_ok :
      (result : Text) (artifacts : List Text)
      → (handle_get_response s model id ≡ respond 200 (job_result result artifacts)) ↔ (
          (job : JobDetails) × (get_job s.transport s.codec s.base_url id ≡ ok job)
          × (job.status ≡ status_completed)
          × (job.result ≡ some result)
          × (job.artifacts ≡ artifacts))
  unfolding handle_get_response
  get_response_ok result artifacts = (
    λ h. to (get_job s.transport s.codec s.base_url id) refl h,
    λ (job, found, done, has, kept).
        ground (arith, (answer_job_ok job result artifacts).1 (done, has, kept)),
  )
    where
      to :
          (x : Result ClientError JobDetails)
          → get_job s.transport s.codec s.base_url id ≡ x
          → elim x [
            | err not_found ↦ http_not_found
            | err e ↦ respond 502 (failure (codes "response lookup failed: ") e)
            | ok job ↦ answer_job s model id job
          ]
            ≡ respond 200 (job_result result artifacts)
          → (job : JobDetails) × (get_job s.transport s.codec s.base_url id ≡ ok job)
            × (job.status ≡ status_completed)
            × (job.result ≡ some result)
            × (job.artifacts ≡ artifacts)
      to (ok job) e h =
          let (done, has, kept) = (answer_job_ok job result artifacts).0 h in
          (job, e, done, has, kept)
      to (err e) _ h = ground arith

-- Nothing follows, or a payload that does not decode.
abbrev pub Stops : Codec → List Text → Type 0
Stops codec [] = Unit
Stops codec (bad ∷ rest) = codec.unmarshal_job bad ≡ none

abbrev pub always : List StatusResponse → Bool
always written = true

module _ (s : Server) (url : Text) where
  deliver-forward_stop :
      (rest : List Text) (written : List StatusResponse)
      → Stops s.codec rest
      → (deliver (forward s always url) rest written).1 ≡ written
  unfolding forward
  deliver-forward_stop [] written h = refl
  deliver-forward_stop (bad ∷ rest) written h = ground arith

  forward_ok :
      (p : Text) (job : JobDetails) (written : List StatusResponse)
      → s.codec.unmarshal_job p ≡ some job
      → forward s always url p written ≡ (none, written ++ map_job_to_status job url ∷ [])
  unfolding forward
  forward_ok p job written h = ground arith

  deliver-forward :
      (good : List Text) (jobs : List JobDetails) (rest : List Text) (written : List StatusResponse)
      → map s.codec.unmarshal_job good ≡ map (λ job. some job) jobs
      → Stops s.codec rest
      → (deliver (forward s always url) (good ++ rest) written).1
        ≡ written ++ map (λ job. map_job_to_status job url) jobs
  deliver-forward [] [] rest written e stops =
      deliver-forward_stop rest written stops ∙ sym (append-nil written)
  deliver-forward [] (job ∷ jobs) rest written e stops = cc
  deliver-forward (p ∷ good) [] rest written e stops = cc
  deliver-forward (p ∷ good) (job ∷ jobs) rest written e stops =
      let head : s.codec.unmarshal_job p ≡ some job = cc in
      let tail : map s.codec.unmarshal_job good ≡ map (λ job. some job) jobs = cc in
      let seen = map_job_to_status job url in
      ground (
        arith,
        forward_ok p job written head,
        deliver-forward good jobs rest (written ++ seen ∷ []) tail stops,
        append_assoc written (seen ∷ []) (map (λ j. map_job_to_status j url) jobs),
      )

-- A status stream whose connection takes every event: of the events that the orchestrator sends, each
-- with a payload on one line, those that decode are passed on in order as status answers, up to the
-- first that does not decode or to the end.
pub handle_status_stream_lem :
    (s : Server) (model id : Text) (resp : HttpResponse) (good : List Text) (jobs : List JobDetails)
    (rest : List Text)
    → stream_status s.transport s.base_url id ≡ ok resp
    → resp.body ≡ frames (good ++ rest)
    → All IsPayload (good ++ rest)
    → map s.codec.unmarshal_job good ≡ map (λ job. some job) jobs
    → Stops s.codec rest
    → handle_status_stream s true always eof model id
      ≡ respond 200
          (events (map (λ job. map_job_to_status job (response_url s.queue_base model id)) jobs))
unfolding handle_status_stream
handle_status_stream_lem s model id resp good jobs rest answered framed payloads decoded stops =
    let url = response_url s.queue_base model id in
    let delivered = read_events-frames (forward s always url) (good ++ rest) [] payloads in
    ground (arith, delivered, deliver-forward s url good jobs rest [] decoded stops)
