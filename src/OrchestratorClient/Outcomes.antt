-- ===== src/OrchestratorClient/Outcomes.antt =====
-- Which answers of the orchestrator make which results of the client's methods.
use compute_backend.Prelude.{
  ◌≡◌, refl, ◌≢◌, ◌↔◌, true, not, none, ◌++◌, arith, ◌==◌, if◌then◌else◌, Result, ok, err,
}
use compute_backend.Strings.{Text, codes}
use compute_backend.OrchestratorClient.{
  HttpRequest, HttpResponse, get, put, ClientError, not_found, decode_failed, Transport, Codec,
  ◌>>=◌, or_error, refusal, get_job, send,
}

module _ (t : Transport) where
  -- An answer comes from a request that was made and sent.
  pub send_ok :
      (r : HttpRequest) (resp : HttpResponse)
      → (send t r ≡ ok resp) ↔ ((t.valid_url r.url ≡ true) × (t.round_trip r ≡ ok resp))
  unfolding send
  send_ok r resp = (λ h. ground arith, λ h. ground arith)

  pub send_ne_not_found : (r : HttpRequest) → send t r ≢ err not_found
  unfolding send
  send_ne_not_found r h = ground arith

module _ (t : Transport) (codec : Codec) (base_url request_id : Text) where
  abbrev pub job_request : HttpRequest
  job_request = record {
    method = get;
    url = base_url ++ (codes "/v1/internal/jobs/" ++ request_id);
    body = none;
  }

  abbrev pub cancel_request : HttpRequest
  cancel_request = record {
    method = put;
    url = base_url ++ (codes "/v1/internal/jobs/" ++ (request_id ++ codes "/cancel"));
    body = none;
  }

  not_found→404 :
      get_job t codec base_url request_id ≡ err not_found
      → (r : HttpResponse) × (send t job_request ≡ ok r) × (r.status_code ≡ 404)
  unfolding get_job
  not_found→404 h = go (send t job_request) refl h
    where
      go :
          (x : Result ClientError HttpResponse)
          → send t job_request ≡ x
          → (x >>= λ resp.
              if resp.status_code == 404
              then err not_found
              else if not (resp.status_code == 200)
              then err (refusal resp)
              else or_error decode_failed (codec.decode_job resp.body))
            ≡ err not_found
          → (r : HttpResponse) × (send t job_request ≡ ok r) × (r.status_code ≡ 404)
      go (err e) p q = absurd (send_ne_not_found t job_request (cc))
      go (ok r) p q = (r, p, ground arith)

  -- `ErrNotFound` is returned exactly when a request was sent and answered by 404.
  pub get_job_not_found : (get_job t codec base_url request_id ≡ err not_found) ↔ (
      (r : HttpResponse) × (t.valid_url job_request.url ≡ true)
      × (t.round_trip job_request ≡ ok r)
      × (r.status_code ≡ 404))
  get_job_not_found = (
    λ h.
        let (r, sent, missing) = not_found→404 h in
        let (valid, answered) = (send_ok t job_request r).0 sent in (r, valid, answered, missing),
    λ (r, valid, answered, missing).
        unfold get_job in ground (arith, (send_ok t job_request r).1 (valid, answered)),
  )
