-- ===== src/OrchestratorClient.antt =====
-- pkg/orchestrator/client.go: the HTTP client of the orchestrator. The transport and the JSON codec
-- are parameters: what `http.NewRequest` accepts, what the service answers, what `encoding/json` does.
pub mod Events
pub mod Outcomes
mod Tests
use compute_backend.Prelude.{
  ℕ, zero, suc, ◌+◌, ◌-◌, ◌*◌, ◌/◌, ◌%◌, ◌^◌, ◌≤◌, ◌<◌, String, ◌≡◌, refl, sym, ap, ◌∙◌, ◌≢◌, ◌↔◌,
  ◌⊎◌, inl, inr, Bool, true, false, not, ◌&&◌, ◌||◌, Option, none, some, List, [], ◌∷◌, ◌++◌, map,
  append_assoc, append-nil, arith, ltb, leb, ◌==◌, if◌then◌else◌, ltb→lt, leb→le, ==_iff, ==-refl,
  Bool-cases, Result, ok, err, is_some, Option-cases, Result-cases, ℤ, pos, negsuc, is_zero, length,
  get_elem?, take, drop, length-append, length-take-le, drop-append, take-append, any, find?, All,
  All-append,
}
use compute_backend.Strings.{
  Text, codes, newline, slash, text_eq, is_empty, text_eq→eq, text_eq_refl, eq→text_eq, text_eq_iff,
  Lacks,
}
use compute_backend.Strings.Affix.{
  after_prefix, has_prefix, trim_prefix, has_suffix, trim_suffix, contains, after_prefix-append,
  after_prefix_sound, has_prefix-append, trim_prefix-append, has_prefix_sound, trim_prefix_none,
  has_suffix-append, trim_suffix-append, trim_suffix_none,
}
use compute_backend.Strings.Trim.{
  is_space, in_set, trim_left_by, trim_right_by, trim_by, trim_space, trim, trim_right,
  trim_space_idem, trim_space-cons, trim_left_by_id, trim_right_by-concat, trim_right_by-drops,
  trim_right_by_none,
}
use compute_backend.Strings.Search.{index, last_index}
use compute_backend.Strings.Split.{split, join, split-Lacks, split-append}
use compute_backend.Strings.Fold.{
  lower, upper, fold, to_lower, to_upper, equal_fold, replace_all, equal_fold_refl,
  equal_fold_trans, equal_fold_sym,
}

pub record SubmitJobRequest : Type 0 where
  pub model_id : Text
  pub version_id : Option Text
  pub payload : Text
  pub store_io : Bool
  pub fal_webhook : Option Text

pub record SubmitJobResponse : Type 0 where
  pub request_id : Text

-- A JSON value that is kept as it came is its text.
pub record JobDetails : Type 0 where
  pub request_id : Text
  pub model_id : Text
  pub version_id : Option Text
  pub node_id : Option Text
  pub status : Text
  pub queue_position : Option ℤ
  pub logs : List Text
  pub result : Option Text
  pub artifacts : List Text

pub record CancelResponse : Type 0 where
  pub status : Text

pub record SyncRequest : Type 0 where
  pub model_id : Text
  pub payload : Text

pub record SyncResponse : Type 0 where
  pub result : Option Text
  pub logs : List Text

pub data Method : Type 0 where
  get post put delete options : Method

pub record HttpRequest : Type 0 where
  pub method : Method
  pub url : Text
  pub body : Option Text

pub record HttpResponse : Type 0 where
  pub status_code : ℕ
  pub body : Text

-- The errors that the client wraps, `not_found` being the sentinel `ErrNotFound`.
pub data ClientError : Type 0 where
  marshal_failed create_failed decode_failed not_found : ClientError
  transport_failed : Text → ClientError
  rejected : Text → ClientError

pub record Transport : Type 0 where
  pub valid_url : Text → Bool
  pub round_trip : HttpRequest → Result Text HttpResponse

pub record Codec : Type 0 where
  pub marshal_submit : SubmitJobRequest → Option Text
  pub decode_submit : Text → Option SubmitJobResponse
  pub decode_job : Text → Option JobDetails
  pub unmarshal_job : Text → Option JobDetails
  pub decode_cancel : Text → Option CancelResponse
  pub marshal_sync : SyncRequest → Option Text
  pub decode_sync : Text → Option SyncResponse

infixl 5 ◌>>=◌
abbrev pub ◌>>=◌ :
    {A B : Type 0} → Result ClientError A → (A → Result ClientError B) → Result ClientError B
ok a >>= f = f a
err e >>= f = err e

abbrev pub or_error : {A : Type 0} → ClientError → Option A → Result ClientError A
or_error e none = err e
or_error e (some a) = ok a

-- The bytes of a code point in UTF-8.
abbrev pub utf8_width : ℕ → ℕ
utf8_width c = if ltb c 128 then 1 else if ltb c 2048 then 2 else if ltb c 65536 then 3 else 4

-- U+FFFD for each byte of a code point that was cut, as which Go decodes it.
abbrev pub cut_bytes : ℕ → Text
cut_bytes zero = []
cut_bytes (suc n) = 65533 ∷ cut_bytes n

-- The first bytes of a text.
unfoldable pub take_bytes : ℕ → Text → Text
take_bytes n [] = []
take_bytes n (c ∷ t) =
    let rest = take_bytes (n - utf8_width c) t in
    if leb (utf8_width c) n then c ∷ rest else cut_bytes n

-- The error text of a refusal: the first 4 KiB of the body, trimmed.
abbrev pub refusal : HttpResponse → ClientError
refusal r = rejected (trim_space (take_bytes 4096 r.body))

unfoldable pub new_client : Text → Text
unfolding trim_suffix
new_client base_url = trim_suffix base_url (slash ∷ [])

module _ (t : Transport) where
  -- `http.NewRequestWithContext` and `httpClient.Do`.
  unfoldable pub send : HttpRequest → Result ClientError HttpResponse
  send r =
      if not (t.valid_url r.url)
      then err create_failed
      else elim (t.round_trip r) [ err e ↦ err (transport_failed e) | ok resp ↦ ok resp ]

  module _ (codec : Codec) (base_url : Text) where
    unfoldable pub submit_job : SubmitJobRequest → Result ClientError SubmitJobResponse
    unfolding send
    submit_job req = do
      body ← or_error marshal_failed (codec.marshal_submit req)
      resp ←
          send (record {
            method = post;
            url = base_url ++ codes "/v1/internal/jobs";
            body = some body;
          })
      if not (resp.status_code == 201)
          then err (refusal resp)
          else or_error decode_failed (codec.decode_submit resp.body)

    unfoldable pub get_job : Text → Result ClientError JobDetails
    unfolding send
    get_job request_id = do
      resp ← send (record {
        method = get;
        url = base_url ++ (codes "/v1/internal/jobs/" ++ request_id);
        body = none;
      })
      if resp.status_code == 404
          then err not_found
          else if not (resp.status_code == 200)
          then err (refusal resp)
          else or_error decode_failed (codec.decode_job resp.body)

    unfoldable pub cancel_job : Text → Result ClientError CancelResponse
    unfolding send
    cancel_job request_id = do
      resp ← send (record {
        method = put;
        url = base_url ++ (codes "/v1/internal/jobs/" ++ (request_id ++ codes "/cancel"));
        body = none;
      })
      if resp.status_code == 404
          then err not_found
          else if not (resp.status_code == 202) && not (resp.status_code == 400)
          then err (refusal resp)
          else or_error decode_failed (codec.decode_cancel resp.body)

    unfoldable pub invoke_sync : SyncRequest → Result ClientError SyncResponse
    unfolding send
    invoke_sync req = do
      body ← or_error marshal_failed (codec.marshal_sync req)
      resp ←
          send (record {
            method = post;
            url = base_url ++ codes "/v1/internal/sync";
            body = some body;
          })
      if not (resp.status_code == 200)
          then err (refusal resp)
          else or_error decode_failed (codec.decode_sync resp.body)

  -- The open stream is the answer whose body is read later.
  unfoldable pub stream_status : Text → Text → Result ClientError HttpResponse
  unfolding send
  stream_status base_url request_id = do
    resp ← send (record {
      method = get;
      url = base_url ++ (codes "/v1/internal/jobs/" ++ (request_id ++ codes "/stream"));
      body = none;
    })
    if not (resp.status_code == 200) then err (refusal resp) else ok resp
