-- ===== src/Gateway/Polling.antt =====
-- The URLs that handleQueueSubmission hands out, and the paths that the other handlers split.
use compute_backend.Prelude.{
  ◌≡◌, refl, ap, ◌∙◌, ◌≢◌, false, Option, some, [], ◌∷◌, ◌++◌, append_assoc, arith, if◌then◌else◌,
  All,
}
use compute_backend.Strings.{Text, codes, slash, is_empty, Lacks}
use compute_backend.Strings.Affix.{trim_suffix, contains}
use compute_backend.Strings.Trim.{
  in_set, trim_right_by, trim, trim_right_by_none, trim_right_by-append, trim_by-append,
  trim_left_by-trim_by, trim_by-cons,
}
use compute_backend.Gateway.Paths.{
  default_base, marker, RequestPath, request_path, response_url, split_request_path,
  split_request_path_lem, split_request_path_bare,
}
use compute_backend.Gateway.Handlers.{
  Request, Server, respond, envelope, SubmissionEnvelope, handle_queue_submission,
}

-- A path as the router gives it, behind its slash, split by `handleGetRequests`.
abbrev pub routed : Text → Option RequestPath
routed path = split_request_path (trim path (slash ∷ []))

abbrev pub parsed : Text → Text → Text → Option RequestPath
parsed model id suffix = some (record { model_path = model; request_id = id; suffix = suffix })

in_set-Lacks : (id : Text) → Lacks slash id → All (λ c. in_set (slash ∷ []) c ≡ false) id
in_set-Lacks [] h = tt
in_set-Lacks (c ∷ id) (hc, h) = (ground arith, in_set-Lacks id h)

append-ne-nil : (a b : Text) → a ≢ [] → a ++ b ≢ []
append-ne-nil [] b h = absurd (h refl)
append-ne-nil (c ∷ a) b h = cc

module _ (path model id : Text) (is_model : trim path (slash ∷ []) ≡ model) (nonempty : model ≢ [])
    (plain : contains (model ++ codes "/requests") marker ≡ false) (id_plain : Lacks slash id)
    (id_nonempty : id ≢ []) where
  trimmed :
      (rest : Text)
      → trim_right_by (in_set (slash ∷ [])) rest ≡ rest
      → rest ≢ []
      → trim (slash ∷ (model ++ rest)) (slash ∷ []) ≡ model ++ rest
  unfolding trim
  trimmed rest h ne =
      trim_by-cons (in_set (slash ∷ [])) slash (model ++ rest) refl
      ∙ trim_by-append (in_set (slash ∷ [])) model rest
          (rw (← is_model) (trim_left_by-trim_by (in_set (slash ∷ [])) path)) nonempty h ne

  routed-suffix :
      (suffix : Text)
      → trim_right_by (in_set (slash ∷ [])) suffix ≡ suffix
      → suffix ≢ []
      → routed (request_path model id ++ slash ∷ suffix) ≡ parsed model id suffix
  routed-suffix suffix h ne =
      let p = in_set (slash ∷ []) in
      let tail = trim_right_by-append p (slash ∷ []) suffix h ne in
      let behind = trim_right_by-append p id (slash ∷ suffix) tail cc in
      let rest =
        trim_right_by-append p marker (id ++ slash ∷ suffix) behind
          (append-ne-nil id (slash ∷ suffix) id_nonempty) in
      ap (λ t. routed (slash ∷ t))
        (append_assoc model (marker ++ id) (slash ∷ suffix)
          ∙ ap (λ t. model ++ t) (append_assoc marker id (slash ∷ suffix)))
      ∙ ap split_request_path (trimmed (marker ++ (id ++ slash ∷ suffix)) rest cc)
      ∙ split_request_path_lem model id suffix plain id_plain

  routed_bare : routed (request_path model id) ≡ parsed model id []
  routed_bare =
      let p = in_set (slash ∷ []) in
      let behind = trim_right_by_none p id (in_set-Lacks id id_plain) in
      ap split_request_path
        (trimmed (marker ++ id) (trim_right_by-append p marker id behind id_nonempty) cc)
      ∙ split_request_path_bare model id plain id_plain

-- An accepted submission, read back.
submission_lem :
    (s : Server) (r : Request) (e : SubmissionEnvelope)
    → handle_queue_submission s r ≡ respond 201 (envelope e)
    → (trim r.path (slash ∷ []) ≢ [])
      × (e.response_url ≡ response_url s.queue_base (trim r.path (slash ∷ [])) e.request_id)
      × (e.status_url ≡ e.response_url ++ codes "/status")
      × (e.cancel_url ≡ e.response_url ++ codes "/cancel")
unfolding handle_queue_submission
submission_lem s r e h = ground arith

-- The text in front of the paths of `responseURL`.
abbrev pub base_of : Server → Text
base_of s = trim_suffix (if is_empty s.queue_base then default_base else s.queue_base) (slash ∷ [])

-- Where a submission is accepted, for a path that, trimmed of slashes and with "/requests" behind it, holds no
-- "/requests/", and an id that is not empty and has no slash, each URL of the answer is the base and a path, and that
-- path is split into the model, which is the trimmed path, the id and the suffix of the URL: none, "status" or "cancel".
pub polling :
    (s : Server) (r : Request) (e : SubmissionEnvelope)
    → handle_queue_submission s r ≡ respond 201 (envelope e)
    → contains (trim r.path (slash ∷ []) ++ codes "/requests") marker ≡ false
    → Lacks slash e.request_id
    → e.request_id ≢ []
    → let model = trim r.path (slash ∷ []) in
      (response status cancel : Text) × (e.response_url ≡ base_of s ++ response)
      × (e.status_url ≡ base_of s ++ status)
      × (e.cancel_url ≡ base_of s ++ cancel)
      × (routed response ≡ parsed model e.request_id [])
      × (routed status ≡ parsed model e.request_id (codes "status"))
      × (routed cancel ≡ parsed model e.request_id (codes "cancel"))
unfolding response_url
polling s r e h plain id_plain id_ne =
    let (nonempty, at_response, at_status, at_cancel) = submission_lem s r e h in
    let path = r.path in
    let model = trim path (slash ∷ []) in
    let q = request_path model e.request_id in
    (
      q,
      q ++ codes "/status",
      q ++ codes "/cancel",
      at_response,
      rw (at_status, at_response) (append_assoc (base_of s) q (codes "/status")),
      rw (at_cancel, at_response) (append_assoc (base_of s) q (codes "/cancel")),
      routed_bare path model e.request_id refl nonempty plain id_plain id_ne,
      routed-suffix path model e.request_id refl nonempty plain id_plain id_ne (codes "status")
          (unfold trim_right_by in refl) cc,
      routed-suffix path model e.request_id refl nonempty plain id_plain id_ne (codes "cancel")
          (unfold trim_right_by in refl) cc,
    )
