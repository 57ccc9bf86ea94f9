-- ===== src/Queue/Encoding.antt =====
-- An encoding of jobs, for the tests.
use compute_backend.Prelude.{
  ℕ, zero, suc, ◌≡◌, refl, ap, Option, none, some, [], ◌∷◌, ◌++◌, arith, Result, ok, err, Time,
  length, take, drop, drop-append, take-append,
}
use compute_backend.Strings.{Text, codes}
use compute_backend.Queue.{JobStatus, pending, processing, completed, failed, Job, JobCodec}
use compute_backend.Queue.Contract.{CodecLaws}

-- An encoding of jobs without parameters: numbers, then each text behind its length.
abbrev pub status_code : JobStatus → ℕ
status_code pending = 0
status_code processing = 1
status_code completed = 2
status_code failed = 3

abbrev pub status_of : ℕ → JobStatus
status_of zero = pending
status_of (suc zero) = processing
status_of (suc (suc zero)) = completed
status_of (suc (suc (suc n))) = failed

-- The one value that parameters and results have here.
abbrev pub Json : Type 0
Json = Unit

abbrev pub result_code : Option Json → ℕ
result_code none = 0
result_code (some value) = 1

abbrev pub result_of : ℕ → Option Json
result_of zero = none
result_of (suc n) = some tt

abbrev pub head_text : Text → Text
head_text [] = []
head_text (n ∷ s) = take n s

abbrev pub tail_text : Text → Text
tail_text [] = []
tail_text (n ∷ s) = drop n s

unfoldable pub encode_text : Text → Text → Text
encode_text t rest = length t ∷ t ++ rest

head_text-encode_text : (t rest : Text) → head_text (encode_text t rest) ≡ t
unfolding encode_text
head_text-encode_text t rest = take-append t rest

tail_text-encode_text : (t rest : Text) → tail_text (encode_text t rest) ≡ rest
unfolding encode_text
tail_text-encode_text t rest = drop-append t rest

abbrev pub texts_of : Job Json → Text
texts_of job = encode_text job.id (
    encode_text job.model
      (encode_text job.worker_id (encode_text job.node_id (encode_text job.error []))))

abbrev pub decode_texts : JobStatus → Time → Time → Time → Option Json → Text → Job Json
decode_texts status created begun ended value s =
    let a = tail_text s in
    let b = tail_text a in
    let c = tail_text b in
    let d = tail_text c in
    record {
      id = head_text s;
      model = head_text a;
      status = status;
      params = tt;
      worker_id = head_text b;
      node_id = head_text c;
      created_at = created;
      started_at = begun;
      completed_at = ended;
      result = value;
      error = head_text d;
    }

abbrev pub decode : Text → Result Text (Job Json)
decode (st ∷ created ∷ begun ∷ ended ∷ value ∷ s) =
    ok (decode_texts (status_of st) created begun ended (result_of value) s)
decode _ = err (codes "unexpected end of JSON input")

abbrev pub codec : JobCodec Json
codec = record {
  marshal = λ job. ok (
      status_code job.status
      ∷ job.created_at
      ∷ job.started_at
      ∷ job.completed_at
      ∷ result_code job.result
      ∷ texts_of job);
  unmarshal = decode;
}

status_of-status_code : (st : JobStatus) → status_of (status_code st) ≡ st
status_of-status_code pending = refl
status_of-status_code processing = refl
status_of-status_code completed = refl
status_of-status_code failed = refl

result_of-result_code : (value : Option Json) → result_of (result_code value) ≡ value
result_of-result_code none = refl
result_of-result_code (some tt) = refl

decode_texts-texts_of :
    (job : Job Json)
    → decode_texts job.status job.created_at job.started_at job.completed_at job.result
        (texts_of job)
      ≡ job
decode_texts-texts_of job =
    let r₅ = encode_text job.error [] in
    let r₄ = encode_text job.node_id r₅ in
    let r₃ = encode_text job.worker_id r₄ in
    let r₂ = encode_text job.model r₃ in
    rw
      (
        tail_text-encode_text job.id r₂,
        tail_text-encode_text job.model r₃,
        tail_text-encode_text job.worker_id r₄,
        tail_text-encode_text job.node_id r₅,
        head_text-encode_text job.id r₂,
        head_text-encode_text job.model r₃,
        head_text-encode_text job.worker_id r₄,
        head_text-encode_text job.node_id r₅,
        head_text-encode_text job.error [],
      )
      refl

decode-marshal :
    (job : Job Json)
    → codec.unmarshal (
        status_code job.status
        ∷ job.created_at
        ∷ job.started_at
        ∷ job.completed_at
        ∷ result_code job.result
        ∷ texts_of job)
      ≡ ok job
decode-marshal job =
    rw (status_of-status_code job.status, result_of-result_code job.result)
      (ap (λ j. ok j) (decode_texts-texts_of job))

pub codec_laws : CodecLaws codec
codec_laws = record { unmarshal-marshal = λ job bytes h. ground (arith, decode-marshal job, h) }
