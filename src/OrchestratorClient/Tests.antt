-- ===== src/OrchestratorClient/Tests.antt =====
-- The client and its event streams at concrete answers.
use compute_backend.Prelude.{
  ◌≡◌, refl, ◌≢◌, false, none, some, List, [], ◌∷◌, ◌++◌, arith, if◌then◌else◌, All,
}
use compute_backend.Strings.{Text, codes, newline, text_eq}
use compute_backend.Strings.Affix.{has_prefix, trim_prefix}
use compute_backend.Strings.Trim.{in_set, trim_space, trim_right}
use compute_backend.OrchestratorClient.{Codec}
use compute_backend.OrchestratorClient.Events.{eof, Callback, read_events}
use compute_backend.OrchestratorClient.Events.Streams.{
  frames, IsPayload, deliver, read_events-frames, read_events_drops_tail,
}

abbrev codec : Codec
codec = record {
  marshal_submit = λ r. some r.payload;
  decode_submit = λ t. some (record { request_id = t });
  decode_job = λ t. none;
  unmarshal_job = λ t. none;
  decode_cancel = λ t. none;
  marshal_sync = λ r. some r.payload;
  decode_sync = λ t. none;
}

-- A callback that keeps what it is given and fails at "stop".
abbrev keep : Callback (List Text) Text
keep payload seen =
    if text_eq payload (codes "stop")
    then (some (codes "stopped"), seen)
    else (none, seen ++ payload ∷ [])

plain :
    (p : Text)
    → All (λ c. in_set (codes "\r\n") c ≡ false) p
    → trim_space p ≡ p
    → p ≢ []
    → IsPayload p
plain p h k n = record { one_line = h; trimmed = k; nonempty = n }

two_payloads : All IsPayload (codes "a" ∷ codes "b" ∷ [])
unfolding trim_space
two_payloads = (plain (codes "a") (refl, tt) refl cc, (plain (codes "b") (refl, tt) refl cc, tt))

read_events-frames_example :
    read_events keep (frames (codes "a" ∷ codes "b" ∷ [])) eof []
    ≡ deliver keep (codes "a" ∷ codes "b" ∷ []) []
read_events-frames_example = read_events-frames keep (codes "a" ∷ codes "b" ∷ []) [] two_payloads

-- Without the newline the event is lost.
read_events_drops_tail_example :
    read_events keep (codes "\n" ++ newline ∷ codes "data: {}") eof []
    ≡ read_events keep (codes "\n" ++ newline ∷ []) eof []
read_events_drops_tail_example =
    read_events_drops_tail keep (codes "\n") (codes "data: {}") eof [] (omega arith)

reads_an_event :
    read_events keep (codes "id: 1\r\ndata: {}\r\n\r\ndata: x\n") eof []
    ≡ (none, codes "{}" ∷ codes "x" ∷ [])
unfolding read_events trim_space has_prefix trim_prefix trim_right text_eq
reads_an_event = refl

stops_at_an_error :
    read_events keep (codes "data: stop\n\ndata: x\n\n") eof [] ≡ (some (codes "stopped"), [])
unfolding read_events trim_space has_prefix trim_prefix trim_right text_eq
stops_at_an_error = refl
