-- ===== src/ControlPlane/Provisioner/Env.antt =====
-- The helpers of provisioner.go on texts, and the two environment files. A reading of the clock in its
-- RFC 3339 form and `os.Getenv` are arguments.
use compute_backend.Prelude.{
  String, Bool, true, false, ◌||◌, none, some, List, [], ◌∷◌, ◌++◌, if◌then◌else◌, take,
}
use compute_backend.Strings.{Text, codes, newline, slash, is_empty}
use compute_backend.Strings.Trim.{trim_space}
use compute_backend.Strings.Search.{last_index}
use compute_backend.Strings.Split.{join}
use compute_backend.Strings.Fold.{equal_fold}
use compute_backend.ControlPlane.Types.{Node}

-- The fields of `Provisioner` but the store and the logger.
pub record Provisioner : Type 0 where
  pub script_body : Text
  pub redis_url : Text
  pub callback_url : Text
  pub callback_token : Text

unfoldable pub new_provisioner : Text → Text → Text → Text → Provisioner
new_provisioner script redis_url callback_url callback_token = record {
  script_body = script;
  redis_url = redis_url;
  callback_url = trim_space callback_url;
  callback_token = trim_space callback_token;
}

unfoldable pub has_model : List Text → Text → Bool
has_model [] target = false
has_model (candidate ∷ rest) target =
    let later = has_model rest target in if equal_fold candidate target then true else later

unfoldable pub value_or_default : Text → Text → Text
value_or_default value fallback = if is_empty (trim_space value) then fallback else value

unfoldable pub bool_to_int : Bool → Text
bool_to_int true = codes "1"
bool_to_int false = codes "0"

unfoldable pub dir_name : Text → Text
dir_name path = elim (last_index path slash) [ none ↦ codes "." | some i ↦ take i path ]

-- A line that is there only if the value is not empty.
abbrev pub line_of : String → Text → List Text
line_of key value = if is_empty value then [] else (codes key ++ value) ∷ []

unfoldable pub global_lines : Provisioner → Text → Node → List Text
global_lines p now node =
    (codes "# Managed by Vyvo control plane")
      ∷ (codes "# Updated: " ++ now)
      ∷ (codes "REDIS_URL=" ++ p.redis_url)
      ∷ (codes "VYVO_NODE_ID=" ++ node.id)
      ∷ line_of "HF_TOKEN=" (trim_space node.hf_token)
    ++ line_of "DASHSCOPE_API_KEY=" (trim_space node.dash_scope_api_key)
    ++ line_of "RUNNER_CALLBACK_URL=" p.callback_url
    ++ line_of "RUNNER_CALLBACK_TOKEN=" p.callback_token

unfoldable pub build_global_env : Provisioner → Text → Node → Text
build_global_env p now node = join (global_lines p now node) (newline ∷ []) ++ newline ∷ []

unfoldable pub qwen_lines : (Text → Text) → Text → Node → List Text
unfolding has_model
qwen_lines getenv now node =
    (codes "# Qwen runner configuration")
    ∷ (codes "# Updated: " ++ now)
    ∷ (codes "QWEN_DIFFUSERS_MODEL="
        ++ value_or_default (getenv (codes "QWEN_DIFFUSERS_MODEL_DEFAULT"))
            (codes "Qwen/Qwen-Image"))
    ∷ (codes "QWEN_TORCH_DTYPE=" ++ value_or_default node.torch_dtype (codes "float16"))
    ∷ (codes "QWEN_DEVICE=" ++ value_or_default node.device (codes "cuda"))
    ∷ (codes "QWEN_TRUST_REMOTE_CODE=" ++ bool_to_int (node.trust_remote_code || true))
    ∷ (codes "QWEN_ENABLE_XFORMERS=" ++ bool_to_int (node.enable_xformers || true))
    ∷ (codes "QWEN_ENABLE_TF32=" ++ bool_to_int node.enable_tf32)
    ∷ (if has_model node.models (codes "qwen-image-dashscope")
        then (codes "QWEN_IMAGE_MODEL="
            ++ value_or_default (getenv (codes "QWEN_IMAGE_MODEL_DEFAULT")) (codes "wanx2.1"))
          ∷ []
        else [])

unfoldable pub build_qwen_env : (Text → Text) → Text → Node → Text
build_qwen_env getenv now node = join (qwen_lines getenv now node) (newline ∷ []) ++ newline ∷ []
