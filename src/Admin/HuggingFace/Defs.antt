-- ===== src/Admin/HuggingFace/Defs.antt =====
-- What cmd/admin-rest/main.go reads of a model of Hugging Face. Its card is an association list whose values are texts
-- or something else; the call of the API is an argument. Of a body that is shown in an error, 4096 code points stand for
-- the 4096 bytes of the source.
use compute_backend.Prelude.{
  ℕ, Bool, ◌||◌, Option, none, some, List, [], ◌∷◌, ◌++◌, ◌==◌, if◌then◌else◌, Result, ok, err, ℤ,
  take, find?,
}
use compute_backend.Strings.{Text, codes, is_empty}
use compute_backend.Strings.Affix.{has_prefix, trim_prefix, has_suffix}
use compute_backend.Strings.Trim.{trim_space}
use compute_backend.Strings.Digits.{itoa}
use compute_backend.Strings.Digits.{itoa}
use compute_backend.Strings.Fold.{to_lower, to_upper, replace_all}
use compute_backend.Maps.{Assoc, lookup}

pub record HuggingFaceFile : Type 0 where
  pub rfilename : Text
  pub size : ℤ

-- A value of the card: a string, or anything else.
pub data CardValue : Type 0 where
  string : Text → CardValue
  something : Text → CardValue

-- `card_data` is `none` where it is missing.
pub record HuggingFaceModel : Type 0 where
  pub model_id : Text
  pub pipeline_tag : Text
  pub tags : List Text
  pub card_data : Option (Assoc CardValue)
  pub siblings : List HuggingFaceFile
  pub library_name : Text
  pub description : Text
  pub likes : ℤ
  pub downloads : ℤ
  pub last_modified : Text

-- An answer of the API: its code and its body. `decode` is the decoder of a model.
pub record Api : Type 0 where
  pub request : Text → Result Text (ℕ × Text)
  pub decode : Text → Result Text HuggingFaceModel

unfoldable pub fetch_hugging_face_model : Api → Text → Result Text HuggingFaceModel
fetch_hugging_face_model api model_id =
    elim (api.request (codes "https://huggingface.co/api/models/" ++ model_id)) [
      | err e ↦ err e
      | ok (code, body) ↦
          if code == 404
          then err (codes "model " ++ model_id ++ codes " not found on Hugging Face")
          else if code == 200
          then elim (api.decode body) [
            | err e ↦ err (codes "decode response: " ++ e)
            | ok payload ↦ ok (
                if is_empty payload.model_id
                then record payload { model_id = model_id }
                else payload)
          ]
          else err (
              codes "huggingface API error ("
              ++ itoa code
              ++ codes "): "
              ++ trim_space (take 4096 body))
    ]

unfoldable pub string_from_card_data : Option (Assoc CardValue) → Text → Text
string_from_card_data none key = []
string_from_card_data (some card) key = elim (lookup key card) [
  | none ↦ []
  | some value ↦ elim value [ string t ↦ t | something t ↦ [] ]
]

unfoldable pub first_non_empty : List Text → Text
first_non_empty [] = []
first_non_empty (v ∷ vs) =
    let rest = first_non_empty vs in
    let trimmed = trim_space v in if is_empty trimmed then rest else trimmed

abbrev pub priority_suffixes : List Text
priority_suffixes = codes ".safetensors" ∷ codes ".bin" ∷ codes ".gguf" ∷ codes ".pt" ∷ []

abbrev pub has_ending : Text → HuggingFaceFile → Bool
has_ending suffix file = has_suffix (to_lower file.rfilename) suffix

-- The loops over the suffixes and the files, and the first file where no file has a suffix.
unfoldable pub pick_file : List Text → List HuggingFaceFile → Option HuggingFaceFile
pick_file [] [] = none
pick_file [] (file ∷ files) = some file
pick_file (suffix ∷ suffixes) files =
    let rest = pick_file suffixes files in
    elim (find? (has_ending suffix) files) [ none ↦ rest | some file ↦ some file ]

abbrev pub file_name : Option HuggingFaceFile → Text
file_name none = []
file_name (some file) = file.rfilename

-- The file that is asked for, or one that is picked.
unfoldable pub candidate_file : Text → List HuggingFaceFile → Text
unfolding pick_file
candidate_file requested files =
    let asked = trim_space requested in
    trim_space (if is_empty asked then file_name (pick_file priority_suffixes files) else asked)

unfoldable pub build_weights_url : Text → Text → List HuggingFaceFile → Text
build_weights_url model_id requested files =
    let candidate = candidate_file requested files in
    if is_empty candidate
    then []
    else if has_prefix candidate (codes "http://") || has_prefix candidate (codes "https://")
    then candidate
    else codes "https://huggingface.co/"
      ++ model_id
      ++ codes "/resolve/main/"
      ++ trim_prefix candidate (codes "/")

unfoldable pub derive_capabilities : Text → List Text → List Text
derive_capabilities pipeline tags =
    if is_empty pipeline
    then codes "GENERAL" ∷ []
    else to_upper (replace_all pipeline b'-' b'_') ∷ []
