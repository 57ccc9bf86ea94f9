-- ===== src/Gateway/Paths.antt =====
-- `splitRequestPath`, `responseURL` and `newServer` of cmd/gateway/main.go.
use compute_backend.Prelude.{
  ℕ, ◌+◌, ◌≡◌, refl, ap, ◌∙◌, false, Option, none, some, List, [], ◌∷◌, ◌++◌, if◌then◌else◌, length,
  take, drop, drop_add-append, take-append,
}
use compute_backend.Strings.{Text, codes, slash, is_empty, Lacks}
use compute_backend.Strings.Affix.{trim_suffix, contains}
use compute_backend.Strings.Search.{index, index_first}
use compute_backend.Strings.Split.{split, join, split-Lacks, split-append, join-split}

abbrev pub marker : Text
marker = codes "/requests/"

-- The model's path, the request's id and the suffix.
pub record RequestPath : Type 0 where
  pub model_path : Text
  pub request_id : Text
  pub suffix : Text

-- `strings.Split` returns at least one part: with none the source answers `false`.
abbrev pub of_parts : Text → List Text → Option RequestPath
of_parts model_path [] = none
of_parts model_path (part ∷ parts) =
    some (record { model_path = model_path; request_id = part; suffix = join parts (slash ∷ []) })

unfoldable pub split_request_path : Text → Option RequestPath
unfolding index split join
split_request_path path = elim (index path marker) [
  | none ↦ none
  | some idx ↦ of_parts (take idx path) (split (drop (idx + length marker) path) slash)
]

abbrev pub default_base : Text
default_base = codes "https://queue.vyvo.local"

-- `newServer` cuts one slash off the configured base.
unfoldable pub queue_base : Text → Text
unfolding trim_suffix
queue_base configured = trim_suffix configured (slash ∷ [])

-- The text behind the base of `responseURL`.
abbrev pub request_path : Text → Text → Text
request_path model_path request_id = slash ∷ (model_path ++ (marker ++ request_id))

unfoldable pub response_url : Text → Text → Text → Text
unfolding trim_suffix
response_url base model_path request_id =
    trim_suffix (if is_empty base then default_base else base) (slash ∷ [])
    ++ request_path model_path request_id

-- A path with the marker at a known place, split behind it.
split_request_path_at :
    (model rest : Text)
    → contains (model ++ codes "/requests") marker ≡ false
    → split_request_path (model ++ (marker ++ rest)) ≡ of_parts model (split rest slash)
unfolding split_request_path
split_request_path_at model rest h =
    let path = model ++ (marker ++ rest) in
    at (index path marker) (index_first model (codes "/requests") slash rest h)
    ∙ ap (λ m. of_parts m (split (drop (length model + length marker) path) slash))
        (take-append model (marker ++ rest))
    ∙ ap (λ r. of_parts model (split r slash))
        (drop_add-append model (marker ++ rest) (length marker))
  where
    at :
        (o : Option ℕ)
        → o ≡ some (length model)
        → elim o [
          | none ↦ none
          | some idx ↦
              of_parts
                (take idx (model ++ (marker ++ rest)))
                (split (drop (idx + length marker) (model ++ (marker ++ rest))) slash)
        ]
          ≡ of_parts
              (take (length model) (model ++ (marker ++ rest)))
              (split (drop (length model + length marker) (model ++ (marker ++ rest))) slash)
    at none e = cc
    at (some i) e = let same : i ≡ length model = cc in rw same

-- A path of a model, an id without a slash and a suffix is split into these three.
pub split_request_path_lem :
    (model id suffix : Text)
    → contains (model ++ codes "/requests") marker ≡ false
    → Lacks slash id
    → split_request_path (model ++ (marker ++ (id ++ (slash ∷ suffix))))
      ≡ some (record { model_path = model; request_id = id; suffix = suffix })
split_request_path_lem model id suffix h k =
    rw (split_request_path_at model (id ++ (slash ∷ suffix)) h, split-append id suffix slash k)
      (rw (join-split suffix slash))

-- The same path without a suffix.
pub split_request_path_bare :
    (model id : Text)
    → contains (model ++ codes "/requests") marker ≡ false
    → Lacks slash id
    → split_request_path (model ++ (marker ++ id))
      ≡ some (record { model_path = model; request_id = id; suffix = [] })
split_request_path_bare model id h k =
    rw (split_request_path_at model id h, split-Lacks id slash k) (unfold join in refl)
