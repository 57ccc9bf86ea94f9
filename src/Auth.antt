-- ===== src/Auth.antt =====
-- pkg/auth/auth.go: the key that an `Authorization` header carries.
mod Tests
use compute_backend.Prelude.{
  ℕ, zero, suc, ◌+◌, ◌-◌, ◌*◌, ◌/◌, ◌%◌, ◌^◌, ◌≤◌, ◌<◌, String, ◌≡◌, refl, sym, ap, ◌∙◌, ◌≢◌, ◌↔◌,
  ◌⊎◌, inl, inr, Bool, true, false, not, ◌&&◌, ◌||◌, Option, none, some, List, [], ◌∷◌, ◌++◌, map,
  append_assoc, append-nil, arith, ltb, leb, ◌==◌, if◌then◌else◌, ltb→lt, leb→le, ==_iff, ==-refl,
  Bool-cases, Result, ok, err, is_some, Option-cases, Result-cases, length, get_elem?, take, drop,
  length-append, length-take-le, drop-append, take-append, any, find?, All, All-append,
}
use compute_backend.Strings.{
  Text, codes, newline, slash, text_eq, is_empty, text_eq→eq, text_eq_refl, eq→text_eq, text_eq_iff,
  Lacks,
}
use compute_backend.Strings.Affix.{
  after_prefix, has_prefix, trim_prefix, has_suffix, trim_suffix, contains, after_prefix-append,
  after_prefix_sound, has_prefix-append, trim_prefix-append, has_prefix_sound, trim_prefix_none,
  has_suffix-append, trim_suffix-append, trim_suffix_none,
}
use compute_backend.Strings.Trim.{
  is_space, in_set, trim_left_by, trim_right_by, trim_by, trim_space, trim, trim_right,
  trim_space_idem,
}
use compute_backend.Strings.Search.{index, last_index}
use compute_backend.Strings.Split.{split, join, split-Lacks, split-append}
use compute_backend.Strings.Fold.{
  lower, upper, fold, to_lower, to_upper, equal_fold, replace_all, equal_fold_refl,
  equal_fold_trans, equal_fold_sym,
}

pub data Error : Type 0 where
  missing_key invalid_prefix : Error

abbrev key_prefix : Text
key_prefix = codes "Key "

-- The argument is what `r.Header.Get("Authorization")` returns, empty if there is no such header.
extract_key : Text → Result Error Text
unfolding has_prefix trim_prefix
extract_key header =
    if is_empty header
    then err missing_key
    else if not (has_prefix header key_prefix)
    then err invalid_prefix
    else let token = trim_prefix header key_prefix in
      if is_empty token then err missing_key else ok token

-- A token is accepted exactly when the header is "Key " followed by that token, not empty.
extract_key_ok :
    (header token : Text)
    → (extract_key header ≡ ok token) ↔ ((header ≡ key_prefix ++ token) × (token ≢ []))
unfolding extract_key
extract_key_ok header token = (
  λ h. ground (arith, has_prefix_sound key_prefix header),
  λ (e, nonempty).
      ground (arith, has_prefix-append key_prefix token, trim_prefix-append key_prefix token),
)

-- The two errors: no token at all, or another scheme.
extract_key_err :
    (header : Text)
    → ((extract_key header ≡ err missing_key) ↔ ((header ≡ []) ⊎ (header ≡ key_prefix)))
      × ((extract_key header ≡ err invalid_prefix)
          ↔ ((header ≢ []) × (has_prefix header key_prefix ≡ false)))
unfolding extract_key
extract_key_err header = (
  (
    λ h. ground (arith, has_prefix_sound key_prefix header),
    λ h. ground (arith, has_prefix-append key_prefix [], trim_prefix-append key_prefix []),
  ),
  (λ h. ground arith, λ (a, b). ground arith),
)

-- A header is one of three: a token, exactly where it is "Key " followed by that token, not empty; a missing key, exactly
-- where it is empty or "Key " alone; or another scheme, exactly where it is not empty and does not begin with "Key ".
extract_key_lem :
    (header token : Text)
    → ((extract_key header ≡ ok token) ↔ ((header ≡ key_prefix ++ token) × (token ≢ [])))
      × ((extract_key header ≡ err missing_key) ↔ ((header ≡ []) ⊎ (header ≡ key_prefix)))
      × ((extract_key header ≡ err invalid_prefix)
          ↔ ((header ≢ []) × (has_prefix header key_prefix ≡ false)))
extract_key_lem header token =
    let (missing, invalid) = extract_key_err header in
    (extract_key_ok header token, missing, invalid)
