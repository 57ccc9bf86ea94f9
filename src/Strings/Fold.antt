-- ===== src/Strings/Fold.antt =====
-- `EqualFold`, `ToUpper`, `ToLower` and `ReplaceAll` of one code point by another.
-- `equal_fold` compares by the simple case foldings of Unicode; `to_upper` and `to_lower` map to ASCII
-- what Go maps to it, and leave all else.
use compute_backend.Prelude.{
  ℕ, ◌+◌, ◌-◌, map, Bool, ◌&&◌, ◌≡◌, sym, ◌∙◌, true, false, ltb, leb, ◌==◌, if◌then◌else◌,
}
use compute_backend.Strings.CaseFolding.{case_ranges, fold_by}
use compute_backend.Strings.Base.{Text, text_eq, text_eq_refl, text_eq→eq, eq→text_eq}

unfoldable pub lower : ℕ → ℕ
lower c =
    if leb b'A' c && leb c b'Z'
    then c + 32
    else if c == 0x130
    then b'i'
    else if c == 0x212a
    then b'k'
    else c

unfoldable pub upper : ℕ → ℕ
upper c =
    if leb b'a' c && leb c b'z'
    then c - 32
    else if c == 0x131
    then b'I'
    else if c == 0x17f
    then b'S'
    else c

unfoldable pub fold : ℕ → ℕ
unfolding lower fold_by case_ranges
fold c = elim (ltb c 128) [ true ↦ lower c | false ↦ fold_by case_ranges c ]

unfoldable pub to_lower : Text → Text
unfolding lower
to_lower s = map lower s

unfoldable pub to_upper : Text → Text
unfolding upper
to_upper s = map upper s

unfoldable pub equal_fold : Text → Text → Bool
unfolding fold text_eq
equal_fold s t = text_eq (map fold s) (map fold t)

unfoldable pub replace_all : Text → ℕ → ℕ → Text
replace_all s a b = map (λ c. if c == a then b else c) s

pub equal_fold_refl : (s : Text) → equal_fold s s ≡ true
unfolding equal_fold
equal_fold_refl s = text_eq_refl (map fold s)

pub equal_fold_trans :
    (s t u : Text) → equal_fold s t ≡ true → equal_fold t u ≡ true → equal_fold s u ≡ true
unfolding equal_fold
equal_fold_trans s t u h k =
    let a = map fold s in
    let b = map fold t in let c = map fold u in eq→text_eq a c (text_eq→eq a b h ∙ text_eq→eq b c k)

pub equal_fold_sym : (s t : Text) → equal_fold s t ≡ true → equal_fold t s ≡ true
unfolding equal_fold
equal_fold_sym s t h =
    let a = map fold s in let b = map fold t in eq→text_eq b a (sym (text_eq→eq a b h))
