-- ===== src/Strings/Search.antt =====
-- `Index`, `LastIndex`: where a text or a code point stands.
use compute_backend.Prelude.{
  ◌≤◌, length, append_assoc, length-append, ◌++◌, false, true, ◌≡◌, arith, ℕ, suc, [], ◌∷◌, ◌==◌,
  if◌then◌else◌, Option, none, some,
}
use compute_backend.Strings.Base.{Text}
use compute_backend.Strings.Affix.{has_prefix, contains, has_prefix-append, has_prefix-long}

-- `Index(s, p)`, `none` for -1.
unfoldable pub index : Text → Text → Option ℕ
unfolding has_prefix
index [] p = if has_prefix [] p then some 0 else none
index (c ∷ s) p =
    if has_prefix (c ∷ s) p
    then some 0
    else elim (index s p) [ none ↦ none | some i ↦ some (suc i) ]

-- `LastIndex(s, string(c))`, `none` for -1.
unfoldable pub last_index : Text → ℕ → Option ℕ
last_index [] c = none
last_index (d ∷ s) c = elim (last_index s c) [
  | some i ↦ some (suc i)
  | none ↦ if d == c then some 0 else none
]

index-zero : (s p : Text) → has_prefix s p ≡ true → index s p ≡ some 0
unfolding index
index-zero [] p h = ground arith
index-zero (c ∷ s) p h = ground arith

-- A text `p` with `c` behind it is first met behind `s` where `s` with `p` behind it holds none.
pub index_first :
    (s p : Text) (c : ℕ) (rest : Text)
    → contains (s ++ p) (p ++ c ∷ []) ≡ false
    → index (s ++ (p ++ c ∷ rest)) (p ++ c ∷ []) ≡ some (length s)
unfolding index contains
index_first [] p c rest h =
    rw (← append_assoc p (c ∷ []) rest)
      (index-zero ((p ++ c ∷ []) ++ rest) (p ++ c ∷ []) (has_prefix-append (p ++ c ∷ []) rest))
index_first (d ∷ s) p c rest h =
    let shown = (d ∷ s) ++ p in
    let room : length (p ++ c ∷ []) ≤ length shown =
      omega (arith, length-append s p, length-append p (c ∷ [])) in
    ground (
      arith,
      has_prefix-long shown (c ∷ rest) (p ++ c ∷ []) room,
      append_assoc (d ∷ s) p (c ∷ rest),
      index_first s p c rest,
    )
