-- ===== src/Strings/Affix.antt =====
-- `HasPrefix`, `HasSuffix`, `TrimPrefix`, `TrimSuffix` and `Contains`.
use mathlib.Core.List.{reverse, reverse-append, reverse-reverse}
use compute_backend.Prelude.{
  length, is_some, ◌≤◌, [], ◌∷◌, ◌++◌, Bool, true, false, ◌≡◌, refl, arith, ◌==◌, if◌then◌else◌,
  Option, none, some,
}
use compute_backend.Strings.Base.{Text}

-- What stands behind a prefix.
unfoldable pub after_prefix : Text → Text → Option Text
after_prefix [] s = some s
after_prefix (c ∷ p) [] = none
after_prefix (c ∷ p) (d ∷ s) = if c == d then after_prefix p s else none

unfoldable pub has_prefix : Text → Text → Bool
unfolding after_prefix
has_prefix s p = elim (after_prefix p s) [ none ↦ false | some r ↦ true ]

unfoldable pub trim_prefix : Text → Text → Text
unfolding after_prefix
trim_prefix s p = elim (after_prefix p s) [ none ↦ s | some r ↦ r ]

unfoldable pub has_suffix : Text → Text → Bool
unfolding has_prefix
has_suffix s p = has_prefix (reverse s) (reverse p)

unfoldable pub trim_suffix : Text → Text → Text
unfolding trim_prefix
trim_suffix s p = reverse (trim_prefix (reverse s) (reverse p))

unfoldable pub contains : Text → Text → Bool
unfolding has_prefix
contains [] p = has_prefix [] p
contains (c ∷ s) p = if has_prefix (c ∷ s) p then true else contains s p

pub after_prefix-append : (p s : Text) → after_prefix p (p ++ s) ≡ some s
unfolding after_prefix
after_prefix-append [] s = refl
after_prefix-append (c ∷ p) s = ground (arith, after_prefix-append p s)

pub after_prefix_sound : (p s r : Text) → after_prefix p s ≡ some r → s ≡ p ++ r
unfolding after_prefix
after_prefix_sound [] s r h = ground arith
after_prefix_sound (c ∷ p) [] r h = ground arith
after_prefix_sound (c ∷ p) (d ∷ s) r h = ground (arith, after_prefix_sound p s r)

pub has_prefix-append : (p s : Text) → has_prefix (p ++ s) p ≡ true
unfolding has_prefix
has_prefix-append p s = ground (arith, after_prefix-append p s)

pub trim_prefix-append : (p s : Text) → trim_prefix (p ++ s) p ≡ s
unfolding trim_prefix
trim_prefix-append p s = ground (arith, after_prefix-append p s)

pub has_prefix_sound : (p s : Text) → has_prefix s p ≡ true → s ≡ p ++ trim_prefix s p
unfolding has_prefix trim_prefix
has_prefix_sound p s h = go (after_prefix p s) refl h
  where
    go :
        (o : Option Text)
        → after_prefix p s ≡ o
        → elim o [ none ↦ false | some r ↦ true ] ≡ true
        → s ≡ p ++ elim o [ none ↦ s | some r ↦ r ]
    go none e k = ground arith
    go (some r) e k = after_prefix_sound p s r e

pub trim_prefix_none : (p s : Text) → has_prefix s p ≡ false → trim_prefix s p ≡ s
unfolding has_prefix trim_prefix
trim_prefix_none p s h = ground arith

pub has_suffix-append : (s p : Text) → has_suffix (s ++ p) p ≡ true
unfolding has_suffix
has_suffix-append s p = rw (reverse-append s p) (has_prefix-append (reverse p) (reverse s))

pub trim_suffix-append : (s p : Text) → trim_suffix (s ++ p) p ≡ s
unfolding trim_suffix
trim_suffix-append s p =
    rw (reverse-append s p, trim_prefix-append (reverse p) (reverse s)) (reverse-reverse s)

pub trim_suffix_none : (s p : Text) → has_suffix s p ≡ false → trim_suffix s p ≡ s
unfolding has_suffix trim_suffix
trim_suffix_none s p h = rw (trim_prefix_none (reverse p) (reverse s) h) (reverse-reverse s)

after_prefix-long :
    (s t p : Text)
    → length p ≤ length s
    → is_some (after_prefix p (s ++ t)) ≡ is_some (after_prefix p s)
unfolding after_prefix
after_prefix-long s t [] h = refl
after_prefix-long [] t (c ∷ p) h = absurd (omega arith)
after_prefix-long (d ∷ s) t (c ∷ p) h = ground (arith, after_prefix-long s t p)

-- What stands behind a text at least as long as the prefix makes no difference.
pub has_prefix-long : (s t p : Text) → length p ≤ length s → has_prefix (s ++ t) p ≡ has_prefix s p
unfolding has_prefix
has_prefix-long s t p h = ground (arith, after_prefix-long s t p h)
