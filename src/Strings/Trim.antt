-- ===== src/Strings/Trim.antt =====
-- `TrimSpace`, `Trim` and `TrimRight`: code points dropped at the ends while a test holds.
use compute_backend.Prelude.{
  length, ◌≤◌, ◌≢◌, ap, ℕ, [], ◌∷◌, ◌++◌, Bool, true, false, ◌||◌, ◌&&◌, ◌≡◌, refl, arith, leb,
  ◌==◌, if◌then◌else◌, any, All,
}
use compute_backend.Strings.Base.{Text, is_empty}

-- unicode.IsSpace
abbrev pub is_space : ℕ → Bool
is_space c =
    (leb 9 c && leb c 13)
    || c == 32
    || c == 0x85
    || c == 0xa0
    || c == 0x1680
    || (leb 0x2000 c && leb c 0x200a)
    || c == 0x2028
    || c == 0x2029
    || c == 0x202f
    || c == 0x205f
    || c == 0x3000

-- Membership in a cutset.
abbrev pub in_set : Text → ℕ → Bool
in_set cutset c = any (λ d. d == c) cutset

module _ (p : ℕ → Bool) where
  unfoldable pub trim_left_by : Text → Text
  trim_left_by [] = []
  trim_left_by (c ∷ s) = if p c then trim_left_by s else c ∷ s

  unfoldable pub trim_right_by : Text → Text
  trim_right_by [] = []
  trim_right_by (c ∷ s) =
      let rest = trim_right_by s in if is_empty rest && p c then [] else c ∷ rest

  unfoldable pub trim_by : Text → Text
  unfolding trim_left_by trim_right_by
  trim_by s = trim_right_by (trim_left_by s)

  pub trim_left_by_idem : (s : Text) → trim_left_by (trim_left_by s) ≡ trim_left_by s
  unfolding trim_left_by
  trim_left_by_idem [] = refl
  trim_left_by_idem (c ∷ s) = ground (arith, trim_left_by_idem s)

  pub trim_right_by_idem : (s : Text) → trim_right_by (trim_right_by s) ≡ trim_right_by s
  unfolding trim_right_by
  trim_right_by_idem [] = refl
  trim_right_by_idem (c ∷ s) = ground (arith, trim_right_by_idem s)

  -- A text whose first code point stays is not trimmed on the left.
  pub trim_left_by-trim_right_by :
      (s : Text) → trim_left_by (trim_right_by (trim_left_by s)) ≡ trim_right_by (trim_left_by s)
  unfolding trim_left_by trim_right_by
  trim_left_by-trim_right_by [] = refl
  trim_left_by-trim_right_by (c ∷ s) = ground (arith, trim_left_by-trim_right_by s)

  pub trim_by_idem : (s : Text) → trim_by (trim_by s) ≡ trim_by s
  unfolding trim_by
  trim_by_idem s = rw (trim_left_by-trim_right_by s) (trim_right_by_idem (trim_left_by s))

  -- The test fails at the ends, or the text is empty: nothing is trimmed.
  pub trim_left_by_id : (c : ℕ) (s : Text) → p c ≡ false → trim_left_by (c ∷ s) ≡ c ∷ s
  unfolding trim_left_by
  trim_left_by_id c s h = ground arith

  pub trim_right_by-concat :
      (s : Text) (c : ℕ) → p c ≡ false → trim_right_by (s ++ c ∷ []) ≡ s ++ c ∷ []
  unfolding trim_right_by
  trim_right_by-concat [] c h = ground arith
  trim_right_by-concat (d ∷ []) c h = ground (arith, trim_right_by-concat [] c h)
  trim_right_by-concat (d ∷ e ∷ s) c h = ground (arith, trim_right_by-concat (e ∷ s) c h)

  pub trim_right_by-drops :
      (s : Text) (c : ℕ) → p c ≡ true → trim_right_by (s ++ c ∷ []) ≡ trim_right_by s
  unfolding trim_right_by
  trim_right_by-drops [] c h = ground arith
  trim_right_by-drops (d ∷ s) c h = ground (arith, trim_right_by-drops s c h)

  -- Nothing is trimmed on the right of a text all of whose code points stay.
  pub trim_right_by_none : (s : Text) → All (λ c. p c ≡ false) s → trim_right_by s ≡ s
  unfolding trim_right_by
  trim_right_by_none [] h = refl
  trim_right_by_none (c ∷ s) (hc, hs) = ground (arith, trim_right_by_none s hs)

  length-trim_left_by-le : (s : Text) → length (trim_left_by s) ≤ length s
  unfolding trim_left_by
  length-trim_left_by-le [] = omega arith
  length-trim_left_by-le (c ∷ s) = ground (arith, length-trim_left_by-le s)

  trim_left_by_keeps : (c : ℕ) (s : Text) → trim_left_by (c ∷ s) ≡ c ∷ s → p c ≡ false
  unfolding trim_left_by
  trim_left_by_keeps c s h = ground (arith, length-trim_left_by-le s, ap (λ t. length t) h)

  trim_left_by-append : (a b : Text) → trim_left_by a ≡ a → a ≢ [] → trim_left_by (a ++ b) ≡ a ++ b
  trim_left_by-append [] b h nonempty = absurd (nonempty refl)
  trim_left_by-append (c ∷ a) b h _ = trim_left_by_id c (a ++ b) (trim_left_by_keeps c a h)

  pub trim_right_by-append :
      (a b : Text) → trim_right_by b ≡ b → b ≢ [] → trim_right_by (a ++ b) ≡ a ++ b
  unfolding trim_right_by
  trim_right_by-append [] b h nonempty = h
  trim_right_by-append (c ∷ []) b h nonempty = ground arith
  trim_right_by-append (c ∷ d ∷ a) b h nonempty =
      ground (arith, trim_right_by-append (d ∷ a) b h nonempty)

  -- Nothing is trimmed of a text that begins and ends with texts of which nothing is trimmed.
  pub trim_by-append :
      (a b : Text)
      → trim_left_by a ≡ a
      → a ≢ []
      → trim_right_by b ≡ b
      → b ≢ []
      → trim_by (a ++ b) ≡ a ++ b
  unfolding trim_by
  trim_by-append a b ha na hb nb =
      rw (trim_left_by-append a b ha na) (trim_right_by-append a b hb nb)

  pub trim_left_by-trim_by : (s : Text) → trim_left_by (trim_by s) ≡ trim_by s
  unfolding trim_by
  trim_left_by-trim_by s = trim_left_by-trim_right_by s

  -- What is trimmed may stand in front.
  pub trim_by-cons : (c : ℕ) (s : Text) → p c ≡ true → trim_by (c ∷ s) ≡ trim_by s
  unfolding trim_by trim_left_by
  trim_by-cons c s h = ground arith

unfoldable pub trim_space : Text → Text
unfolding trim_by
trim_space = trim_by is_space

unfoldable pub trim : Text → Text → Text
unfolding trim_by
trim s cutset = trim_by (in_set cutset) s

unfoldable pub trim_right : Text → Text → Text
unfolding trim_right_by
trim_right s cutset = trim_right_by (in_set cutset) s

pub trim_space_idem : (s : Text) → trim_space (trim_space s) ≡ trim_space s
unfolding trim_space
trim_space_idem s = trim_by_idem is_space s

-- Leading spaces make no difference.
pub trim_space-cons : (c : ℕ) (s : Text) → is_space c ≡ true → trim_space (c ∷ s) ≡ trim_space s
unfolding trim_space
trim_space-cons c s h = ground arith
