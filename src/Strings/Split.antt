-- ===== src/Strings/Split.antt =====
-- `Split` at one code point and `Join`.
use compute_backend.Prelude.{◌≢◌, ℕ, List, [], ◌∷◌, ◌++◌, ◌≡◌, refl, arith, ◌==◌, if◌then◌else◌}
use compute_backend.Strings.Base.{Text, Lacks}

-- A code point in front of the first part.
abbrev pub push_head : ℕ → List Text → List Text
push_head c [] = (c ∷ []) ∷ []
push_head c (p ∷ ps) = (c ∷ p) ∷ ps

unfoldable pub split : Text → ℕ → List Text
split [] sep = [] ∷ []
split (c ∷ s) sep = let rest = split s sep in if c == sep then [] ∷ rest else push_head c rest

-- The separator stands between the parts.
unfoldable pub join : List Text → Text → Text
join [] sep = []
join (p ∷ []) sep = p
join (p ∷ q ∷ ps) sep = p ++ (sep ++ join (q ∷ ps) sep)

pub split-Lacks : (s : Text) (sep : ℕ) → Lacks sep s → split s sep ≡ s ∷ []
unfolding split
split-Lacks [] sep h = refl
split-Lacks (c ∷ s) sep (hc, hs) = ground (arith, split-Lacks s sep hs)

pub split-append : (p s : Text) (sep : ℕ) → Lacks sep p → split (p ++ sep ∷ s) sep ≡ p ∷ split s sep
unfolding split
split-append [] s sep h = ground arith
split-append (c ∷ p) s sep (hc, hp) = ground (arith, split-append p s sep hp)

join-push_head :
    (c : ℕ) (ps : List Text) (sep : Text) → ps ≢ [] → join (push_head c ps) sep ≡ c ∷ join ps sep
unfolding join
join-push_head c [] sep h = absurd (h refl)
join-push_head c (p ∷ []) sep h = refl
join-push_head c (p ∷ q ∷ ps) sep h = refl

split-ne-nil : (s : Text) (sep : ℕ) → split s sep ≢ []
unfolding split
split-ne-nil [] sep = cc
split-ne-nil (c ∷ []) sep = ground arith
split-ne-nil (c ∷ d ∷ s) sep = ground (arith, split-ne-nil (d ∷ s) sep)

join-cons : (ps : List Text) (sep : Text) → ps ≢ [] → join ([] ∷ ps) sep ≡ sep ++ join ps sep
unfolding join
join-cons [] sep h = absurd (h refl)
join-cons (p ∷ ps) sep h = refl

-- Joining the parts of a split gives the text back.
pub join-split : (s : Text) (sep : ℕ) → join (split s sep) (sep ∷ []) ≡ s
unfolding split
join-split [] sep = unfold join in refl
join-split (c ∷ s) sep = ground (
  arith,
  join-split s sep,
  join-cons (split s sep) (sep ∷ []) (split-ne-nil s sep),
  join-push_head c (split s sep) (sep ∷ []) (split-ne-nil s sep),
)
