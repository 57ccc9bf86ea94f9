-- ===== src/ModelRegistry/Sorting.antt =====
-- A sort of texts by insertion, as `sort.Strings`.
use compute_backend.Prelude.{
  inl, inr, Bool-cases, All, ◌≡◌, refl, true, false, List, [], ◌∷◌, arith, if◌then◌else◌,
}
use compute_backend.Strings.{Text}
use mathlib.Core.List.{Perm}
use mathlib.Core.List.Perm
use compute_backend.ModelRegistry.Migrations.{SortLaws, IsSorted, text_le}

unfoldable insert_text : Text → List Text → List Text
unfolding text_le
insert_text t [] = t ∷ []
insert_text t (u ∷ us) = let rest = insert_text t us in if text_le t u then t ∷ u ∷ us else u ∷ rest

unfoldable pub sort_strings : List Text → List Text
unfolding insert_text
sort_strings [] = []
sort_strings (t ∷ ts) = insert_text t (sort_strings ts)

text_le_or : (s t : Text) → text_le s t ≡ false → text_le t s ≡ true
unfolding text_le
text_le_or [] t h = absurd (ground arith)
text_le_or (c ∷ s) [] h = refl
text_le_or (c ∷ s) (d ∷ t) h = ground (arith, text_le_or s t)

text_le_trans : (s t u : Text) → text_le s t ≡ true → text_le t u ≡ true → text_le s u ≡ true
unfolding text_le
text_le_trans [] t u h k = refl
text_le_trans (c ∷ s) [] u h k = absurd (ground arith)
text_le_trans (c ∷ s) (d ∷ t) [] h k = absurd (ground arith)
text_le_trans (c ∷ s) (d ∷ t) (e ∷ u) h k = ground (arith, text_le_trans s t u)

insert_text-Perm : (t : Text) (ts : List Text) → Perm (insert_text t ts) (t ∷ ts)
unfolding insert_text
insert_text-Perm t [] = Perm.rfl
insert_text-Perm t (u ∷ us) = elim (Bool-cases (text_le t u)) [
  | inl h ↦ rw (insert_text, h) Perm.rfl
  | inr h ↦
      rw (insert_text, h) (Perm.trans (Perm.cons u (insert_text-Perm t us)) (Perm.swap t u us))
]

sort_strings-Perm : (ts : List Text) → Perm (sort_strings ts) ts
unfolding sort_strings
sort_strings-Perm [] = Perm.rfl
sort_strings-Perm (t ∷ ts) =
    Perm.trans (insert_text-Perm t (sort_strings ts)) (Perm.cons t (sort_strings-Perm ts))

insert_text-All :
    (s t : Text) (ts : List Text)
    → text_le s t ≡ true
    → All (λ u. text_le s u ≡ true) ts
    → All (λ u. text_le s u ≡ true) (insert_text t ts)
unfolding insert_text
insert_text-All s t [] h hs = (h, tt)
insert_text-All s t (u ∷ us) h (hu, hs) = elim (Bool-cases (text_le t u)) [
  | inl e ↦ rw (insert_text, e) (h, (hu, hs))
  | inr e ↦ rw (insert_text, e) (hu, insert_text-All s t us h hs)
]

All-text_le :
    (s t : Text) (ts : List Text)
    → text_le s t ≡ true
    → All (λ u. text_le t u ≡ true) ts
    → All (λ u. text_le s u ≡ true) ts
All-text_le s t [] h hs = tt
All-text_le s t (u ∷ us) h (hu, hs) = (text_le_trans s t u h hu, All-text_le s t us h hs)

insert_text-IsSorted : (t : Text) (ts : List Text) → IsSorted ts → IsSorted (insert_text t ts)
unfolding insert_text
insert_text-IsSorted t [] h = (tt, tt)
insert_text-IsSorted t (u ∷ us) (hu, hs) = elim (Bool-cases (text_le t u)) [
  | inl e ↦ rw (insert_text, e) ((e, All-text_le t u us e hu), (hu, hs))
  | inr e ↦
      rw (insert_text, e)
        (insert_text-All u t us (text_le_or t u e) hu, insert_text-IsSorted t us hs)
]

sort_strings-IsSorted : (ts : List Text) → IsSorted (sort_strings ts)
unfolding sort_strings
sort_strings-IsSorted [] = tt
sort_strings-IsSorted (t ∷ ts) = insert_text-IsSorted t (sort_strings ts) (sort_strings-IsSorted ts)

pub sort_strings_laws : SortLaws sort_strings
sort_strings_laws = record { permutes = sort_strings-Perm; sorts = sort_strings-IsSorted }
