-- ===== src/Admin/HuggingFace/Weights.antt =====
-- Which file `buildWeightsURL` in cmd/admin-rest/main.go takes.
use compute_backend.Prelude.{
  ℕ, zero, suc, ◌≤◌, ◌<◌, ◌≡◌, refl, sym, ◌∙◌, inl, inr, Bool, true, false, none, some, List, [],
  ◌∷◌, arith, if◌then◌else◌, Bool-cases, Option-cases, get_elem?, find?,
}
use compute_backend.Strings.{Text, codes, is_empty}
use compute_backend.Strings.Affix.{has_suffix}
use compute_backend.Strings.Fold.{to_lower}
use compute_backend.Strings.Trim.{trim_left_by, trim_right_by, trim_by, trim_space, trim_space_idem}
use compute_backend.Admin.HuggingFace.Defs.{
  HuggingFaceFile, pick_file, has_ending, priority_suffixes, build_weights_url, candidate_file,
}

-- The suffixes of a file of weights, the best first.
abbrev pub weight_suffixes : List Text
weight_suffixes = codes ".safetensors" ∷ codes ".bin" ∷ codes ".gguf" ∷ codes ".pt" ∷ []

-- How many suffixes stand before the first one that the file's name has, up to case.
unfoldable pub rank : List Text → HuggingFaceFile → ℕ
rank [] file = 0
rank (suffix ∷ suffixes) file =
    let rest = rank suffixes file in
    if has_suffix (to_lower file.rfilename) suffix then 0 else suc rest

-- `file` is the first of the files with the least rank.
pub record IsFirstBest (suffixes : List Text) (files : List HuggingFaceFile)
    (file : HuggingFaceFile) : Type 0 where
  pub place : ℕ
  pub found : get_elem? files place ≡ some file
  pub best :
      (i : ℕ) (other : HuggingFaceFile)
      → get_elem? files i ≡ some other
      → rank suffixes file ≤ rank suffixes other
  pub first :
      (i : ℕ) (other : HuggingFaceFile)
      → get_elem? files i ≡ some other
      → i < place
      → rank suffixes file < rank suffixes other

module _ (p : HuggingFaceFile → Bool) where
  -- What stands at the place of the first file that passes a test.
  record IsFirst (files : List HuggingFaceFile) (file : HuggingFaceFile) : Type 0 where
    place : ℕ
    found : get_elem? files place ≡ some file
    passes : p file ≡ true
    earlier :
        (i : ℕ) (other : HuggingFaceFile)
        → get_elem? files i ≡ some other
        → i < place
        → p other ≡ false

  find?-IsFirst :
      (files : List HuggingFaceFile) (file : HuggingFaceFile)
      → find? p files ≡ some file
      → IsFirst files file
  find?-IsFirst [] file h = cc
  find?-IsFirst (f ∷ files) file h = elim (Bool-cases (p f)) [
    | inl e ↦
        let same : some f ≡ some file = ground (arith, h, e) in
        record {
          place = 0;
          found = same;
          passes = ground (arith, e, same);
          earlier = λ i other hi lt. absurd (omega arith);
        }
    | inr e ↦
        let ih = find?-IsFirst files file (ground (arith, h, e)) in
        record { place = suc ih.place; found = ih.found; passes = ih.passes; earlier = later e ih }
  ]
    where
      later :
          p f ≡ false
          → (ih : IsFirst files file) → (i : ℕ) (other : HuggingFaceFile)
          → get_elem? (f ∷ files) i ≡ some other
          → i < suc ih.place
          → p other ≡ false
      later e ih zero other hi lt = ground (arith, e, hi)
      later e ih (suc i) other hi lt = ih.earlier i other hi (omega arith)

  find?-none :
      (files : List HuggingFaceFile)
      → find? p files ≡ none
      → (i : ℕ) (other : HuggingFaceFile) → get_elem? files i ≡ some other
      → p other ≡ false
  find?-none [] h i other hi = cc
  find?-none (f ∷ files) h zero other hi = ground (arith, h, hi)
  find?-none (f ∷ files) h (suc i) other hi = find?-none files (ground (arith, h)) i other hi

rank-yes :
    (suffix : Text) (suffixes : List Text) (file : HuggingFaceFile)
    → has_ending suffix file ≡ true
    → rank (suffix ∷ suffixes) file ≡ 0
unfolding rank
rank-yes suffix suffixes file h = rw h refl

rank-no :
    (suffix : Text) (suffixes : List Text) (file : HuggingFaceFile)
    → has_ending suffix file ≡ false
    → rank (suffix ∷ suffixes) file ≡ suc (rank suffixes file)
unfolding rank
rank-no suffix suffixes file h = rw h refl

pick_file-IsFirstBest :
    (suffixes : List Text) (f : HuggingFaceFile) (files : List HuggingFaceFile)
    → (file : HuggingFaceFile) × (pick_file suffixes (f ∷ files) ≡ some file)
      × IsFirstBest suffixes (f ∷ files) file
unfolding pick_file
pick_file-IsFirstBest [] f files = (
  f,
  refl,
  record {
    place = 0;
    found = refl;
    best = λ i other hi. unfold rank in omega arith;
    first = λ i other hi lt. absurd (omega arith);
  },
)
pick_file-IsFirstBest (suffix ∷ suffixes) f files =
    let p = has_ending suffix in
    elim (Option-cases (find? p (f ∷ files))) [
      | inr (file, h) ↦
          let first = find?-IsFirst p (f ∷ files) file h in
          let zero_rank = rank-yes suffix suffixes file first.passes in
          (
            file,
            rw (h, pick_file) refl,
            record {
              place = first.place;
              found = first.found;
              best = λ i other hi. rw zero_rank (omega arith);
              first = λ i other hi lt.
                  rw (zero_rank, rank-no suffix suffixes other (first.earlier i other hi lt))
                    (omega arith);
            },
          )
      | inl h ↦
          let (file, picked, ih) = pick_file-IsFirstBest suffixes f files in
          let none_has = find?-none p (f ∷ files) h in
          let up = rank-no suffix suffixes file (none_has ih.place file ih.found) in
          (
            file,
            rw (h, pick_file) picked,
            record {
              place = ih.place;
              found = ih.found;
              best = λ i other hi.
                  rw (up, rank-no suffix suffixes other (none_has i other hi))
                    (omega (arith, ih.best i other hi));
              first = λ i other hi lt.
                  rw (up, rank-no suffix suffixes other (none_has i other hi))
                    (omega (arith, ih.first i other hi lt));
            },
          )
    ]

is_empty_sound : (t : Text) → is_empty t ≡ true → t ≡ []
is_empty_sound [] h = refl
is_empty_sound (c ∷ t) h = cc

candidate_file-picked :
    (requested : Text) (files : List HuggingFaceFile) (file : HuggingFaceFile)
    → is_empty (trim_space requested) ≡ true
    → pick_file priority_suffixes files ≡ some file
    → candidate_file requested files ≡ trim_space file.rfilename
unfolding candidate_file
candidate_file-picked requested files file blank h = rw (candidate_file, blank, h) refl

candidate_file-named : (requested : Text) → candidate_file requested [] ≡ trim_space requested
unfolding candidate_file
candidate_file-named requested = elim (Bool-cases (is_empty (trim_space requested))) [
  | inl e ↦
      rw (candidate_file, e)
        (unfold pick_file in
          unfold trim_space in
          unfold trim_by in
          unfold trim_left_by in
          unfold trim_right_by in sym (is_empty_sound (trim_space requested) e))
  | inr e ↦ rw (candidate_file, e) (trim_space_idem requested)
]

-- Without a file that is asked for, a model with files gets the URL that the first of its best files would get if
-- it were asked for by name: best are those whose suffix comes first of .safetensors, .bin, .gguf and .pt, and
-- files without any come last.
pub build_weights_url-best :
    (model_id requested : Text) (f : HuggingFaceFile) (files : List HuggingFaceFile)
    → is_empty (trim_space requested) ≡ true
    → (file : HuggingFaceFile) × IsFirstBest weight_suffixes (f ∷ files) file
      × (build_weights_url model_id requested (f ∷ files)
          ≡ build_weights_url model_id file.rfilename [])
unfolding build_weights_url
build_weights_url-best model_id requested f files blank =
    let (file, picked, best) = pick_file-IsFirstBest priority_suffixes f files in
    let same =
      candidate_file-picked requested (f ∷ files) file blank picked
      ∙ sym (candidate_file-named file.rfilename) in
    (file, best, rw (same, build_weights_url) refl)
