-- ===== src/ModelRegistry/Arrays.antt =====
-- `parsePostgresArray` in pkg/modelregistry/postgres.go, against the text that Postgres gives an array.
use compute_backend.Prelude.{
  ◌&&◌, leb, ◌==◌, ℕ, ◌≡◌, refl, ap, ◌∙◌, ◌≢◌, inl, inr, Bool, true, false, ◌||◌, some, List, [],
  ◌∷◌, ◌++◌, map, arith, if◌then◌else◌, Bool-cases, any, All, All-append,
}
use compute_backend.Strings.{Text, codes, is_empty, Lacks}
use compute_backend.Strings.Trim.{
  is_space, in_set, trim_left_by, trim_right_by, trim_by, trim_space, trim, trim_left_by_id,
  trim_right_by-concat, trim_right_by-drops, trim_right_by_none, trim_by-cons,
}
use compute_backend.Strings.Split.{split, join, split-Lacks, split-append}
use compute_backend.Strings.Fold.{equal_fold}
use compute_backend.ModelRegistry.Rows.{array_element, parse_postgres_array}

module _ (p : ℕ → Bool) where
  trim_by_none : (s : Text) → All (λ c. p c ≡ false) s → trim_by p s ≡ s
  unfolding trim_by
  trim_by_none [] h = unfold trim_left_by in unfold trim_right_by in refl
  trim_by_none (c ∷ s) (hc, hs) =
      rw (trim_left_by_id p c s hc) (trim_right_by_none p (c ∷ s) (hc, hs))

  trim_by-concat :
      (s : Text) (d : ℕ) → p d ≡ true → All (λ c. p c ≡ false) s → trim_by p (s ++ d ∷ []) ≡ s
  unfolding trim_by trim_left_by trim_right_by
  trim_by-concat [] d hd h = ground arith
  trim_by-concat (c ∷ s) d hd (hc, hs) =
      rw (trim_left_by_id p c (s ++ d ∷ []) hc)
        (trim_right_by-drops p (c ∷ s) d hd ∙ trim_right_by_none p (c ∷ s) (hc, hs))

  -- A pair of code points around a text is trimmed, and nothing of the text.
  trim_by_enclosed :
      (c d : ℕ) (s : Text)
      → p c ≡ true
      → p d ≡ true
      → All (λ e. p e ≡ false) s
      → trim_by p (c ∷ (s ++ d ∷ [])) ≡ s
  trim_by_enclosed c d s hc hd h = trim_by-cons p c (s ++ d ∷ []) hc ∙ trim_by-concat s d hd h

  trim_by_keeps :
      (c d : ℕ) (s : Text)
      → p c ≡ false
      → p d ≡ false
      → trim_by p (c ∷ (s ++ d ∷ [])) ≡ c ∷ (s ++ d ∷ [])
  unfolding trim_by
  trim_by_keeps c d s hc hd =
      rw (trim_left_by_id p c (s ++ d ∷ []) hc) (trim_right_by-concat p (c ∷ s) d hd)

  is_empty-trim_by : (c : ℕ) (s : Text) → p c ≡ false → is_empty (trim_by p (c ∷ s)) ≡ false
  unfolding trim_by trim_right_by
  is_empty-trim_by c s hc = rw (trim_left_by_id p c s hc) (ground arith)

-- The white space of `array_isspace` in Postgres: the blank, and tab to carriage return.
unfoldable pub is_array_space : ℕ → Bool
is_array_space c = c == 32 || leb 9 c && leb c 13

-- A code point that is none of the array's own, and no white space but that of ASCII.
abbrev pub IsPlain : ℕ → Type 0
IsPlain c =
    (c ≢ b',')
    × (c ≢ b'"')
    × (c ≢ b'{')
    × (c ≢ b'}')
    × (c ≢ b'\\')
    × (is_space c ≡ true → is_array_space c ≡ true)

-- Without one of the array's own code points, Postgres quotes an element that is empty, has white space or is NULL.
unfoldable pub needs_quotes : Text → Bool
unfolding is_array_space
needs_quotes e = is_empty e || any is_array_space e || equal_fold e (codes "null")

-- An element as Postgres prints it.
unfoldable pub element_text : Text → Text
unfolding needs_quotes
element_text e = if needs_quotes e then b'"' ∷ (e ++ b'"' ∷ []) else e

unfoldable pub array_text : List Text → Text
unfolding element_text
array_text es = b'{' ∷ (join (map element_text es) (codes ",") ++ b'}' ∷ [])

no_spaces :
    (e : Text) → All IsPlain e → any is_array_space e ≡ false → All (λ c. is_space c ≡ false) e
no_spaces [] p h = tt
no_spaces (c ∷ e) ((_, _, _, _, _, ascii), p) h = elim (Bool-cases (is_space c)) [
  | inl s ↦ absurd (ground (arith, ascii s))
  | inr n ↦ (n, no_spaces e p (ground arith))
]

no_quotes : (e : Text) → All IsPlain e → All (λ c. in_set (codes "\"") c ≡ false) e
no_quotes [] h = tt
no_quotes (c ∷ e) ((_, hq, _, _, _, _), hs) = (ground arith, no_quotes e hs)

no_braces : (e : Text) → All IsPlain e → All (λ c. in_set (codes "{}") c ≡ false) e
no_braces [] h = tt
no_braces (c ∷ e) ((_, _, ho, hc, _, _), hs) = (ground arith, no_braces e hs)

no_commas : (e : Text) → All IsPlain e → Lacks b',' e
no_commas [] h = tt
no_commas (c ∷ e) ((hk, _, _, _, _, _), hs) = (hk, no_commas e hs)

-- What is read of a printed element.
element_lem : (e : Text) → All IsPlain e → array_element (element_text e) ≡ some e
unfolding array_element element_text needs_quotes trim_space trim
element_lem e h = elim (Bool-cases (needs_quotes e)) [
  | inl q ↦
      rw (q, trim_by_keeps is_space b'"' b'"' e refl refl)
        (ap some (trim_by_enclosed (in_set (codes "\"")) b'"' b'"' e refl refl (no_quotes e h)))
  | inr n ↦
      rw (n, trim_by_none is_space e (no_spaces e h (ground arith)))
        (ap some (trim_by_none (in_set (codes "\"")) e (no_quotes e h)))
]

elements_lem :
    (es : List Text) → All (All IsPlain) es → map array_element (map element_text es) ≡ map some es
elements_lem [] h = refl
elements_lem (e ∷ es) (he, hs) = λ i. element_lem e he i ∷ elements_lem es hs i

commas-element_text : (e : Text) → All IsPlain e → Lacks b',' (element_text e)
unfolding element_text
commas-element_text e h = elim (Bool-cases (needs_quotes e)) [
  | inl q ↦
      rw q (omega arith, All-append (λ d. d ≢ b',') e (b'"' ∷ []) (no_commas e h) (omega arith, tt))
  | inr n ↦ rw n (no_commas e h)
]

braces-element_text :
    (e : Text) → All IsPlain e → All (λ c. in_set (codes "{}") c ≡ false) (element_text e)
unfolding element_text
braces-element_text e h = elim (Bool-cases (needs_quotes e)) [
  | inl q ↦ rw q (
    refl,
    All-append (λ c. in_set (codes "{}") c ≡ false) e (b'"' ∷ []) (no_braces e h) (refl, tt),
  )
  | inr n ↦ rw n (no_braces e h)
]

commas-elements : (es : List Text) → All (All IsPlain) es → All (Lacks b',') (map element_text es)
commas-elements [] h = tt
commas-elements (e ∷ es) (he, hs) = (commas-element_text e he, commas-elements es hs)

split-join :
    (c : ℕ) (p : Text) (ps : List Text)
    → All (Lacks c) (p ∷ ps)
    → split (join (p ∷ ps) (c ∷ [])) c ≡ p ∷ ps
unfolding join
split-join c p [] (hp, _) = split-Lacks p c hp
split-join c p (q ∷ qs) (hp, hs) =
    split-append p (join (q ∷ qs) (c ∷ [])) c hp ∙ ap (λ t. p ∷ t) (split-join c q qs hs)

-- The text between the braces holds none, and begins with no space.
braces-join :
    (es : List Text)
    → All (All IsPlain) es
    → All (λ c. in_set (codes "{}") c ≡ false) (join (map element_text es) (codes ","))
unfolding join
braces-join [] h = tt
braces-join (e ∷ []) (he, _) = braces-element_text e he
braces-join (e ∷ f ∷ es) (he, hs) =
    All-append (λ c. in_set (codes "{}") c ≡ false) (element_text e)
      (codes "," ++ join (map element_text (f ∷ es)) (codes ",")) (braces-element_text e he)
      (refl, braces-join (f ∷ es) hs)

element_text-head :
    (e : Text)
    → All IsPlain e
    → (c : ℕ) × (r : Text) × (element_text e ≡ c ∷ r) × (is_space c ≡ false)
unfolding element_text needs_quotes
element_text-head [] h = (b'"', b'"' ∷ [], refl, refl)
element_text-head (c ∷ e) h = elim (Bool-cases (needs_quotes (c ∷ e))) [
  | inl q ↦ (b'"', c ∷ (e ++ b'"' ∷ []), rw q refl, refl)
  | inr n ↦ (c, e, rw n refl, (no_spaces (c ∷ e) h (ground arith)).0)
]

join-head :
    (e : Text) (es : List Text)
    → All IsPlain e
    → (c : ℕ) × (r : Text) × (join (map element_text (e ∷ es)) (codes ",") ≡ c ∷ r)
      × (is_space c ≡ false)
unfolding join
join-head e [] p = element_text-head e p
join-head e (f ∷ es) p =
    let (c, r, h, hs) = element_text-head e p in
    let rest = codes "," ++ join (map element_text (f ∷ es)) (codes ",") in
    (c, r ++ rest, ap (λ t. t ++ rest) h, hs)

not_blank :
    (e : Text) (es : List Text)
    → All IsPlain e
    → is_empty (trim_space (join (map element_text (e ∷ es)) (codes ","))) ≡ false
unfolding trim_space
not_blank e es p = let (c, r, h, hs) = join-head e es p in rw h (is_empty-trim_by is_space c r hs)

-- Reading the text of an array gives its elements back, where no element has a comma, a quote, a brace, a backslash
-- or white space beyond that of ASCII.
pub parse_postgres_array-array_text :
    (es : List Text) → All (All IsPlain) es → parse_postgres_array (array_text es) ≡ map some es
unfolding parse_postgres_array array_text
parse_postgres_array-array_text [] h =
    unfold join in
    unfold trim in
    unfold trim_by in unfold trim_left_by in unfold trim_right_by in unfold trim_space in refl
parse_postgres_array-array_text (e ∷ es) h =
    let body = join (map element_text (e ∷ es)) (codes ",") in
    let inner : trim (b'{' ∷ (body ++ b'}' ∷ [])) (codes "{}") ≡ body =
      unfold trim in
      trim_by_enclosed (in_set (codes "{}")) b'{' b'}' body refl refl (braces-join (e ∷ es) h) in
    let commas : All (Lacks b',') (map element_text (e ∷ es)) = commas-elements (e ∷ es) h in
    rw (inner, not_blank e es h.0, split-join b',' (element_text e) (map element_text es) commas)
      (elements_lem (e ∷ es) h)
