-- ===== src/ModelRegistry/Template.antt =====
-- Templates of the statements in pkg/modelregistry/postgres.go, in which each value stands at its place.
use compute_backend.Prelude.{
  ℕ, zero, suc, ◌+◌, ◌≡◌, refl, sym, ap, List, [], ◌∷◌, ◌++◌, map, append_assoc, arith, ℤ, pos,
  negsuc, length,
}
use compute_backend.Strings.{Text, codes}
use compute_backend.Sql.{Value, text, int, placeholder}
use compute_backend.ModelRegistry.Types.{QueryOptions}
use compute_backend.ModelRegistry.Statements.{base_query}

-- A piece of a statement: text, or a value.
pub data Piece : Type 0 where
  lit : Text → Piece
  hole : Value → Piece

-- The text in which the values are numbered from `n`.
unfoldable pub print : ℕ → List Piece → Text
print n [] = []
print n (lit t ∷ ps) = t ++ print n ps
print n (hole v ∷ ps) = placeholder n ++ print (suc n) ps

unfoldable pub values : List Piece → List Value
values [] = []
values (lit t ∷ ps) = values ps
values (hole v ∷ ps) = v ∷ values ps

-- Values with commas between them.
unfoldable pub commas : List Text → List Piece
commas [] = []
commas (v ∷ []) = hole (text v) ∷ []
commas (v ∷ w ∷ vs) = hole (text v) ∷ lit (codes ",") ∷ commas (w ∷ vs)

unfoldable pub filter_pieces : Text → List Text → List Piece
filter_pieces column vs = lit (column ++ codes " IN (") ∷ (commas vs ++ lit (codes ")") ∷ [])

unfoldable pub where_pieces : List Text → List Text → List Piece
unfolding filter_pieces
where_pieces [] [] = []
where_pieces (s ∷ ss) [] = lit (codes " WHERE ") ∷ filter_pieces (codes "m.status") (s ∷ ss)
where_pieces [] (f ∷ fs) = lit (codes " WHERE ") ∷ filter_pieces (codes "m.family") (f ∷ fs)
where_pieces (s ∷ ss) (f ∷ fs) =
    lit (codes " WHERE ")
    ∷ (filter_pieces (codes "m.status") (s ∷ ss)
        ++ lit (codes " AND ") ∷ filter_pieces (codes "m.family") (f ∷ fs))

unfoldable pub bound_pieces : Text → ℤ → List Piece
bound_pieces keyword (pos zero) = []
bound_pieces keyword (pos (suc n)) = lit keyword ∷ hole (int (pos (suc n))) ∷ []
bound_pieces keyword (negsuc n) = []

unfoldable pub list_pieces : QueryOptions → List Piece
unfolding where_pieces bound_pieces
list_pieces opts =
    lit base_query
    ∷ (where_pieces opts.status opts.family
        ++ (lit (codes " ORDER BY m.created_at DESC")
            ∷ (bound_pieces (codes " LIMIT ") opts.limit
                ++ bound_pieces (codes " OFFSET ") opts.offset)))

pub print-append :
    (n : ℕ) (ps qs : List Piece)
    → print n (ps ++ qs) ≡ print n ps ++ print (n + length (values ps)) qs
unfolding print values
print-append n [] qs = let e : n + 0 ≡ n = omega arith in rw e refl
print-append n (lit t ∷ ps) qs =
    rw (print-append n ps qs)
      (sym (append_assoc t (print n ps) (print (n + length (values ps)) qs)))
print-append n (hole v ∷ ps) qs =
    let e : n + suc (length (values ps)) ≡ suc n + length (values ps) = omega arith in
    rw e (
      rw (print-append (suc n) ps qs) (
        sym (
          append_assoc (placeholder n) (print (suc n) ps) (print (suc n + length (values ps)) qs))))

pub values-append : (ps qs : List Piece) → values (ps ++ qs) ≡ values ps ++ values qs
unfolding values
values-append [] qs = refl
values-append (lit t ∷ ps) qs = values-append ps qs
values-append (hole v ∷ ps) qs = ap (λ t. v ∷ t) (values-append ps qs)

pub values-commas : (vs : List Text) → values (commas vs) ≡ map text vs
unfolding values commas
values-commas [] = refl
values-commas (v ∷ []) = refl
values-commas (v ∷ w ∷ vs) = ap (λ t. text v ∷ t) (values-commas (w ∷ vs))
