-- ===== src/ModelRegistry/Placeholders.antt =====
-- The statements that pkg/modelregistry/postgres.go builds, against templates in which each value stands at its place.
use compute_backend.Prelude.{
  ℕ, zero, suc, ◌+◌, ◌≡◌, refl, sym, ap, ◌∙◌, List, [], ◌∷◌, ◌++◌, map, append_assoc, append-nil,
  arith, ℤ, pos, negsuc, length, length-append,
}
use compute_backend.Strings.{Text, codes}
use compute_backend.Strings.Split.{join}
use compute_backend.Sql.{Value, text, int, placeholder}
use compute_backend.ModelRegistry.Types.{QueryOptions}
use compute_backend.ModelRegistry.Statements.{base_query}
use compute_backend.ModelRegistry.Queries.{
  Building, start, bind_all, filter_clause, bound_clause, where_clause, list_query,
}
use compute_backend.ModelRegistry.Template.{
  Piece, lit, print, values, commas, filter_pieces, where_pieces, bound_pieces, list_pieces,
  print-append, values-append, values-commas,
}

-- The loop numbers what the template numbers.
bind_all_lem :
    (vs : List Text) (args : List Value) (n : ℕ)
    → (join (bind_all vs args n).0 (codes ",") ≡ print n (commas vs))
      × ((bind_all vs args n).1 ≡ args ++ map text vs)
      × ((bind_all vs args n).2 ≡ n + length vs)
unfolding bind_all join print commas
bind_all_lem [] args n = (refl, sym (append-nil args), omega arith)
bind_all_lem (v ∷ []) args n = (sym (append-nil (placeholder n)), refl, omega arith)
bind_all_lem (v ∷ w ∷ vs) args n =
    let (ih, ia, ii) = bind_all_lem (w ∷ vs) (args ++ text v ∷ []) (suc n) in
    (
      ap (λ t. placeholder n ++ (codes "," ++ t)) ih,
      ia ∙ append_assoc args (text v ∷ []) (map text (w ∷ vs)),
      omega (arith, ii),
    )

filter_text :
    (column : Text) (v : Text) (vs : List Text) (args : List Value) (n : ℕ)
    → column ++ codes " IN (" ++ join (bind_all (v ∷ vs) args n).0 (codes ",") ++ codes ")"
      ≡ print n (filter_pieces column (v ∷ vs))
unfolding filter_pieces
filter_text column v vs args n = rw (bind_all_lem (v ∷ vs) args n).0 (
    unfold print in
    rw (print-append n (commas (v ∷ vs)) (lit (codes ")") ∷ []))
      (append_assoc (column ++ codes " IN (") (print n (commas (v ∷ vs))) (codes ")")))

values-filter_pieces :
    (column : Text) (vs : List Text) → values (filter_pieces column vs) ≡ map text vs
unfolding filter_pieces
values-filter_pieces column vs =
    unfold values in
    rw (values-append (commas vs) (lit (codes ")") ∷ []))
      (append-nil (values (commas vs)) ∙ values-commas vs)

length-map_text : (vs : List Text) → length (map text vs) ≡ length vs
length-map_text [] = refl
length-map_text (v ∷ vs) = ap suc (length-map_text vs)

-- What pieces add to the variables of the function, joined to one clause.
unfoldable extended : Building → List Piece → Building
extended b ps = record {
  clauses = b.clauses ++ print b.idx ps ∷ [];
  args = b.args ++ values ps;
  idx = b.idx + length (values ps);
}

filter_clause_lem :
    (column v : Text) (vs : List Text) (b : Building)
    → filter_clause column (v ∷ vs) b ≡ extended b (filter_pieces column (v ∷ vs))
unfolding filter_clause extended
filter_clause_lem column v vs b =
    let (_, ea, ei) = bind_all_lem (v ∷ vs) b.args b.idx in
    let ev = sym (values-filter_pieces column (v ∷ vs)) in
    let args = ea ∙ ap (λ t. b.args ++ t) ev in
    let idx = ei ∙ ap (λ t. b.idx + t) (sym (length-map_text (v ∷ vs)) ∙ ap (λ t. length t) ev) in
    λ i. record {
      clauses = b.clauses ++ filter_text column v vs b.args b.idx i ∷ [];
      args = args i;
      idx = idx i;
    }

-- What a bound adds to the query.
bound_clause_lem :
    (keyword : Text) (n : ℤ) (query : Text) (args : List Value) (idx : ℕ)
    → bound_clause keyword n (query, args, idx) ≡ (
      query ++ print idx (bound_pieces keyword n),
      args ++ values (bound_pieces keyword n),
      idx + length (values (bound_pieces keyword n)),
    )
unfolding bound_clause bound_pieces print values
bound_clause_lem keyword (pos zero) query args idx =
    let e : idx ≡ idx + 0 = omega arith in
    λ i. (sym (append-nil query) i, sym (append-nil args) i, e i)
bound_clause_lem keyword (negsuc n) query args idx =
    let e : idx ≡ idx + 0 = omega arith in
    λ i. (sym (append-nil query) i, sym (append-nil args) i, e i)
bound_clause_lem keyword (pos (suc n)) query args idx =
    let e : suc idx ≡ idx + 1 = omega arith in
    let q : query ++ keyword ++ placeholder idx ≡ query ++ (keyword ++ (placeholder idx ++ [])) =
      append_assoc query keyword (placeholder idx)
      ∙ ap (λ t. query ++ (keyword ++ t)) (sym (append-nil (placeholder idx))) in
    λ i. (q i, args ++ int (pos (suc n)) ∷ [], e i)

-- The clauses of the filters and their arguments.
abbrev filtered : List Text → List Text → Building
filtered ss fs = filter_clause (codes "m.family") fs (filter_clause (codes "m.status") ss start)

filter_clause-nil : (column : Text) (b : Building) → filter_clause column [] b ≡ b
unfolding filter_clause
filter_clause-nil column b = refl

filtered_lem :
    (ss fs : List Text)
    → (where_clause (filtered ss fs).clauses ≡ print 1 (where_pieces ss fs))
      × ((filtered ss fs).args ≡ values (where_pieces ss fs))
      × ((filtered ss fs).idx ≡ 1 + length (values (where_pieces ss fs)))
unfolding where_clause where_pieces extended print values
filtered_lem [] [] =
    rw (filter_clause-nil (codes "m.status") start, filter_clause-nil (codes "m.family") start)
      (refl, refl, refl)
filtered_lem (s ∷ ss) [] =
    rw
      (
        filter_clause_lem (codes "m.status") s ss start,
        filter_clause-nil (codes "m.family")
            (extended start (filter_pieces (codes "m.status") (s ∷ ss))),
      )
      (unfold join in (refl, refl, refl))
filtered_lem [] (f ∷ fs) =
    rw (filter_clause-nil (codes "m.status") start, filter_clause_lem (codes "m.family") f fs start)
      (unfold join in (refl, refl, refl))
filtered_lem (s ∷ ss) (f ∷ fs) =
    rw
      (
        filter_clause_lem (codes "m.status") s ss start,
        filter_clause_lem (codes "m.family") f fs
            (extended start (filter_pieces (codes "m.status") (s ∷ ss))),
      )
      (let p = filter_pieces (codes "m.status") (s ∷ ss) in
        let q = filter_pieces (codes "m.family") (f ∷ fs) in
        let all = values-append p (lit (codes " AND ") ∷ q) in
        (
          unfold join in
              ap (λ t. codes " WHERE " ++ t) (sym (print-append 1 p (lit (codes " AND ") ∷ q))),
          sym all,
          omega (arith, ap (λ t. length t) all, length-append (values p) (values q)),
        ))

-- Limit and offset behind a query.
bounds_lem :
    (limit offset : ℤ) (query : Text) (args : List Value) (idx : ℕ)
    → let ps = bound_pieces (codes " LIMIT ") limit ++ bound_pieces (codes " OFFSET ") offset in
      let r =
        bound_clause
          (codes " OFFSET ")
          offset
          (bound_clause (codes " LIMIT ") limit (query, args, idx)) in
      ◌≡◌ {A = Text × List Value} (r.0, r.1) (query ++ print idx ps, args ++ values ps)
bounds_lem limit offset query args idx =
    let l = bound_pieces (codes " LIMIT ") limit in
    let o = bound_pieces (codes " OFFSET ") offset in
    let n = idx + length (values l) in
    rw
      (
        bound_clause_lem (codes " LIMIT ") limit query args idx,
        bound_clause_lem (codes " OFFSET ") offset (query ++ print idx l) (args ++ values l) n,
        print-append idx l o,
        values-append l o,
      )
      (λ i.
        (append_assoc query (print idx l) (print n o) i, append_assoc args (values l) (values o) i))

-- The text up to the order of the rows, in front of the bounds.
numbered_lem :
    (base order query : Text) (ws ps : List Piece)
    → query ≡ print 1 ws
    → base ++ query ++ order ++ print (1 + length (values ws)) ps
      ≡ print 1 (lit base ∷ (ws ++ lit order ∷ ps))
unfolding print values
numbered_lem base order query ws ps h =
    rw (h, print-append 1 ws (lit order ∷ ps))
      (let rest = order ++ print (1 + length (values ws)) ps in
        append_assoc (base ++ print 1 ws) order (print (1 + length (values ws)) ps)
        ∙ append_assoc base (print 1 ws) rest)

values_lem :
    (base order : Text) (ws ps : List Piece)
    → values (lit base ∷ (ws ++ lit order ∷ ps)) ≡ values ws ++ values ps
unfolding values
values_lem base order ws ps = values-append ws (lit order ∷ ps)

-- ListModels sends the template with its values numbered from 1: each placeholder stands where its value belongs.
pub list_query-numbered :
    (opts : QueryOptions)
    → list_query opts ≡ (print 1 (list_pieces opts), values (list_pieces opts))
unfolding list_query list_pieces
list_query-numbered opts =
    let (ec, ea, ei) = filtered_lem opts.status opts.family in
    let ws = where_pieces opts.status opts.family in
    let ps =
      bound_pieces (codes " LIMIT ") opts.limit ++ bound_pieces (codes " OFFSET ") opts.offset in
    let order = codes " ORDER BY m.created_at DESC" in
    let query = where_clause (filtered opts.status opts.family).clauses in
    let text_lem =
      ap (λ k. base_query ++ query ++ order ++ print k ps) ei
      ∙ numbered_lem base_query order query ws ps ec in
    let args_lem = ap (λ t. t ++ values ps) ea ∙ sym (values_lem base_query order ws ps) in
    let b = filtered opts.status opts.family in
    bounds_lem opts.limit opts.offset (base_query ++ where_clause b.clauses ++ order) b.args b.idx
    ∙ (λ i. (text_lem i, args_lem i))
