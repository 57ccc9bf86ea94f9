-- ===== src/ModelRegistry/Queries.antt =====
-- The statements that `ListModels` and `UpdateVersionRunnerConfig` build: each value is appended to the arguments
-- as its placeholder is printed, and `idx` is the number of the next one.
use compute_backend.Prelude.{
  ℕ, zero, suc, Option, none, some, List, [], ◌∷◌, ◌++◌, if◌then◌else◌, Result, ok, err, ℤ, pos,
  negsuc, Time,
}
use compute_backend.Strings.{Text, codes, is_empty}
use compute_backend.Strings.Trim.{trim_space}
use compute_backend.Strings.Split.{join}
use compute_backend.Sql.{Value, text, int, time, bytes, placeholder, Error, failed}
use compute_backend.ModelRegistry.Types.{QueryOptions, UpdateRunnerConfigInput}
use compute_backend.ModelRegistry.Rows.{Json, nullable_string}
use compute_backend.ModelRegistry.Statements.{
  base_query, update_version, where_model, and_version, returning_version,
}

-- The variables of the function.
pub record Building : Type 0 where
  pub clauses : List Text
  pub args : List Value
  pub idx : ℕ

abbrev pub start : Building
start = record { clauses = []; args = []; idx = 1 }

-- The loop over the values of a filter: their placeholders, the arguments and the next number.
unfoldable pub bind_all : List Text → List Value → ℕ → List Text × List Value × ℕ
bind_all [] args idx = ([], args, idx)
bind_all (v ∷ vs) args idx =
    let (placeholders, args', idx') = bind_all vs (args ++ text v ∷ []) (suc idx) in
    (placeholder idx ∷ placeholders, args', idx')

unfoldable pub filter_clause : Text → List Text → Building → Building
unfolding bind_all
filter_clause column [] b = b
filter_clause column (v ∷ vs) b =
    let (placeholders, args, idx) = bind_all (v ∷ vs) b.args b.idx in
    record {
      clauses =
          b.clauses ++ (column ++ codes " IN (" ++ join placeholders (codes ",") ++ codes ")") ∷ [];
      args = args;
      idx = idx;
    }

-- The tail of the query that a positive number extends.
unfoldable pub bound_clause : Text → ℤ → Text × List Value × ℕ → Text × List Value × ℕ
bound_clause keyword (pos zero) (query, args, idx) = (query, args, idx)
bound_clause keyword (pos (suc n)) (query, args, idx) =
    (query ++ keyword ++ placeholder idx, args ++ int (pos (suc n)) ∷ [], suc idx)
bound_clause keyword (negsuc n) (query, args, idx) = (query, args, idx)

unfoldable pub where_clause : List Text → Text
where_clause [] = []
where_clause (c ∷ cs) = codes " WHERE " ++ join (c ∷ cs) (codes " AND ")

unfoldable pub list_query : QueryOptions → Text × List Value
unfolding filter_clause where_clause bound_clause
list_query opts =
    let b =
      filter_clause (codes "m.family") opts.family
        (filter_clause (codes "m.status") opts.status start) in
    let query = base_query ++ where_clause b.clauses ++ codes " ORDER BY m.created_at DESC" in
    let (query', args, idx) =
      bound_clause (codes " OFFSET ") opts.offset
        (bound_clause (codes " LIMIT ") opts.limit (query, b.args, b.idx)) in
    (query', args)

-- One clause of the update, with its value.
unfoldable pub set_clause : Text → Value → Building → Building
set_clause column value b = record {
  clauses = b.clauses ++ (column ++ codes " = " ++ placeholder b.idx) ∷ [];
  args = b.args ++ value ∷ [];
  idx = suc b.idx;
}

module _ {Object : Type 0} (json : Json Object) where
  unfoldable pub set_image : Option Text → Building → Result Error Building
  unfolding set_clause
  set_image none b = ok b
  set_image (some image) b =
      let trimmed = trim_space image in
      if is_empty trimmed
      then err (failed (codes "runner_image cannot be empty"))
      else ok (set_clause (codes "runner_image") (text trimmed) b)

  unfoldable pub set_family : Option Text → Building → Building
  unfolding set_clause
  set_family none b = b
  set_family (some family) b = set_clause (codes "runner_family") (nullable_string (some family)) b

  unfoldable pub set_object : Text → Text → Option Object → Building → Result Error Building
  unfolding set_clause
  set_object column context none b = ok b
  set_object column context (some object) b = elim (json.marshal object) [
    | err e ↦ err (failed (context ++ e))
    | ok raw ↦ ok (set_clause column (bytes raw) b)
  ]

  unfoldable pub set_clauses : UpdateRunnerConfigInput Object → Result Error Building
  unfolding set_image set_family set_object
  set_clauses input = elim (set_image input.runner_image start) [
    | err e ↦ err e
    | ok b ↦
        elim (set_object (codes "runner_manifest") (codes "marshal runner manifest: ")
          input.runner_manifest (set_family input.runner_family b)) [
            | err e ↦ err e
            | ok c ↦
                set_object (codes "default_parameters") (codes "marshal default parameters: ")
                  input.default_parameters c
          ]
  ]

-- The statement, with the time of the update and the two ids behind the clauses.
unfoldable pub update_statement : Building → Time → Text → Text → Text × List Value
unfolding set_clause
update_statement b now model_id version_id =
    let c = set_clause (codes "updated_at") (time now) b in
    let query =
      update_version
      ++ join c.clauses (codes ", ")
      ++ where_model
      ++ placeholder c.idx
      ++ and_version
      ++ placeholder (suc c.idx)
      ++ returning_version in
    (query, c.args ++ (text model_id ∷ text version_id ∷ []))
