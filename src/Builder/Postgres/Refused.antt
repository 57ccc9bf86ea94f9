-- ===== src/Builder/Postgres/Refused.antt =====
-- The INSERT of `Create` in pkg/builder/postgres_store.go on a database that refuses a statement with more values
-- than columns.
use compute_backend.Prelude.{
  suc, Option, none, ◌&&◌, not, any, take, drop, if◌then◌else◌, ℕ, ◌<◌, ◌≡◌, refl, Bool, false,
  some, List, [], ◌∷◌, ◌++◌, arith, err, Time, length,
}
use compute_backend.Strings.{Text, codes, text_eq}
use compute_backend.Strings.Affix.{after_prefix, has_prefix}
use compute_backend.Strings.Trim.{in_set, trim_space}
use compute_backend.Strings.Search.{index}
use compute_backend.Strings.Split.{split}
use compute_backend.Sql.{Value, text}
use compute_backend.Builder.Types.{Build, CreateRequest}
use compute_backend.Builder.Service.{
  World, accepted, not_found, handle_create_build, handle_get_build, is_incomplete, queued_build,
}
use compute_backend.Builder.Service.Lifecycle.{build_for}
use compute_backend.Builder.Postgres.{
  Driver, insert_build, build_values, select_builds, postgres_store, pg_create, pg_get,
}

-- The text in front of the first of a code point, and what stands behind that.
unfoldable pub cut_at : ℕ → Text → Option (Text × Text)
unfolding index
cut_at c t = elim (index t (c ∷ [])) [ none ↦ none | some i ↦ some (take i t, drop (suc i) t) ]

-- The lists of columns and of values with what is between them; `none` for a text that is no INSERT of one row, or
-- whose lists have a quote or a parenthesis.
abbrev pub counted : Text → Text → Text → Option (ℕ × ℕ)
counted columns between values =
    if text_eq (trim_space between) (codes "VALUES")
      && not (any (in_set (codes "(\"'")) (columns ++ values))
    then some (length (split columns b','), length (split values b','))
    else none

-- How many columns an INSERT of one row names, and how many values it has.
unfoldable pub insert_shape : Text → Option (ℕ × ℕ)
unfolding cut_at
insert_shape statement =
    if has_prefix statement (codes "INSERT INTO ")
    then elim (cut_at b'(' statement) [
      | none ↦ none
      | some (table, listed) ↦ elim (cut_at b')' listed) [
        | none ↦ none
        | some (columns, later) ↦ elim (cut_at b'(' later) [
          | none ↦ none
          | some (between, rest) ↦ elim (cut_at b')' rest) [
            | none ↦ none
            | some (values, end) ↦ counted columns between values
          ]
        ]
      ]
    ]
    else none

-- What Postgres documents of INSERT: one with more values than columns is an error; and of a query for one row: without
-- one there is an error.
pub record DriverLaws {D : Type 0} (driver : Driver D) (has_build : Text → D → Bool) : Type 0 where
  pub refusal : Text → Text
  pub insert_refused :
      (statement : Text) (columns values : ℕ) (args : List Value) (d : D)
      → insert_shape statement ≡ some (columns, values)
      → columns < values
      → driver.exec statement args d ≡ (some (refusal statement), d)
  pub no_row : Text
  pub select_lem :
      (id : Text) (d : D)
      → has_build id d ≡ false
      → driver.query_build (select_builds ++ codes " WHERE id=$1") (text id ∷ []) d ≡ err no_row

-- Eleven values for ten columns.
insert_build_shape : insert_shape insert_build ≡ some (10, 11)
unfolding insert_shape cut_at index has_prefix after_prefix split trim_space text_eq
insert_build_shape = refl

module _ {D : Type 0} (driver : Driver D) {has_build : Text → D → Bool}
    (laws : DriverLaws driver has_build) where
  pg_create_refused :
      (now : D → Time) (b : Build) (d : D)
      → pg_create driver now b d ≡ (some (laws.refusal insert_build), d)
  unfolding pg_create
  pg_create_refused now b d =
      laws.insert_refused insert_build 10 11 (build_values b) d insert_build_shape (omega arith)

  -- With Postgres configured, a request that is complete is answered by its build, of which the database then
  -- holds nothing: it is as before, and reading a build with a new id is answered by an error.
  pub create_build-not_found :
      (now : D → Time) (clock : ℕ → Time) (getenv path_escape : Text → Text) (id : Text)
      (p : CreateRequest) (w : World D)
      → let store = some (postgres_store driver now) in
        is_incomplete store clock getenv path_escape p ≡ false
        → has_build id w.db ≡ false
        → let r = handle_create_build store clock getenv path_escape id (some p) w in
          (r.0 ≡ accepted (build_for id (clock w.ticks) p))
          × (r.1.db ≡ w.db)
          × (handle_get_build store clock getenv path_escape id r.1 ≡ not_found laws.no_row)
  unfolding handle_create_build handle_get_build pg_get
  create_build-not_found now clock getenv path_escape id p w whole new =
      let store = some (postgres_store driver now) in
      let b = queued_build store clock getenv path_escape id (clock w.ticks) p in
      rw
        (
          whole,
          handle_create_build,
          pg_create_refused now b w.db,
          handle_get_build,
          laws.select_lem id w.db new,
          pg_get,
        )
        (refl, refl, refl)
