-- ===== src/ModelRegistry/Migrations.antt =====
-- `EnsureSchema` in pkg/modelregistry/postgres.go: the embedded migrations in the order of their names, in one
-- transaction. The embedded files, the transaction and `sort.Strings` are arguments.
use compute_backend.Prelude.{
  ◌≡◌, refl, sym, ap, ◌∙◌, ◌⊎◌, inl, inr, Bool, Option, none, some, List, [], ◌∷◌, ◌++◌, arith,
  ◌&&◌, not, ltb, ◌==◌, map, All, true, false, Bool-cases, if◌then◌else◌, Result, ok, err,
  Option-cases, Result-cases,
}
use mathlib.Core.List.{Perm}
use compute_backend.Strings.{Text, codes, is_empty}
use compute_backend.Strings.Affix.{has_suffix}
use compute_backend.Strings.Trim.{trim_space}

pub record Transactions (D T : Type 0) : Type 0 where
  pub begin : D → Result Text T × D
  pub exec : Text → T → Option Text × T
  pub commit : T → D → Option Text × D
  pub rollback : T → D → D

-- The loop over the entries.
unfoldable pub migration_names : List (Text × Bool) → List Text
migration_names [] = []
migration_names ((name, is_dir) ∷ entries) =
    let rest = migration_names entries in
    if is_dir then rest else if has_suffix name (codes ".sql") then name ∷ rest else rest

-- Texts in the order of their code points, which is that of their bytes.
unfoldable pub text_le : Text → Text → Bool
text_le [] t = true
text_le (c ∷ s) [] = false
text_le (c ∷ s) (d ∷ t) = let rest = text_le s t in if c == d then rest else ltb c d

abbrev pub IsSorted : List Text → Type 0
IsSorted [] = Unit
IsSorted (t ∷ ts) = All (λ u. text_le t u ≡ true) ts × IsSorted ts

-- What `sort.Strings` promises: the same texts, in order.
pub record SortLaws (sort_strings : List Text → List Text) : Type 0 where
  pub permutes : (ts : List Text) → Perm (sort_strings ts) ts
  pub sorts : (ts : List Text) → IsSorted (sort_strings ts)

abbrev pub filter : ((Text × Bool) → Bool) → List (Text × Bool) → List (Text × Bool)
filter p [] = []
filter p (entry ∷ entries) = let rest = filter p entries in if p entry then entry ∷ rest else rest

-- The files of a directory whose names end in ".sql".
unfoldable pub sql_files : List (Text × Bool) → List Text
sql_files entries =
    map (λ entry. entry.0)
      (filter (λ entry. not entry.1 && has_suffix entry.0 (codes ".sql")) entries)

migration_names_lem : (entries : List (Text × Bool)) → migration_names entries ≡ sql_files entries
unfolding migration_names sql_files
migration_names_lem [] = refl
migration_names_lem ((name, is_dir) ∷ entries) = elim (Bool-cases is_dir) [
  | inl h ↦ ground (arith, h, migration_names_lem entries)
  | inr h ↦ elim (Bool-cases (has_suffix name (codes ".sql"))) [
    | inl e ↦ ground (arith, h, e, migration_names_lem entries)
    | inr e ↦ ground (arith, h, e, migration_names_lem entries)
  ]
]

module _ {D T : Type 0} (read_file : Text → Result Text Text) (sort_strings : List Text → List Text)
    (tx : Transactions D T) where
  -- The loop over the names.
  unfoldable pub apply_all : List Text → T → Option Text × T
  apply_all [] t = (none, t)
  apply_all (name ∷ names) t = elim (read_file (codes "migrations/" ++ name)) [
    | err e ↦ (some (codes "read migration " ++ name ++ codes ": " ++ e), t)
    | ok payload ↦
        let sql = trim_space payload in
        if is_empty sql then apply_all names t else elim (tx.exec sql t).0 [
          | some e ↦ (some (codes "apply migration " ++ name ++ codes ": " ++ e), (tx.exec sql t).1)
          | none ↦ apply_all names (tx.exec sql t).1
        ]
  ]

  -- The deferred rollback comes last on every way out.
  unfoldable pub in_transaction : List Text → D → Option Text × D
  unfolding apply_all
  in_transaction names d =
      let (begun, after) = tx.begin d in
      elim begun [
        | err e ↦ (some (codes "begin migration tx: " ++ e), after)
        | ok t ↦
            let (failure, done) = apply_all names t in
            elim failure [
              | some e ↦ (some e, tx.rollback done after)
              | none ↦
                  let (refused, committed) = tx.commit done after in
                  elim refused [
                    | some e ↦ (some (codes "commit migrations: " ++ e), tx.rollback done committed)
                    | none ↦ (none, tx.rollback done committed)
                  ]
            ]
      ]

  -- The first argument is what `ReadDir` answers: each entry with whether it is a directory.
  unfoldable pub ensure_schema : Result Text (List (Text × Bool)) → D → Option Text × D
  ensure_schema (err e) d = (some (codes "read migrations: " ++ e), d)
  ensure_schema (ok entries) d = in_transaction (sort_strings (migration_names entries)) d

  -- What the transaction promises of the contents of the database, and what a text of SQL does to them.
  pub record TransactionLaws {C : Type 0} (contents : D → C) (inside : T → C)
      (run : Text → C → Option C) : Type 0 where
    pub begin_lem : (d : D) → contents (tx.begin d).1 ≡ contents d
    pub begin_inside : (d : D) (t : T) → (tx.begin d).0 ≡ ok t → inside t ≡ contents d
    pub exec_lem :
        (sql : Text) (t : T)
        → (tx.exec sql t).0 ≡ none
        → run sql (inside t) ≡ some (inside (tx.exec sql t).1)
    pub commit_lem :
        (t : T) (d : D) → (tx.commit t d).0 ≡ none → contents (tx.commit t d).1 ≡ inside t
    pub commit_refused :
        (t : T) (d : D) (e : Text)
        → (tx.commit t d).0 ≡ some e
        → contents (tx.commit t d).1 ≡ contents d
    pub rollback_lem : (t : T) (d : D) → contents (tx.rollback t d) ≡ contents d

  -- The migrations, one after the other.
  unfoldable pub migrate : {C : Type 0} → (Text → C → Option C) → List Text → C → Option C
  migrate run [] c = some c
  migrate run (name ∷ names) c = elim (read_file (codes "migrations/" ++ name)) [
    | err e ↦ none
    | ok payload ↦
        let sql = trim_space payload in
        if is_empty sql
        then migrate run names c
        else elim (run sql c) [ none ↦ none | some after ↦ migrate run names after ]
  ]

  module _ {C : Type 0} {contents : D → C} {inside : T → C} {run : Text → C → Option C}
      (laws : TransactionLaws contents inside run) where
    apply_all_lem :
        (names : List Text) (t : T)
        → (apply_all names t).0 ≡ none
        → migrate run names (inside t) ≡ some (inside (apply_all names t).1)
    unfolding apply_all migrate
    apply_all_lem [] t h = refl
    apply_all_lem (name ∷ names) t h =
        elim (Result-cases (read_file (codes "migrations/" ++ name))) [
          | inr (e, he) ↦ ground (arith, he)
          | inl (payload, hp) ↦
              let sql = trim_space payload in
              ground (
                arith,
                hp,
                laws.exec_lem sql t,
                apply_all_lem names t,
                apply_all_lem names (tx.exec sql t).1,
              )
        ]

    Outcome : List Text → D → Option Text × D → Type 0
    Outcome names d r =
        ((r.0 ≡ none) × (migrate run names (contents d) ≡ some (contents r.1)))
        ⊎ ((e : Text) × (r.0 ≡ some e) × (contents r.1 ≡ contents d))

    in_transaction_lem : (names : List Text) (d : D) → Outcome names d (in_transaction names d)
    unfolding Outcome in_transaction
    in_transaction_lem names d =
        let d' = (tx.begin d).1 in
        elim (Result-cases (tx.begin d).0) [
          | inr (e, he) ↦
              rw (he, in_transaction)
                (inr (codes "begin migration tx: " ++ e, refl, laws.begin_lem d))
          | inl (t, ht) ↦
              let done = (apply_all names t).1 in
              elim (Option-cases (apply_all names t).0) [
                | inr (e, he) ↦
                    rw (ht, he, in_transaction)
                      (inr (e, refl, laws.rollback_lem done d' ∙ laws.begin_lem d))
                | inl applied ↦
                    let d'' = (tx.commit done d').1 in
                    elim (Option-cases (tx.commit done d').0) [
                      | inr (e, he) ↦
                          rw (ht, applied, he, in_transaction)
                            (inr (
                              codes "commit migrations: " ++ e,
                              refl,
                              laws.rollback_lem done d''
                                  ∙ laws.commit_refused done d' e he
                                  ∙ laws.begin_lem d,
                            ))
                      | inl committed ↦
                          rw (ht, applied, committed, in_transaction)
                            (inl (
                              refl,
                              ap (λ c. migrate run names c) (sym (laws.begin_inside d t ht))
                                  ∙ apply_all_lem names t applied
                                  ∙ ap (λ c. some c)
                                      (sym (
                                        laws.rollback_lem done d''
                                        ∙ laws.commit_lem done d' committed)),
                            ))
                    ]
              ]
        ]

    -- EnsureSchema reads the directory and applies the migrations in it, which are the files whose names end in
    -- ".sql", each once and in the order of their names, and answers without an error; or it answers with one and leaves
    -- the database as it was.
    pub ensure_schema-atomic :
        (listing : Result Text (List (Text × Bool))) (d : D)
        → SortLaws sort_strings
        → let r = ensure_schema listing d in
          ((entries : List (Text × Bool)) × (names : List Text) × (listing ≡ ok entries)
            × Perm names (sql_files entries)
            × IsSorted names
            × (r.0 ≡ none)
            × (migrate run names (contents d) ≡ some (contents r.1)))
          ⊎ ((e : Text) × (r.0 ≡ some e) × (contents r.1 ≡ contents d))
    unfolding Outcome ensure_schema
    ensure_schema-atomic (err e) d sorting = inr (codes "read migrations: " ++ e, refl, refl)
    ensure_schema-atomic (ok entries) d sorting =
        let names = sort_strings (migration_names entries) in
        elim (in_transaction_lem names d) [
          | inr failed ↦ inr failed
          | inl (fine, applied) ↦ inl (
            entries,
            names,
            refl,
            rw (← migration_names_lem entries) (sorting.permutes (migration_names entries)),
            sorting.sorts (migration_names entries),
            fine,
            applied,
          )
        ]
