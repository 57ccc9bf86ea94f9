-- ===== src/ModelRegistry/Tests.antt =====
-- The registry on tables in memory, at small inputs.
use compute_backend.Prelude.{
  not, ltb, ◌≡◌, refl, ◌⊎◌, Bool, true, false, ◌||◌, none, some, List, [], ◌∷◌, ◌++◌, map, arith,
  ◌==◌, if◌then◌else◌, Result, ok, pos, All,
}
use compute_backend.Strings.{Text, codes}
use compute_backend.Strings.Affix.{has_suffix}
use compute_backend.Strings.Trim.{trim_space, trim}
use compute_backend.Strings.Split.{split}
use compute_backend.Maps.{lookup}
use compute_backend.ModelRegistry.Types.{CreateModelInput, CreateVersionInput, QueryOptions}
use compute_backend.ModelRegistry.Rows.{parse_postgres_array}
use compute_backend.ModelRegistry.Store.{create_model, create_version, promote_version, get_model}
use compute_backend.ModelRegistry.Queries.{list_query}
use compute_backend.ModelRegistry.Placeholders.{list_query-numbered}
use compute_backend.ModelRegistry.Template.{list_pieces, print, values}
use compute_backend.ModelRegistry.Arrays.{
  IsPlain, is_array_space, array_text, parse_postgres_array-array_text,
}
use compute_backend.ModelRegistry.Tables.{Tables}
use compute_backend.ModelRegistry.Publish.{publish-get_model, published}
use compute_backend.ModelRegistry.Memory.{
  json, memory, json_laws, memory_laws, query_model, migration_text, statements, statements_laws,
}
use mathlib.Core.List.{Perm}
use compute_backend.ModelRegistry.Sorting.{sort_strings, sort_strings_laws}
use compute_backend.ModelRegistry.Migrations.{
  ensure_schema, in_transaction, migration_names, ensure_schema-atomic, migrate, sql_files,
  IsSorted,
}

abbrev options : QueryOptions
options = record {
  status = codes "READY" ∷ codes "DRAFT" ∷ [];
  family = codes "flux" ∷ [];
  limit = pos 10;
  offset = pos 20;
}

list_query-numbered_example :
    list_query options ≡ (print 1 (list_pieces options), values (list_pieces options))
list_query-numbered_example = list_query-numbered options

is_plain : Text → Bool
is_plain [] = true
is_plain (c ∷ e) =
    let rest = is_plain e in
    if c == b',' || c == b'"' || c == b'{' || c == b'}' || c == b'\\' || not (ltb c 128)
    then false
    else rest

is_plain_lem : (e : Text) → is_plain e ≡ true → All IsPlain e
unfolding is_plain is_array_space
is_plain_lem [] h = tt
is_plain_lem (c ∷ e) h = (
  (ground arith, ground arith, ground arith, ground arith, ground arith, λ s. ground arith),
  is_plain_lem e (ground arith),
)

abbrev capabilities : List Text
capabilities = codes "lora" ∷ codes "in paint" ∷ []

parse_postgres_array-array_text_example :
    parse_postgres_array (array_text capabilities) ≡ map some capabilities
unfolding is_plain
parse_postgres_array-array_text_example =
    parse_postgres_array-array_text capabilities
      (is_plain_lem (codes "lora") refl, (is_plain_lem (codes "in paint") refl, tt))

-- An element with a comma is read as two.
split_element : parse_postgres_array (codes "{\"a,b\"}") ≡ some (codes "a") ∷ some (codes "b") ∷ []
unfolding parse_postgres_array trim_space trim split
split_element = refl

abbrev flux : CreateModelInput Text
flux = record {
  external_id = codes " flux ";
  display_name = codes "Flux";
  family = codes "flux";
  description = [];
  metadata = none;
}

abbrev flux_version : CreateVersionInput Text
flux_version = record {
  version = codes "1";
  runner_image = codes "img ";
  runner_family = some (codes " ");
  runner_manifest = none;
  default_parameters = none;
  weights_uri = some (codes "hf://flux");
  min_gpu_mem_gb = some (pos 24);
  min_vram_gb = none;
  max_batch_size = none;
  parameters = none;
  capabilities = capabilities;
  latency_tier = none;
  artifact_uri = none;
  status = [];
}

abbrev no_tables : Tables
no_tables = record { models = []; versions = [] }

abbrev with_flux : Tables
with_flux = (create_model json memory flux (codes "m1") 5 no_tables).1

abbrev with_version : Tables
with_version = (create_version json memory (codes "m1") flux_version (codes "v1") 7 with_flux).1

publish-get_model_example :
    ((promote_version json memory (codes "m1") (codes "v1") with_version).0 ≡ none)
    × ((get_model json memory
          (codes "m1")
          (promote_version json memory (codes "m1") (codes "v1") with_version).1).0
        ≡ ok (
            published json memory json_laws memory_laws flux
              (codes "m1")
              5
              flux_version
              (codes "v1")
              7
              9))
unfolding trim_space lookup create_model query_model
publish-get_model_example =
    publish-get_model json memory json_laws memory_laws flux (codes "m1") 5 flux_version
      (codes "v1") 7 no_tables refl refl refl refl refl refl refl refl refl refl

abbrev listing : Result Text (List (Text × Bool))
listing = ok ((codes "002_b.sql", false) ∷ (codes "old", true) ∷ (codes "001_a.sql", false) ∷ [])

-- The files in order, after what the database held.
ensure_schema_run :
    ensure_schema migration_text sort_strings statements listing (codes "x" ∷ [])
    ≡ (none, codes "x" ∷ codes "-- migrations/001_a.sql" ∷ codes "-- migrations/002_b.sql" ∷ [])
unfolding ensure_schema in_transaction sort_strings migration_names has_suffix trim_space
ensure_schema_run = refl

ensure_schema-atomic_example :
    let r = ensure_schema migration_text sort_strings statements listing (codes "x" ∷ []) in
    ((entries : List (Text × Bool)) × (names : List Text) × (listing ≡ ok entries)
      × Perm names (sql_files entries)
      × IsSorted names
      × (r.0 ≡ none)
      × (migrate migration_text sort_strings statements
            (λ sql c. some (c ++ sql ∷ []))
            names
            (codes "x" ∷ [])
          ≡ some r.1))
    ⊎ ((e : Text) × (r.0 ≡ some e) × (r.1 ≡ codes "x" ∷ []))
ensure_schema-atomic_example =
    ensure_schema-atomic migration_text sort_strings statements statements_laws listing
      (codes "x" ∷ []) sort_strings_laws
