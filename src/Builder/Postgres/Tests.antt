-- ===== src/Builder/Postgres/Tests.antt =====
-- A database that takes no row of builds.
use compute_backend.Prelude.{
  arith, ltb, ℕ, suc, ◌+◌, ◌≡◌, refl, false, none, some, [], if◌then◌else◌, ok, err,
}
use compute_backend.Strings.{Text, codes}
use compute_backend.Builder.MemStore.Defs.{new_mem_store}
use compute_backend.Builder.Types.{CreateRequest}
use compute_backend.Builder.Service.{
  World, handle_create_build, handle_get_build, accepted, not_found,
}
use compute_backend.Builder.Postgres.{Driver, postgres_store}
use compute_backend.Builder.Service.Lifecycle.{build_for}
use compute_backend.Builder.Postgres.Refused.{insert_shape, DriverLaws, create_build-not_found}

-- The state is the number of the statements run.
abbrev driver : Driver ℕ
driver = record {
  exec = λ statement args d. elim (insert_shape statement) [
    | none ↦ (none, suc d)
    | some (columns, values) ↦
        if ltb columns values
        then (some (codes "INSERT has more expressions than target columns"), d)
        else (none, suc d)
  ];
  query_builds = λ statement args d. ok ([], none);
  query_build = λ statement args d. err (codes "sql: no rows in result set");
  query_lines = λ statement args d. ok ([], none);
}

driver_laws : DriverLaws driver (λ id d. false)
driver_laws = record {
  refusal = λ statement. codes "INSERT has more expressions than target columns";
  insert_refused = λ statement columns values args d h lt. ground (arith, h, lt);
  no_row = codes "sql: no rows in result set";
  select_lem = λ id d h. refl;
}

abbrev request : CreateRequest
request = record {
  template = codes "t";
  runner_name = codes "flux";
  model_id = codes "m";
  version = codes "1";
  repository = codes "r";
  runner_image = codes "i";
  weights_uri = [];
  env = [];
}

abbrev world : World ℕ
world = record { mem = new_mem_store; db = 3; ticks = 0; calls = [] }

create_build-not_found_example :
    let store = some (postgres_store driver (λ d. 8)) in
    let clock = λ (n : ℕ). n + 5 in
    let same = λ (t : Text). t in
    let r = handle_create_build store clock same same (codes "b1") (some request) world in
    (r.0 ≡ accepted (build_for (codes "b1") 5 request))
    × (r.1.db ≡ 3)
    × (handle_get_build store clock same same (codes "b1") r.1
        ≡ not_found (codes "sql: no rows in result set"))
unfolding driver_laws
create_build-not_found_example =
    create_build-not_found driver driver_laws (λ d. 8) (λ n. n + 5) (λ t. t) (λ t. t) (codes "b1")
      request world refl refl
