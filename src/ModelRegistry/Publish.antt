-- ===== src/ModelRegistry/Publish.antt =====
-- A model and its versions through the operations of pkg/modelregistry/postgres.go, on a database that keeps the
-- contract of its statements.
use compute_backend.Prelude.{
  ℕ, zero, suc, ◌≡◌, refl, ap, ◌∙◌, false, Option, none, some, [], ◌∷◌, arith, ◌==◌, if◌then◌else◌,
  ok, Time,
}
use compute_backend.Strings.{Text, codes, text_eq_refl}
use compute_backend.Strings.Trim.{trim_space}
use compute_backend.Maps.{lookup, insert, lookup-insert_self}
use compute_backend.Sql.{text}
use compute_backend.ModelRegistry.Types.{
  Model, ModelVersionInfo, CreateModelInput, CreateVersionInput, status_ready,
}
use compute_backend.ModelRegistry.Rows.{
  Json, ModelColumns, VersionColumns, trimmed_all, scan_model_with_version, version_info, model_of,
  decode_metadata,
}
use compute_backend.ModelRegistry.Store.{
  Database, is_blank, status_or_draft, create_model, create_version, get_model, promote_version,
  with_latest,
}
use compute_backend.ModelRegistry.Statements.{promote}
use compute_backend.ModelRegistry.Tables.{
  Tables, Schema, DatabaseLaws, JsonLaws, kept_model, kept_version, promote_row, has_version,
  select_row, joined, default_row,
}
use compute_backend.ModelRegistry.Creating.{
  stored, object_of, new_model, new_version, decode_metadata_lem, create_model_lem,
  create_version_lem,
}

abbrev promoted : Text → Text → Time → ModelColumns → ModelColumns
promoted version_id status now row = record row {
  default_version = some version_id;
  status = status;
  updated_at = now;
}

promote_row_lem :
    (model_id version_id status : Text) (now : Time) (t : Tables) (row : ModelColumns)
    (v : VersionColumns)
    → lookup model_id t.models ≡ some row
    → lookup version_id t.versions ≡ some v
    → v.model_id ≡ model_id
    → promote_row model_id version_id status now t
      ≡ (1, record t { models = insert model_id (promoted version_id status now row) t.models })
unfolding promote_row has_version
promote_row_lem model_id version_id status now t row v hm hv e =
    rw (hm, promote_row, hv, has_version, e, text_eq_refl model_id) refl

module _ {Object D : Type 0} (json : Json Object) (db : Database D) {view : D → Tables}
    {schema : Schema D} (jl : JsonLaws json schema) (dl : DatabaseLaws db view schema) where
  promote_version-rows :
      (model_id version_id : Text) (d : D) (n : ℕ)
      → let r = db.exec promote (text version_id ∷ text status_ready ∷ text model_id ∷ []) d in
        r.0 ≡ ok (ok n)
        → ((promote_version json db model_id version_id d).0
            ≡ (if n == 0 then some (codes "model not found") else none))
          × ((promote_version json db model_id version_id d).1 ≡ r.1)
  unfolding promote_version
  promote_version-rows model_id version_id d zero h = rw (h, promote_version) (refl, refl)
  promote_version-rows model_id version_id d (suc n) h =
      rw (h, promote_version) (ground arith, refl)

  -- PromoteVersion changes the tables as its statement does, and fails where that updates no row.
  pub promote_version_lem :
      (model_id version_id : Text) (d : D)
      → schema.IsUuid version_id
      → schema.IsUuid model_id
      → let r = promote_version json db model_id version_id d in
        let after = promote_row model_id version_id status_ready (schema.clock d) (view d) in
        (r.0 ≡ (if after.0 == 0 then some (codes "model not found") else none))
        × (view r.1 ≡ after.1)
  promote_version_lem model_id version_id d hv hm =
      let (row, after) = dl.promote_model_row version_id status_ready model_id d hv hm in
      let n = (promote_row model_id version_id status_ready (schema.clock d) (view d)).0 in
      let (answer, state) = promote_version-rows model_id version_id d n row in
      (answer, ap view state ∙ after)

  joined-model : (row : ModelColumns) (o : Option VersionColumns) → (joined row o).model ≡ row
  unfolding joined
  joined-model row none = refl
  joined-model row (some v) = refl

  -- GetModel answers with the row and its metadata.
  pub get_model_lem :
      (id : Text) (row : ModelColumns) (o : Object) (d : D)
      → schema.IsUuid id
      → lookup id (view d).models ≡ some row
      → decode_metadata json row.metadata ≡ ok (some o)
      → (get_model json db id d).0
        ≡ ok (
            with_latest
              (model_of row (some o))
              (version_info (joined row (default_row row.default_version (view d)))))
  unfolding select_row get_model scan_model_with_version
  get_model_lem id row o d hu hl hd =
      let (answer, after) = dl.select_model_row id d hu in
      let v = default_row row.default_version (view d) in
      rw (answer, hl, get_model, scan_model_with_version, joined-model row v, hd)
        (ap (λ r. ok (with_latest (model_of r (some o)) (version_info (joined row v))))
          (joined-model row v))

  -- The view of a version in the answers about its model.
  abbrev info_of : VersionColumns → ModelVersionInfo
  info_of v = record {
    id = v.id;
    version = v.version;
    status = v.status;
    runner_image = v.runner_image;
    runner_family = v.runner_family;
    created_at = v.created_at;
    updated_at = v.updated_at;
  }

  -- The model after its first version has been promoted at `now`.
  abbrev pub published :
      CreateModelInput Object
      → Text
      → Time
      → CreateVersionInput Object
      → Text
      → Time
      → Time
      → Model Object
  published input id made version version_id made_version now = record {
    id = id;
    external_id = trim_space input.external_id;
    display_name = trim_space input.display_name;
    family = trim_space input.family;
    description = trim_space input.description;
    metadata = some (object_of json input.metadata);
    status = status_ready;
    default_version_id = some version_id;
    created_at = schema.kept made;
    updated_at = now;
    latest_version = some (record {
      id = version_id;
      version = trim_space version.version;
      status = status_or_draft version.status;
      runner_image = trim_space version.runner_image;
      runner_family = stored version.runner_family;
      created_at = schema.kept made_version;
      updated_at = schema.kept made_version;
    });
  }

  -- A promoted version is what GetModel shows of its model.
  pub promote-get_model :
      (id version_id : Text) (row : ModelColumns) (v : VersionColumns) (o : Object) (d : D)
      → schema.IsUuid id
      → schema.IsUuid version_id
      → lookup id (view d).models ≡ some row
      → lookup version_id (view d).versions ≡ some v
      → v.model_id ≡ id
      → decode_metadata json row.metadata ≡ ok (some o)
      → let r = promote_version json db id version_id d in
        (r.0 ≡ none)
        × ((get_model json db id r.1).0
            ≡ ok
                (record (model_of
                  (promoted version_id status_ready (schema.clock d) row)
                  (some o)) { latest_version = some (info_of v) }))
  unfolding model_of with_latest version_info joined
  promote-get_model id version_id row v o d hi hu hm hv e hd =
      let (answer, after) = promote_version_lem id version_id d hu hi in
      let now = schema.clock d in
      let step = promote_row_lem id version_id status_ready now (view d) row v hm hv e in
      let row' = promoted version_id status_ready now row in
      let d' = (promote_version json db id version_id d).1 in
      let t' = record (view d) { models = insert id row' (view d).models } in
      let shown : view d' ≡ t' = after ∙ ap (λ p. p.1) step in
      let found : lookup id (view d').models ≡ some row' =
        ap (λ t. lookup id t.models) shown ∙ lookup-insert_self id row' (view d).models in
      let version : default_row (some version_id) (view d') ≡ some v =
        unfold default_row in (ap (λ t. lookup version_id t.versions) shown ∙ hv) in
      (answer ∙ rw step refl, get_model_lem id row' o d' hi found hd ∙ rw version refl)

  -- What CreateModel, CreateVersion and PromoteVersion have stored is what GetModel shows: the trimmed inputs, the
  -- status READY, and the promoted version as the latest. The inputs hold what is required, the two ids are UUIDs
  -- and the constraints of the tables let both rows in.
  pub publish-get_model :
      (input : CreateModelInput Object) (id : Text) (made : Time)
      (version : CreateVersionInput Object) (version_id : Text) (made_version : Time) (d : D)
      → is_blank input.external_id ≡ false
      → is_blank input.display_name ≡ false
      → is_blank input.family ≡ false
      → is_blank id ≡ false
      → is_blank version.version ≡ false
      → is_blank version.runner_image ≡ false
      → schema.IsUuid id
      → schema.IsUuid version_id
      → let d1 = (create_model json db input id made d).1 in
        let d2 = (create_version json db id version version_id made_version d1).1 in
        schema.AcceptsModel (new_model json db jl dl input id made) (view d)
        → schema.AcceptsVersion
            (new_version json db jl dl id version version_id made_version)
            (view d1)
        → let r = promote_version json db id version_id d2 in
          (r.0 ≡ none)
          × ((get_model json db id r.1).0
              ≡ ok (published input id made version version_id made_version (schema.clock d2)))
  unfolding new_model new_version model_of
  publish-get_model input id made version version_id made_version d he hn hf hb hv hr hi hu ha hc =
      let row = kept_model schema (new_model json db jl dl input id made) in
      let v =
        kept_version schema (new_version json db jl dl id version version_id made_version)
          (trimmed_all version.capabilities) in
      let d1 = (create_model json db input id made d).1 in
      let d2 = (create_version json db id version version_id made_version d1).1 in
      let (_, s1) = create_model_lem json db jl dl input id made d he hn hf hi ha in
      let (_, s2) =
        create_version_lem json db jl dl id version version_id made_version d1 hb hv hr hu hi hc in
      let models : lookup id (view d2).models ≡ some row =
        ap (λ t. lookup id t.models) s2
        ∙ ap (λ t. lookup id t.models) s1
        ∙ lookup-insert_self id row (view d).models in
      let versions : lookup version_id (view d2).versions ≡ some v =
        ap (λ t. lookup version_id t.versions) s2
        ∙ lookup-insert_self version_id v (view d1).versions in
      promote-get_model id version_id row v (object_of json input.metadata) d2 hi hu models versions
        refl (decode_metadata_lem json db jl dl (object_of json input.metadata))
