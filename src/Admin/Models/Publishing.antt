-- ===== src/Admin/Models/Publishing.antt =====
-- An import through cmd/admin-rest/main.go and what the registry of pkg/modelregistry then shows.
use compute_backend.Prelude.{◌≡◌, refl, true, false, none, some, ok, Time}
use compute_backend.Strings.{Text, is_empty}
use compute_backend.Strings.Trim.{trim_space, trim_space_idem}
use compute_backend.Maps.{Assoc}
use compute_backend.ModelRegistry.Types.{Model, ModelVersion}
use compute_backend.ModelRegistry.Rows.{Json, model_of, version_of, trimmed_all}
use compute_backend.ModelRegistry.Store.{
  Database, is_blank, create_model, create_version, get_model,
}
use compute_backend.ModelRegistry.Tables.{
  Tables, Schema, DatabaseLaws, JsonLaws, kept_model, kept_version,
}
use compute_backend.ModelRegistry.Creating.{
  object_of, new_model, new_version, create_model_lem, create_version_lem,
}
use compute_backend.ModelRegistry.Publish.{published, publish-get_model}
use compute_backend.Admin.Answers.{answers}
use compute_backend.Admin.HuggingFace.Defs.{HuggingFaceModel, Api, fetch_hugging_face_model}
use compute_backend.Admin.Models.Types.{
  JsonValue, ImportModelRequest, ImportModelResponse, ModelStore, postgres_models,
}
use compute_backend.Admin.Models.Import.{
  is_promoted, import_model_input, import_version_input, import_fetched,
}
use compute_backend.Admin.Models.Handlers.{handle_import}

not_blank-trim_space :
    (t : Text) → is_empty (trim_space t) ≡ false → is_blank (trim_space t) ≡ false
not_blank-trim_space t h = rw (trim_space_idem t) h

module _ {Object D : Type 0} (store : ModelStore Object D)
    (make : Assoc (JsonValue Object) → Object) where
  import_fetched-promoted :
      (req : ImportModelRequest) (hf_id : Text) (m : HuggingFaceModel) (d : D)
      (model : Model Object) (version : ModelVersion Object)
      → let created = store.create_model (import_model_input make hf_id m) d in
        let versioned =
          store.create_version model.id (import_version_input make req hf_id m) created.1 in
        let promoted = store.promote_version model.id version.id versioned.1 in
        created.0 ≡ ok model
        → versioned.0 ≡ ok version
        → is_promoted req.promote ≡ true
        → promoted.0 ≡ none
        → import_fetched store make req hf_id m d ≡ (
          answers 201 (record {
            model = record model { default_version_id = some version.id };
            version = version;
          }),
          promoted.1,
        )
  unfolding import_fetched
  import_fetched-promoted req hf_id m d model version hc hv hp h =
      rw (hc, import_fetched, hv, hp, h) refl

module _ {Object D : Type 0} (json : Json Object) (db : Database D) {view : D → Tables}
    {schema : Schema D} (jl : JsonLaws json schema) (dl : DatabaseLaws db view schema)
    (uuid : D → Text) (clock : D → Time) (make : Assoc (JsonValue Object) → Object)
    (api : Api) where
  -- A request with an id and an image whose model can be fetched is answered by 201, and GetModel then shows the
  -- imported model, READY, with its version as the latest: where the version is to be promoted, nothing that the
  -- registry requires is blank in what was fetched, the two ids are UUIDs and the tables let both rows in.
  pub handle_import-get_model :
      (req : ImportModelRequest) (m : HuggingFaceModel) (d : D)
      → let hf_id = trim_space req.hugging_face_id in
        let input = import_model_input make hf_id m in
        let version = import_version_input make req hf_id m in
        let id = uuid d in
        let d1 = (create_model json db input id (clock d) d).1 in
        let version_id = uuid d1 in
        let d2 = (create_version json db id version version_id (clock d1) d1).1 in
        fetch_hugging_face_model api hf_id ≡ ok m
        → is_empty hf_id ≡ false
        → is_empty (trim_space req.runner_image) ≡ false
        → is_promoted req.promote ≡ true
        → is_blank input.display_name ≡ false
        → is_blank input.family ≡ false
        → is_blank version.version ≡ false
        → is_blank id ≡ false
        → schema.IsUuid id
        → schema.IsUuid version_id
        → schema.AcceptsModel (new_model json db jl dl input id (clock d)) (view d)
        → schema.AcceptsVersion
            (new_version json db jl dl id version version_id (clock d1))
            (view d1)
        → let r = handle_import (some (postgres_models json db uuid clock)) make api (some req) d in
          ((response : ImportModelResponse Object) × (r.0 ≡ answers 201 response))
          × ((get_model json db id r.1).0
              ≡ ok (
                  published json db jl dl input id
                    (clock d)
                    version
                    version_id
                    (clock d1)
                    (schema.clock d2)))
  unfolding handle_import model_of version_of new_model new_version
  handle_import-get_model req m d hm hh hr hp hn hf hv hb hi hu ha hc =
      let hf_id = trim_space req.hugging_face_id in
      let input = import_model_input make hf_id m in
      let version = import_version_input make req hf_id m in
      let id = uuid d in
      let he : is_blank input.external_id ≡ false =
        unfold import_model_input in not_blank-trim_space req.hugging_face_id hh in
      let hri : is_blank version.runner_image ≡ false =
        unfold import_version_input in not_blank-trim_space req.runner_image hr in
      let (created, s1) = create_model_lem json db jl dl input id (clock d) d he hn hf hi ha in
      let d1 = (create_model json db input id (clock d) d).1 in
      let version_id = uuid d1 in
      let (versioned, s2) =
        create_version_lem json db jl dl id version version_id (clock d1) d1 hb hv hri hu hi hc in
      let (promoted, shown) =
        publish-get_model json db jl dl input id (clock d) version version_id (clock d1) d he hn hf
          hb hv hri hi hu ha hc in
      let model =
        model_of (kept_model schema (new_model json db jl dl input id (clock d)))
          (some (object_of json input.metadata)) in
      let v =
        version_of json
          (kept_version schema (new_version json db jl dl id version version_id (clock d1))
            (trimmed_all version.capabilities))
          (some (object_of json version.runner_manifest))
          (some (object_of json version.default_parameters))
          (some (object_of json version.parameters)) in
      let fetched =
        import_fetched-promoted (postgres_models json db uuid clock) make req hf_id m d model v
          created versioned hp promoted in
      rw (handle_import, hh, hr, hm, fetched)
        (
          (record { model = record model { default_version_id = some v.id }; version = v }, refl),
          shown,
        )
