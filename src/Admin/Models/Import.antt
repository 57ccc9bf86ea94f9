-- ===== src/Admin/Models/Import.antt =====
-- The import of a model of Hugging Face in cmd/admin-rest/main.go, up to the answer. Maps are made of their entries.
use compute_backend.Prelude.{
  Bool, true, Option, none, some, List, [], ◌∷◌, ◌++◌, if◌then◌else◌, ok, err,
}
use compute_backend.Strings.{Text, codes, is_empty}
use compute_backend.Strings.Trim.{trim_space}
use compute_backend.Maps.{Assoc}
use compute_backend.Sql.{message}
use compute_backend.ModelRegistry.Types.{CreateModelInput, CreateVersionInput, status_ready}
use compute_backend.Admin.Answers.{Answer, answers, refuses}
use compute_backend.Admin.HuggingFace.Defs.{
  HuggingFaceModel, first_non_empty, string_from_card_data, build_weights_url, derive_capabilities,
}
use compute_backend.Admin.Models.Types.{
  ModelStore, ImportModelRequest, ImportModelResponse, JsonValue, string_value, int_value,
  strings_value, card_value, object_value,
}

-- What the import takes from the model of Hugging Face.
unfoldable pub description_of : Text → HuggingFaceModel → Text
description_of hf_id m =
    let found = first_non_empty (
      m.description
      ∷ string_from_card_data m.card_data (codes "summary")
      ∷ string_from_card_data m.card_data (codes "description")
      ∷ []) in
    if is_empty found then codes "Imported from Hugging Face model " ++ hf_id else found

unfoldable pub trimmed_tags : List Text → List Text
trimmed_tags [] = []
trimmed_tags (tag ∷ tags) =
    let rest = trimmed_tags tags in
    let trimmed = trim_space tag in if is_empty trimmed then rest else trimmed ∷ rest

unfoldable pub suggested_version : HuggingFaceModel → Text
suggested_version m = if is_empty m.last_modified then codes "imported" else m.last_modified

module _ {Object : Type 0} (make : Assoc (JsonValue Object) → Object) where
  unfoldable pub hugging_face_metadata : Text → HuggingFaceModel → Object
  hugging_face_metadata hf_id m = make (
      (codes "huggingface_id", string_value hf_id)
      ∷ (codes "pipeline_tag", string_value m.pipeline_tag)
      ∷ (codes "library_name", string_value m.library_name)
      ∷ (codes "card_data", card_value m.card_data)
      ∷ (codes "likes", int_value m.likes)
      ∷ (codes "downloads", int_value m.downloads)
      ∷ (codes "last_modified", string_value m.last_modified)
      ∷ [])

  unfoldable pub import_model_input : Text → HuggingFaceModel → CreateModelInput Object
  unfolding description_of trimmed_tags hugging_face_metadata
  import_model_input hf_id m = record {
    external_id = hf_id;
    display_name = if is_empty m.model_id then hf_id else m.model_id;
    family = if is_empty m.pipeline_tag then codes "general" else m.pipeline_tag;
    description = description_of hf_id m;
    metadata = some (
        make (
          (codes "huggingface", object_value (hugging_face_metadata hf_id m))
          ∷ (codes "tags", strings_value (trimmed_tags m.tags))
          ∷ []));
  }

  unfoldable pub import_parameters : Text → HuggingFaceModel → Object
  import_parameters hf_id m =
      let pipeline : Assoc (JsonValue Object) =
        if is_empty m.pipeline_tag
        then []
        else (codes "pipeline_tag", string_value m.pipeline_tag) ∷ [] in
      let library : Assoc (JsonValue Object) =
        if is_empty m.library_name
        then []
        else (codes "library_name", string_value m.library_name) ∷ [] in
      make (
        (codes "source", string_value (codes "huggingface"))
        ∷ (codes "huggingface_id", string_value hf_id)
        ∷ (pipeline ++ library))

  unfoldable pub import_version_input :
      ImportModelRequest → Text → HuggingFaceModel → CreateVersionInput Object
  unfolding suggested_version import_parameters
  import_version_input req hf_id m =
      let version_name = trim_space req.version in
      let weights = build_weights_url hf_id req.weights_file m.siblings in
      record {
        version = if is_empty version_name then suggested_version m else version_name;
        runner_image = trim_space req.runner_image;
        runner_family = none;
        runner_manifest = none;
        default_parameters = none;
        weights_uri = if is_empty weights then none else some weights;
        min_gpu_mem_gb = none;
        min_vram_gb = none;
        max_batch_size = none;
        parameters = some (import_parameters hf_id m);
        capabilities = derive_capabilities m.pipeline_tag (trimmed_tags m.tags);
        latency_tier = none;
        artifact_uri = none;
        status = status_ready;
      }

abbrev pub is_promoted : Option Bool → Bool
is_promoted none = true
is_promoted (some b) = b

module _ {Object D : Type 0} (store : ModelStore Object D)
    (make : Assoc (JsonValue Object) → Object) where
  -- The import of a model that was fetched.
  unfoldable pub import_fetched :
      ImportModelRequest → Text → HuggingFaceModel → D → Answer (ImportModelResponse Object) × D
  unfolding import_model_input import_version_input
  import_fetched req hf_id m d =
      let (created, after) = store.create_model (import_model_input make hf_id m) d in
      elim created [
        | err e ↦ (refuses 400 (message e), after)
        | ok model ↦
            let (versioned, final) =
              store.create_version model.id (import_version_input make req hf_id m) after in
            elim versioned [
              | err e ↦ (refuses 400 (message e), final)
              | ok version ↦
                  if is_promoted req.promote
                  then (let (failure, last) = store.promote_version model.id version.id final in
                      elim failure [
                        | some e ↦ (refuses 400 e, last)
                        | none ↦ (
                          answers 201 (record {
                            model = record model { default_version_id = some version.id };
                            version = version;
                          }),
                          last,
                        )
                      ])
                  else (answers 201 (record { model = model; version = version }), final)
            ]
      ]
