-- ===== src/Admin/Models/Handlers.antt =====
-- The handlers for models in cmd/admin-rest/main.go. A body is what its decoder gives, `none` where it fails.
use compute_backend.Prelude.{
  ℕ, Option, none, some, List, [], ◌∷◌, ◌++◌, if◌then◌else◌, Result, ok, err, ℤ, pos,
}
use compute_backend.Strings.{Text, codes, is_empty}
use compute_backend.Strings.Trim.{trim_space}
use compute_backend.Maps.{Assoc}
use compute_backend.Sql.{Error, message}
use compute_backend.ModelRegistry.Types.{
  Model, ModelVersion, CreateVersionInput, UpdateRunnerConfigInput,
}
use compute_backend.Admin.Answers.{Answer, answers, refuses}
use compute_backend.Admin.HuggingFace.Defs.{
  Api, fetch_hugging_face_model, first_non_empty, string_from_card_data, build_weights_url,
}
use compute_backend.Admin.Models.Types.{
  ModelStore, CreateModelRequest, ImportModelRequest, ImportModelResponse, JsonValue, no_registry,
  invalid_payload,
}
use compute_backend.Admin.Models.Create.{create_requested}
use compute_backend.Admin.Models.Import.{suggested_version, import_fetched}

-- What a preview shows.
pub record Preview : Type 0 where
  pub model_id : Text
  pub display_name : Text
  pub description : Text
  pub pipeline_tag : Text
  pub library_name : Text
  pub tags : List Text
  pub suggested_version : Text
  pub suggested_weights : Text
  pub last_modified : Text
  pub downloads : ℤ
  pub likes : ℤ

unfoldable pub handle_preview : Api → Text → Answer Preview
unfolding suggested_version
handle_preview api parameter =
    let hf_id = trim_space parameter in
    if is_empty hf_id
    then refuses 400 (codes "huggingface_id is required")
    else elim (fetch_hugging_face_model api hf_id) [
      | err e ↦ refuses 502 (codes "fetch huggingface model: " ++ e)
      | ok m ↦ answers 200 (record {
        model_id = m.model_id;
        display_name = m.model_id;
        description =
            first_non_empty
              (m.description ∷ string_from_card_data m.card_data (codes "summary") ∷ []);
        pipeline_tag = m.pipeline_tag;
        library_name = m.library_name;
        tags = m.tags;
        suggested_version = suggested_version m;
        suggested_weights = build_weights_url hf_id [] m.siblings;
        last_modified = m.last_modified;
        downloads = m.downloads;
        likes = m.likes;
      })
    ]

abbrev pub answer_with : {A : Type 0} → ℕ → ℕ → Result Error A → Answer A
answer_with code failing (err e) = refuses failing (message e)
answer_with code failing (ok a) = answers code a

module _ {Object D : Type 0} (store : Option (ModelStore Object D)) where
  unfoldable pub handle_list_models : List Text → List Text → D → Answer (List (Model Object)) × D
  handle_list_models families statuses d = elim store [
    | none ↦ (no_registry, d)
    | some s ↦
        let (models, after) =
          s.list_models
            (record { status = statuses; family = families; limit = pos 0; offset = pos 0 }) d in
        (
          elim models [
            | err e ↦ refuses 500 (codes "list models: " ++ message e)
            | ok found ↦ answers 200 found
          ],
          after,
        )
  ]

  unfoldable pub handle_create_model :
      Option (CreateModelRequest Object) → D → Answer (Model Object) × D
  unfolding create_requested
  handle_create_model body d = elim store [
    | none ↦ (no_registry, d)
    | some s ↦ elim body [ none ↦ (invalid_payload, d) | some req ↦ create_requested s req d ]
  ]

  unfoldable pub handle_import :
      (Assoc (JsonValue Object) → Object)
      → Api
      → Option ImportModelRequest
      → D
      → Answer (ImportModelResponse Object) × D
  unfolding import_fetched
  handle_import make api body d = elim store [
    | none ↦ (no_registry, d)
    | some s ↦ elim body [
      | none ↦ (invalid_payload, d)
      | some req ↦
          let hf_id = trim_space req.hugging_face_id in
          if is_empty hf_id
          then (refuses 400 (codes "huggingface_id is required"), d)
          else if is_empty (trim_space req.runner_image)
          then (refuses 400 (codes "runner_image is required"), d)
          else elim (fetch_hugging_face_model api hf_id) [
            | err e ↦ (refuses 502 (codes "fetch huggingface model: " ++ e), d)
            | ok m ↦ import_fetched s make req hf_id m d
          ]
    ]
  ]

  unfoldable pub handle_get_model : Text → D → Answer (Model Object) × D
  handle_get_model id d = elim store [
    | none ↦ (no_registry, d)
    | some s ↦ let (found, after) = s.get_model id d in (answer_with 200 404 found, after)
  ]

  unfoldable pub handle_create_version :
      Text → Option (CreateVersionInput Object) → D → Answer (ModelVersion Object) × D
  handle_create_version id body d = elim store [
    | none ↦ (no_registry, d)
    | some s ↦ elim body [
      | none ↦ (invalid_payload, d)
      | some req ↦
          let (created, after) = s.create_version id req d in (answer_with 201 400 created, after)
    ]
  ]

  -- The body is the id of the version.
  unfoldable pub handle_promote_version : Text → Option Text → D → Answer Text × D
  handle_promote_version id body d = elim store [
    | none ↦ (no_registry, d)
    | some s ↦ elim body [
      | none ↦ (invalid_payload, d)
      | some version_id ↦
          if is_empty (trim_space version_id)
          then (refuses 400 (codes "version_id is required"), d)
          else (let (failure, after) = s.promote_version id version_id d in
              (
                elim failure [ some e ↦ refuses 400 e | none ↦ answers 202 (codes "promoted") ],
                after,
              ))
    ]
  ]

  unfoldable pub handle_update_version_runner :
      Text → Text → Option (UpdateRunnerConfigInput Object) → D → Answer (ModelVersion Object) × D
  handle_update_version_runner id version_id body d = elim store [
    | none ↦ (no_registry, d)
    | some s ↦ elim body [
      | none ↦ (invalid_payload, d)
      | some req ↦
          let (updated, after) = s.update_version_runner_config id version_id req d in
          (answer_with 200 400 updated, after)
    ]
  ]
