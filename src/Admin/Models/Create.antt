-- ===== src/Admin/Models/Create.antt =====
-- The creation of a model with its first version in cmd/admin-rest/main.go.
use compute_backend.Prelude.{Bool, none, some, if◌then◌else◌, ok, err}
use compute_backend.Sql.{message}
use compute_backend.ModelRegistry.Types.{Model, ModelVersion, CreateVersionInput, status_ready}
use compute_backend.Admin.Answers.{Answer, answers, refuses}
use compute_backend.Admin.Models.Types.{ModelStore, CreateModelRequest}

module _ {Object : Type 0} where
  -- The model of the answer after its version has been promoted.
  unfoldable pub with_promoted : Model Object → ModelVersion Object → Model Object
  with_promoted model version = record model {
    default_version_id = some version.id;
    latest_version = some (record {
      id = version.id;
      version = version.version;
      status = version.status;
      runner_image = version.runner_image;
      runner_family = none;
      created_at = version.created_at;
      updated_at = version.updated_at;
    });
    status = status_ready;
  }

module _ {Object D : Type 0} (store : ModelStore Object D) where
  -- The version of a request, behind the model that was created.
  unfoldable pub create_first_version :
      Model Object → CreateVersionInput Object → Bool → D → Answer (Model Object) × D
  unfolding with_promoted
  create_first_version model input promote d =
      let (created, after) = store.create_version model.id input d in
      elim created [
        | err e ↦ (refuses 400 (message e), after)
        | ok version ↦
            if promote
            then (let (failure, final) = store.promote_version model.id version.id after in
                elim failure [
                  | some e ↦ (refuses 400 e, final)
                  | none ↦ (answers 201 (with_promoted model version), final)
                ])
            else (answers 201 model, after)
      ]

  unfoldable pub create_requested : CreateModelRequest Object → D → Answer (Model Object) × D
  unfolding create_first_version
  create_requested req d =
      let (created, after) = store.create_model req.model d in
      elim created [
        | err e ↦ (refuses 400 (message e), after)
        | ok model ↦ elim req.version [
          | none ↦ (answers 201 model, after)
          | some input ↦ create_first_version model input req.promote_version after
        ]
      ]
