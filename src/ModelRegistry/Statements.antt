-- ===== src/ModelRegistry/Statements.antt =====
-- The texts of the statements in pkg/modelregistry/postgres.go.
use compute_backend.Prelude.{◌++◌}
use compute_backend.Strings.{Text, codes}

abbrev pub insert_model : Text
insert_model =
    codes "\n        INSERT INTO models (\n"
    ++ codes
        "            id, external_id, display_name, family, description, metadata, status, created_at, updated_at\n"
    ++ codes "        ) VALUES ($1, $2, $3, $4, $5, $6, $7, $8, $9)\n"
    ++ codes
        "        RETURNING id, external_id, display_name, family, description, metadata, status, default_version_id, created_at, updated_at\n"
    ++ codes "    "

abbrev pub insert_version : Text
insert_version =
    codes "\n        INSERT INTO model_versions (\n"
    ++ codes
        "            id, model_id, version, runner_image, runner_family, runner_manifest, default_parameters,\n"
    ++ codes "            weights_uri, min_gpu_mem_gb, min_vram_gb, max_batch_size,\n"
    ++ codes
        "            parameters, capabilities, latency_tier, artifact_uri, status, created_at, updated_at\n"
    ++ codes "        ) VALUES (\n"
    ++ codes "            $1, $2, $3, $4, $5, $6, $7,\n"
    ++ codes "            $8, $9, $10, $11,\n"
    ++ codes "            $12, $13, $14, $15, $16, $17, $18\n"
    ++ codes "        )\n"
    ++ codes
        "        RETURNING id, model_id, version, runner_image, runner_family, runner_manifest, default_parameters,\n"
    ++ codes "                  weights_uri, min_gpu_mem_gb, min_vram_gb, max_batch_size,\n"
    ++ codes
        "                  parameters, capabilities, latency_tier, artifact_uri, status, created_at, updated_at\n"
    ++ codes "    "

abbrev pub base_query : Text
base_query =
    codes
      "\n        SELECT m.id, m.external_id, m.display_name, m.family, m.description, m.metadata,\n"
    ++ codes "               m.status, m.default_version_id, m.created_at, m.updated_at,\n"
    ++ codes
        "               dv.id, dv.version, dv.status, dv.runner_image, dv.runner_family, dv.created_at, dv.updated_at\n"
    ++ codes "        FROM models m\n"
    ++ codes "        LEFT JOIN model_versions dv ON dv.id = m.default_version_id\n"
    ++ codes "    "

abbrev pub select_model : Text
select_model =
    codes
      "\n        SELECT m.id, m.external_id, m.display_name, m.family, m.description, m.metadata,\n"
    ++ codes "               m.status, m.default_version_id, m.created_at, m.updated_at,\n"
    ++ codes
        "               dv.id, dv.version, dv.status, dv.runner_image, dv.runner_family, dv.created_at, dv.updated_at\n"
    ++ codes "        FROM models m\n"
    ++ codes "        LEFT JOIN model_versions dv ON dv.id = m.default_version_id\n"
    ++ codes "        WHERE m.id = $1\n"
    ++ codes "    "

abbrev pub promote : Text
promote =
    codes "\n        UPDATE models\n"
    ++ codes "        SET default_version_id = $1, status = $2, updated_at = NOW()\n"
    ++ codes "        WHERE id = $3\n"
    ++ codes "          AND EXISTS (\n"
    ++ codes "            SELECT 1 FROM model_versions v WHERE v.id = $1 AND v.model_id = $3\n"
    ++ codes "          )\n"
    ++ codes "    "

-- The four texts around the clauses and the two placeholders of the update.
abbrev pub update_version : Text
update_version = codes "\n\t\tUPDATE model_versions\n" ++ codes "\t\tSET "

abbrev pub where_model : Text
where_model = codes "\n\t\tWHERE model_id = "

abbrev pub and_version : Text
and_version = codes " AND id = "

abbrev pub returning_version : Text
returning_version =
    codes
      "\n\t\tRETURNING id, model_id, version, runner_image, runner_family, runner_manifest, default_parameters,\n"
    ++ codes "\t\t          weights_uri, min_gpu_mem_gb, min_vram_gb, max_batch_size,\n"
    ++ codes
        "\t\t          parameters, capabilities, latency_tier, artifact_uri, status, created_at, updated_at\n"
    ++ codes "\t"
