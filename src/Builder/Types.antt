-- ===== src/Builder/Types.antt =====
-- pkg/builder/types.go: builds and their lifecycle.
use compute_backend.Prelude.{Time}
use compute_backend.Strings.{Text}
use compute_backend.Maps.{Assoc}

pub data Status : Type 0 where
  queued running succeeded failed : Status

pub record Build : Type 0 where
  pub id : Text
  pub template : Text
  pub runner_name : Text
  pub model_id : Text
  pub version : Text
  pub repository : Text
  pub runner_image : Text
  pub weights_uri : Text
  pub status : Status
  pub created_at : Time
  pub updated_at : Time
  pub finished_at : Time
  pub error : Text

pub record CreateRequest : Type 0 where
  pub template : Text
  pub runner_name : Text
  pub model_id : Text
  pub version : Text
  pub repository : Text
  pub runner_image : Text
  pub weights_uri : Text
  pub env : Assoc Text
