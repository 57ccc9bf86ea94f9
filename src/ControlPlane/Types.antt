-- ===== src/ControlPlane/Types.antt =====
-- pkg/controlplane/types.go: nodes, their events and their model assignments.
use compute_backend.Prelude.{Bool, Option, List, ℤ, Time}
use compute_backend.Strings.{Text}

-- A status is a text; `other` is any that is none of the four constants.
pub data NodeStatus : Type 0 where
  pending provisioning ready error : NodeStatus
  other : Text → NodeStatus

pub record ModelAssignment : Type 0 where
  pub model_id : Text
  pub version_id : Text
  pub weights_uri : Text
  pub updated_at : Time

pub record Node : Type 0 where
  pub id : Text
  pub name : Text
  pub gpu_type : Text
  pub total_vram_gb : ℤ
  pub ip_address : Text
  pub ssh_username : Text
  pub ssh_password : Text
  pub ssh_private_key : Text
  pub ssh_port : ℤ
  pub models : List Text
  pub assignments : List ModelAssignment
  pub hf_token : Text
  pub dash_scope_api_key : Text
  pub torch_dtype : Text
  pub device : Text
  pub enable_xformers : Bool
  pub enable_tf32 : Bool
  pub trust_remote_code : Bool
  pub status : NodeStatus
  pub last_error : Text
  pub created_at : Time
  pub updated_at : Time
  pub last_provisioned_at : Option Time

pub record NodeEvent : Type 0 where
  pub id : Text
  pub node_id : Text
  pub status : NodeStatus
  pub message : Text
  pub created_at : Time

pub record SanitizedNode : Type 0 where
  pub id : Text
  pub name : Text
  pub gpu_type : Text
  pub total_vram_gb : ℤ
  pub ip_address : Text
  pub ssh_username : Text
  pub ssh_port : ℤ
  pub models : List Text
  pub assignments : List ModelAssignment
  pub torch_dtype : Text
  pub device : Text
  pub enable_xformers : Bool
  pub enable_tf32 : Bool
  pub trust_remote_code : Bool
  pub status : NodeStatus
  pub last_error : Text
  pub created_at : Time
  pub updated_at : Time
  pub last_provisioned_at : Option Time

unfoldable pub sanitized : Node → SanitizedNode
sanitized n = record {
  id = n.id;
  name = n.name;
  gpu_type = n.gpu_type;
  total_vram_gb = n.total_vram_gb;
  ip_address = n.ip_address;
  ssh_username = n.ssh_username;
  ssh_port = n.ssh_port;
  models = n.models;
  assignments = n.assignments;
  torch_dtype = n.torch_dtype;
  device = n.device;
  enable_xformers = n.enable_xformers;
  enable_tf32 = n.enable_tf32;
  trust_remote_code = n.trust_remote_code;
  status = n.status;
  last_error = n.last_error;
  created_at = n.created_at;
  updated_at = n.updated_at;
  last_provisioned_at = n.last_provisioned_at;
}
