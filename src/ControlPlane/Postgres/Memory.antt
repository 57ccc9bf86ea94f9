-- ===== src/ControlPlane/Postgres/Memory.antt =====
-- A database of nodes in memory, with an encoding of nodes as texts: an instance of the contract of pg_store.go.
use compute_backend.Prelude.{
  ◌≡◌, refl, ap, Bool, Option, none, some, List, [], ◌∷◌, map, if◌then◌else◌, Result, ok, err, ℤ,
  Time,
}
use compute_backend.Strings.{Text, codes}
use compute_backend.Strings.Affix.{after_prefix, has_prefix}
use compute_backend.Maps.{Assoc, lookup, insert, lookup-insert}
use compute_backend.Sql.{Value, text, bytes, time}
use compute_backend.ControlPlane.Types.{Node, NodeStatus, ModelAssignment}
use compute_backend.ControlPlane.Store.Defs.{public_part}
use compute_backend.ControlPlane.Postgres.Defs.{
  Driver, Codec, NodeColumns, pg_get_node, save_values,
}
use compute_backend.ControlPlane.Postgres.Contract.{DriverLaws, row_of, found_row}
use compute_backend.ControlPlane.Postgres.Encoding.{
  Encoding, number, pair, along, list_of, text_encoding, bool, integer, optional_time,
  status_encoding, assignment,
}

record Place : Type 0 where
  id : Text
  name : Text
  gpu_type : Text
  total_vram_gb : ℤ
  ip_address : Text
  ssh_username : Text
  ssh_port : ℤ

abbrev place : Encoding Place
place =
    along
      (λ x. (
        x.id,
        (x.name, (x.gpu_type, (x.total_vram_gb, (x.ip_address, (x.ssh_username, x.ssh_port))))),
      ))
      (λ p. record {
        id = p.0;
        name = p.1.0;
        gpu_type = p.1.1.0;
        total_vram_gb = p.1.1.1.0;
        ip_address = p.1.1.1.1.0;
        ssh_username = p.1.1.1.1.1.0;
        ssh_port = p.1.1.1.1.1.1;
      })
      (λ x. refl)
      (pair text_encoding (
        pair text_encoding
          (pair text_encoding (pair integer (pair text_encoding (pair text_encoding integer))))))

record Setup : Type 0 where
  models : List Text
  assignments : List ModelAssignment
  torch_dtype : Text
  device : Text
  enable_xformers : Bool
  enable_tf32 : Bool
  trust_remote_code : Bool

abbrev setup : Encoding Setup
setup =
    along
      (λ x. (
        x.models,
        (
          x.assignments,
          (x.torch_dtype, (x.device, (x.enable_xformers, (x.enable_tf32, x.trust_remote_code)))),
        ),
      ))
      (λ p. record {
        models = p.0;
        assignments = p.1.0;
        torch_dtype = p.1.1.0;
        device = p.1.1.1.0;
        enable_xformers = p.1.1.1.1.0;
        enable_tf32 = p.1.1.1.1.1.0;
        trust_remote_code = p.1.1.1.1.1.1;
      })
      (λ x. refl)
      (pair (list_of text_encoding) (
        pair (list_of assignment)
          (pair text_encoding (pair text_encoding (pair bool (pair bool bool))))))

record Condition : Type 0 where
  status : NodeStatus
  last_error : Text
  created_at : Time
  updated_at : Time
  last_provisioned_at : Option Time

abbrev condition : Encoding Condition
condition =
    along (λ x. (x.status, (x.last_error, (x.created_at, (x.updated_at, x.last_provisioned_at)))))
      (λ p. record {
        status = p.0;
        last_error = p.1.0;
        created_at = p.1.1.0;
        updated_at = p.1.1.1.0;
        last_provisioned_at = p.1.1.1.1;
      })
      (λ x. refl)
      (pair status_encoding (pair text_encoding (pair number (pair number optional_time))))

-- What JSON keeps of a node, in three parts.
to_parts : Node → Place × (Setup × Condition)
to_parts n = (
  record {
    id = n.id;
    name = n.name;
    gpu_type = n.gpu_type;
    total_vram_gb = n.total_vram_gb;
    ip_address = n.ip_address;
    ssh_username = n.ssh_username;
    ssh_port = n.ssh_port;
  },
  (
    record {
      models = n.models;
      assignments = n.assignments;
      torch_dtype = n.torch_dtype;
      device = n.device;
      enable_xformers = n.enable_xformers;
      enable_tf32 = n.enable_tf32;
      trust_remote_code = n.trust_remote_code;
    },
    record {
      status = n.status;
      last_error = n.last_error;
      created_at = n.created_at;
      updated_at = n.updated_at;
      last_provisioned_at = n.last_provisioned_at;
    },
  ),
)

of_parts : Place × (Setup × Condition) → Node
of_parts p = record {
  id = p.0.id;
  name = p.0.name;
  gpu_type = p.0.gpu_type;
  total_vram_gb = p.0.total_vram_gb;
  ip_address = p.0.ip_address;
  ssh_username = p.0.ssh_username;
  ssh_port = p.0.ssh_port;
  models = p.1.0.models;
  assignments = p.1.0.assignments;
  torch_dtype = p.1.0.torch_dtype;
  device = p.1.0.device;
  enable_xformers = p.1.0.enable_xformers;
  enable_tf32 = p.1.0.enable_tf32;
  trust_remote_code = p.1.0.trust_remote_code;
  status = p.1.1.status;
  last_error = p.1.1.last_error;
  created_at = p.1.1.created_at;
  updated_at = p.1.1.updated_at;
  last_provisioned_at = p.1.1.last_provisioned_at;
  ssh_password = [];
  ssh_private_key = [];
  hf_token = [];
  dash_scope_api_key = [];
}

abbrev parts : Encoding (Place × (Setup × Condition))
parts = pair place (pair setup condition)

pub node_text : Node → Text
unfolding to_parts
node_text n = parts.enc (to_parts n) []

pub read_node : Text → Node
unfolding of_parts
read_node t = of_parts (parts.dec t).0

read_node-node_text : (n : Node) → read_node (node_text n) ≡ public_part n
unfolding read_node node_text of_parts to_parts
read_node-node_text n = ap (λ r. of_parts r.0) (parts.lem (to_parts n) [])

abbrev pub codec : Codec
codec = record { marshal = λ n. ok (node_text n); unmarshal = λ t. ok (read_node t) }

-- The rows by their ids; a save writes one, an event none.
abbrev pub Rows : Type 0
Rows = Assoc NodeColumns

pub exec : Text → List Value → Rows → Option Text × Rows
exec statement
      (text id
        ∷ bytes raw
        ∷ text password
        ∷ text key
        ∷ text hf_token
        ∷ text dashscope
        ∷ time created_at
        ∷ time updated_at
        ∷ [])
      d =
    (
      none,
      insert id
          (record {
            document = raw;
            ssh_password = some password;
            ssh_private_key = some key;
            hf_token = some hf_token;
            dash_scope_api_key = some dashscope;
          })
          d,
    )
exec statement _ d = (none, d)

pub query_node : List Value → Rows → Result Text NodeColumns
query_node (text id ∷ []) d = found_row (lookup id d)
query_node _ d = err (codes "unexpected arguments")

abbrev pub rows_driver : Driver Rows
rows_driver = record {
  exec = λ statement args d.
      if has_prefix statement (codes "INSERT INTO control_plane_nodes")
      then exec statement args d
      else (none, d);
  query_node = λ statement args d. query_node args d;
  query_data = λ statement args d. ok (map (λ entry. ok entry.1.document) d);
  query_events = λ statement args d. ok [];
}

pub rows_laws : DriverLaws rows_driver codec (λ j d. lookup j d) (λ t. t)
unfolding exec query_node save_values
rows_laws = record {
  save_lem = λ n raw d. unfold has_prefix in unfold after_prefix in refl;
  save_row = λ n raw j d.
      unfold has_prefix in unfold after_prefix in lookup-insert n.id j (row_of (λ t. t) n raw) d;
  event_row = λ args j d. unfold has_prefix in unfold after_prefix in refl;
  select_row = λ id d. refl;
  encoded = node_text;
  marshal_lem = λ n. refl;
  unmarshal_lem = λ n. ap (λ m. ok m) (read_node-node_text n);
}

pub pg_get_node-nil : (j : Text) → pg_get_node rows_driver codec j [] ≡ none
unfolding pg_get_node query_node lookup
pg_get_node-nil j = refl
