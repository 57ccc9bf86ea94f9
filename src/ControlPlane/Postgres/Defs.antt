-- ===== src/ControlPlane/Postgres/Defs.antt =====
-- The methods of `PostgresStore`. The database and JSON are interfaces; an id from `uuid` and a reading of the clock
-- are arguments. What is printed of an event that cannot be stored is left out.
use compute_backend.Prelude.{
  Bool, true, false, Option, none, some, List, [], ◌∷◌, ◌++◌, map, ◌==◌, if◌then◌else◌, Result, ok,
  err, pos, is_zero, Time, find?,
}
use compute_backend.Strings.{Text, codes, is_empty}
use compute_backend.Strings.Fold.{equal_fold}
use compute_backend.Sql.{Value, text, bytes, time}
use compute_backend.ControlPlane.Types.{
  NodeStatus, pending, provisioning, ready, error, other, Node, NodeEvent, ModelAssignment,
  SanitizedNode, sanitized,
}
use compute_backend.ControlPlane.Store.Defs.{
  NodeFn, set_node_status, upsert, or_default, unless_empty,
}

-- The columns that GetNode scans.
pub record NodeColumns : Type 0 where
  pub document : Text
  pub ssh_password : Option Text
  pub ssh_private_key : Option Text
  pub hf_token : Option Text
  pub dash_scope_api_key : Option Text

pub record EventColumns : Type 0 where
  pub id : Text
  pub status : NodeStatus
  pub message : Text
  pub created_at : Time

-- A statement with its values; a query with a row, or with what each `Scan` answers.
pub record Driver (D : Type 0) : Type 0 where
  pub exec : Text → List Value → D → Option Text × D
  pub query_node : Text → List Value → D → Result Text NodeColumns
  pub query_data : Text → List Value → D → Result Text (List (Result Text Text))
  pub query_events : Text → List Value → D → Result Text (List (Result Text EventColumns))

-- `json.Marshal` and `json.Unmarshal` of a node.
pub record Codec : Type 0 where
  pub marshal : Node → Result Text Text
  pub unmarshal : Text → Result Text Node

abbrev pub status_text : NodeStatus → Text
status_text pending = codes "PENDING"
status_text provisioning = codes "PROVISIONING"
status_text ready = codes "READY"
status_text error = codes "ERROR"
status_text (other t) = t

abbrev pub save_statement : Text
save_statement =
    codes "INSERT INTO control_plane_nodes (\n"
    ++ codes "\t    id,\n"
    ++ codes "\t    data,\n"
    ++ codes "\t    ssh_password,\n"
    ++ codes "\t    ssh_private_key,\n"
    ++ codes "\t    hf_token,\n"
    ++ codes "\t    dashscope_api_key,\n"
    ++ codes "\t    created_at,\n"
    ++ codes "\t    updated_at\n"
    ++ codes ")\n"
    ++ codes "VALUES ($1,$2,$3,$4,$5,$6,$7,$8)\n"
    ++ codes "ON CONFLICT (id) DO UPDATE SET\n"
    ++ codes "\tdata = EXCLUDED.data,\n"
    ++ codes "\tssh_password = EXCLUDED.ssh_password,\n"
    ++ codes "\tssh_private_key = EXCLUDED.ssh_private_key,\n"
    ++ codes "\thf_token = EXCLUDED.hf_token,\n"
    ++ codes "\tdashscope_api_key = EXCLUDED.dashscope_api_key,\n"
    ++ codes "\tupdated_at = EXCLUDED.updated_at"

abbrev pub select_node : Text
select_node =
    codes
      "SELECT data, ssh_password, ssh_private_key, hf_token, dashscope_api_key FROM control_plane_nodes WHERE id=$1"

abbrev pub select_data : Text
select_data = codes "SELECT data FROM control_plane_nodes"

abbrev pub select_events : Text
select_events =
    codes
      "SELECT id, status, message, created_at FROM control_plane_events WHERE node_id=$1 ORDER BY created_at ASC"

abbrev pub insert_event : Text
insert_event =
    codes
      "INSERT INTO control_plane_events (id, node_id, status, message, created_at) VALUES ($1,$2,$3,$4,$5)"

abbrev pub if_valid : Option Text → Text → Text
if_valid none old = old
if_valid (some t) old = t

-- The secrets of a row over those that were decoded.
unfoldable pub with_secrets : NodeColumns → Node → Node
with_secrets c n = record n {
  ssh_password = if_valid c.ssh_password n.ssh_password;
  ssh_private_key = if_valid c.ssh_private_key n.ssh_private_key;
  hf_token = if_valid c.hf_token n.hf_token;
  dash_scope_api_key = if_valid c.dash_scope_api_key n.dash_scope_api_key;
}

abbrev pub is_unset : NodeStatus → Bool
is_unset (other []) = true
is_unset _ = false

-- The node that CreateNode saves.
unfoldable pub completed : Text → Time → Node → Node
completed id now node = record node {
  id = if is_empty node.id then id else node.id;
  created_at = if node.created_at == 0 then now else node.created_at;
  updated_at = now;
  status = if is_unset node.status then pending else node.status;
  ssh_port = if is_zero node.ssh_port then pos 22 else node.ssh_port;
  torch_dtype = or_default node.torch_dtype (codes "float16");
  device = or_default node.device (codes "cuda");
}

-- The callback of UpdateSecrets.
abbrev pub set_secrets : Text → Text → Text → NodeFn
set_secrets password hf_token dashscope n = (
  none,
  record n {
    ssh_password = unless_empty password n.ssh_password;
    hf_token = unless_empty hf_token n.hf_token;
    dash_scope_api_key = unless_empty dashscope n.dash_scope_api_key;
  },
)

module _ {D : Type 0} (driver : Driver D) (codec : Codec) where
  -- `continue` at a row that cannot be scanned or decoded.
  unfoldable pub decoded : List (Result Text Text) → List Node
  decoded [] = []
  decoded (err e ∷ rows) = decoded rows
  decoded (ok raw ∷ rows) =
      let rest = decoded rows in elim (codec.unmarshal raw) [ err e ↦ rest | ok n ↦ n ∷ rest ]

  unfoldable pub save_values : Node → Text → List Value
  save_values n raw =
      text n.id
      ∷ bytes raw
      ∷ text n.ssh_password
      ∷ text n.ssh_private_key
      ∷ text n.hf_token
      ∷ text n.dash_scope_api_key
      ∷ time n.created_at
      ∷ time n.updated_at
      ∷ []

  unfoldable pub save_node : Node → D → Option Text × D
  unfolding save_values
  save_node n d = elim (codec.marshal n) [
    | err e ↦ (some e, d)
    | ok raw ↦ driver.exec save_statement (save_values n raw) d
  ]

  unfoldable pub pg_append_event : Text → NodeStatus → Text → Text → Time → D → D
  pg_append_event id status message event_id now d =
      (driver.exec insert_event
        (text event_id ∷ text id ∷ text (status_text status) ∷ text message ∷ time now ∷ []) d).1

  unfoldable pub pg_create_node : Text → Text → Time → Time → Node → D → Result Text Node × D
  unfolding completed save_node pg_append_event
  pg_create_node id event_id now at_event node d =
      let n = completed id now node in
      let (failure, saved) = save_node n d in
      elim failure [
        | some e ↦ (err e, saved)
        | none ↦
            (ok n, pg_append_event n.id pending (codes "Node registered") event_id at_event saved)
      ]

  unfoldable pub pg_list_nodes : D → List SanitizedNode
  unfolding decoded
  pg_list_nodes d =
      elim (driver.query_data (select_data ++ codes " ORDER BY created_at DESC") [] d) [
        | err e ↦ []
        | ok rows ↦ map sanitized (decoded rows)
      ]

  unfoldable pub pg_get_node : Text → D → Option Node
  unfolding with_secrets
  pg_get_node id d = elim (driver.query_node select_node (text id ∷ []) d) [
    | err e ↦ none
    | ok columns ↦ elim (codec.unmarshal columns.document) [
      | err e ↦ none
      | ok n ↦ some (with_secrets columns n)
    ]
  ]

  unfoldable pub pg_update_node : Text → NodeFn → Time → D → Result Text Node × D
  unfolding pg_get_node save_node
  pg_update_node id fn now d = elim (pg_get_node id d) [
    | none ↦ (err (codes "node " ++ id ++ codes " not found"), d)
    | some node ↦
        let (failure, changed) = fn node in
        elim failure [
          | some e ↦ (err e, d)
          | none ↦
              let n = record changed { updated_at = now } in
              let (refused, saved) = save_node n d in
              (elim refused [ some e ↦ err e | none ↦ ok n ], saved)
        ]
  ]

  -- The readings of the clock are those of the callback, of `UpdateNode` and of the event.
  unfoldable pub pg_update_status :
      Text → NodeStatus → Text → Text → Time → Time → Time → D → Result Text Node × D
  unfolding pg_update_node pg_append_event
  pg_update_status id status message event_id at_ready at_update at_event d =
      let (result, after) =
        pg_update_node id (set_node_status status message at_ready) at_update d in
      elim result [
        | err e ↦ (err e, after)
        | ok n ↦ (ok n, pg_append_event id status message event_id at_event after)
      ]

  unfoldable pub pg_delete_node : Text → D → Option Text × D
  pg_delete_node id d =
      driver.exec (codes "DELETE FROM control_plane_nodes WHERE id=$1") (text id ∷ []) d

  -- The loop of GetEvents.
  unfoldable pub events_of : Text → List (Result Text EventColumns) → List NodeEvent
  events_of id [] = []
  events_of id (err e ∷ rows) = events_of id rows
  events_of id (ok c ∷ rows) =
      record {
        id = c.id;
        node_id = id;
        status = c.status;
        message = c.message;
        created_at = c.created_at;
      }
      ∷ events_of id rows

  unfoldable pub pg_get_events : Text → D → List NodeEvent
  unfolding events_of
  pg_get_events id d = elim (driver.query_events select_events (text id ∷ []) d) [
    | err e ↦ []
    | ok rows ↦ events_of id rows
  ]

  unfoldable pub pg_credentials : Text → D → Option (Text × Text)
  unfolding pg_get_node
  pg_credentials id d = elim (pg_get_node id d) [
    | none ↦ none
    | some n ↦ some (n.ssh_username, n.ssh_password)
  ]

  unfoldable pub pg_update_secrets : Text → Text → Text → Text → Time → D → Option Text × D
  unfolding pg_update_node
  pg_update_secrets id password hf_token dashscope now d =
      let (result, after) = pg_update_node id (set_secrets password hf_token dashscope) now d in
      (elim result [ err e ↦ some e | ok n ↦ none ], after)

  unfoldable pub pg_upsert_assignment : Text → ModelAssignment → Time → D → Result Text Node × D
  unfolding pg_update_node upsert
  pg_upsert_assignment id a now d = pg_update_node id (upsert a) now d

  -- The loop of FindAssignmentForModel, over the rows that could be decoded.
  unfoldable pub find_in : Text → List Node → Option (Node × ModelAssignment)
  find_in model_id [] = none
  find_in model_id (n ∷ nodes) =
      let later = find_in model_id nodes in
      elim (find? (λ a. equal_fold a.model_id model_id) n.assignments) [
        | some a ↦ some (n, a)
        | none ↦ later
      ]

  unfoldable pub pg_find_assignment_for_model : Text → D → Option (Node × ModelAssignment)
  unfolding find_in decoded
  pg_find_assignment_for_model model_id d =
      elim (driver.query_data
        (select_data ++ codes " WHERE data->>'status' = 'READY' ORDER BY updated_at DESC") [] d) [
          | err e ↦ none
          | ok rows ↦ find_in model_id (decoded rows)
        ]
