-- ===== src/ControlPlane/Store/Defs.antt =====
-- The methods of `Store`, each as one step under the store's lock. A call of the clock, of `uuid` or of the
-- disk is an argument. A node that a caller goes on to change through a pointer is not modelled.
use compute_backend.Prelude.{
  Bool, true, false, Option, none, some, List, [], ◌∷◌, ◌++◌, map, if◌then◌else◌, Result, ok, err,
  pos, is_zero, Time, any, find?,
}
use compute_backend.Strings.{Text, codes, newline, text_eq, is_empty}
use compute_backend.Strings.Affix.{has_suffix, contains}
use compute_backend.Strings.Trim.{trim_space}
use compute_backend.Strings.Fold.{equal_fold}
use compute_backend.Maps.{Assoc, lookup, insert, remove}
use compute_backend.ControlPlane.Types.{
  NodeStatus, pending, ready, error, Node, NodeEvent, ModelAssignment, SanitizedNode, sanitized,
}

-- `persistedNode` and `persistContainer`; the embedded pointer may be nil.
pub record PersistedNode : Type 0 where
  pub node : Option Node
  pub ssh_password : Text
  pub ssh_private_key : Text
  pub hf_token : Text
  pub dash_scope_api_key : Text

pub record PersistContainer : Type 0 where
  pub nodes : List PersistedNode
  pub events : List (List NodeEvent)

-- The store, and the file at its path as it would be decoded.
pub record Store : Type 0 where
  pub path : Text
  pub nodes : Assoc Node
  pub events : Assoc (List NodeEvent)
  pub file : Option PersistContainer

-- Whether the calls of `save` on the file system succeed.
pub data Disk : Type 0 where
  works fails : Disk

-- What `os.ReadFile` and `Unmarshal` give.
pub data ReadResult : Type 0 where
  not_exist read_failed parse_failed : ReadResult
  read : PersistContainer → ReadResult

pub data StoreError : Type 0 where
  node_not_found save_failed : StoreError
  callback_failed : Text → StoreError

-- What JSON keeps of a node: the fields tagged "-" are dropped.
abbrev pub public_part : Node → Node
public_part n = record n {
  ssh_password = [];
  ssh_private_key = [];
  hf_token = [];
  dash_scope_api_key = [];
}

unfoldable pub get_events : Text → Store → List NodeEvent
get_events id s = elim (lookup id s.events) [ none ↦ [] | some evs ↦ evs ]

-- A node of the container, as it is read back from the file.
abbrev pub persisted : Node → PersistedNode
persisted n = record {
  node = some (public_part n);
  ssh_password = n.ssh_password;
  ssh_private_key = n.ssh_private_key;
  hf_token = n.hf_token;
  dash_scope_api_key = n.dash_scope_api_key;
}

unfoldable pub container : Store → PersistContainer
container s = record {
  nodes = map (λ entry. persisted entry.1) s.nodes;
  events = map (λ entry. get_events entry.1.id s) s.nodes;
}

-- `false` is an error. The file is written beside its place and moved there, so a failure leaves it.
unfoldable pub save : Disk → Store → Bool × Store
save disk s =
    if is_empty s.path
    then (true, s)
    else elim disk [ works ↦ (true, record s { file = some (container s) }) | fails ↦ (false, s) ]

abbrev pub restored : PersistedNode → Node → Node
restored pn n = record n {
  ssh_password = pn.ssh_password;
  ssh_private_key = pn.ssh_private_key;
  hf_token = pn.hf_token;
  dash_scope_api_key = pn.dash_scope_api_key;
}

-- The loop of `load`: `events` are those from the index of the first node on.
unfoldable pub load_nodes : List PersistedNode → Assoc Node → Assoc Node
load_nodes [] nodes = nodes
load_nodes (pn ∷ pns) nodes =
    load_nodes pns (elim pn.node [ none ↦ nodes | some n ↦ insert n.id (restored pn n) nodes ])

unfoldable pub load_events :
    List PersistedNode → List (List NodeEvent) → Assoc (List NodeEvent) → Assoc (List NodeEvent)
load_events [] evs events = events
load_events (pn ∷ pns) [] events = events
load_events (pn ∷ pns) (ev ∷ evs) events =
    load_events pns evs (elim pn.node [ none ↦ events | some n ↦ insert n.id ev events ])

unfoldable pub new_store : Text → ReadResult → Option Store
new_store path found =
    let empty : Store = record { path = path; nodes = []; events = []; file = none } in
    if is_empty path then some empty else elim found [
      | not_exist ↦ some empty
      | read_failed ↦ none
      | parse_failed ↦ none
      | read c ↦ some (record {
        path = path;
        nodes = load_nodes c.nodes [];
        events = load_events c.nodes c.events [];
        file = some c;
      })
    ]

abbrev pub or_default : Text → Text → Text
or_default value fallback = if is_empty (trim_space value) then fallback else value

-- The node that `CreateNode` registers.
abbrev pub registered : Text → Time → Node → Node
registered id now node = record node {
  id = id;
  status = pending;
  created_at = now;
  updated_at = now;
  ssh_port = if is_zero node.ssh_port then pos 22 else node.ssh_port;
  torch_dtype = or_default node.torch_dtype (codes "float16");
  device = or_default node.device (codes "cuda");
}

unfoldable pub with_event : Text → NodeEvent → Store → Store
with_event id event s = record s { events = insert id (get_events id s ++ event ∷ []) s.events }

unfoldable pub create_node : Text → Text → Time → Disk → Node → Store → Option Node × Store
create_node id event_id now disk node s =
    let n = registered id now node in
    let event : NodeEvent = record {
      id = event_id;
      node_id = id;
      status = pending;
      message = codes "Node registered";
      created_at = now;
    } in
    let (saved, t) = save disk (with_event id event (record s { nodes = insert id n s.nodes })) in
    (if saved then some n else none, t)

unfoldable pub list_nodes : Store → List SanitizedNode
unfolding sanitized
list_nodes s = map (λ entry. sanitized entry.1) s.nodes

unfoldable pub get_node : Text → Store → Option Node
get_node id s = lookup id s.nodes

-- A callback changes the node in place, also where it returns an error.
abbrev pub NodeFn : Type 0
NodeFn = Node → Option Text × Node

unfoldable pub update_node : Text → NodeFn → Time → Disk → Store → Result StoreError Node × Store
update_node id fn now disk s = elim (lookup id s.nodes) [
  | none ↦ (err node_not_found, s)
  | some node ↦
      let (failure, changed) = fn node in
      elim failure [
        | some e ↦ (err (callback_failed e), record s { nodes = insert id changed s.nodes })
        | none ↦
            let n = record changed { updated_at = now } in
            let (saved, t) = save disk (record s { nodes = insert id n s.nodes }) in
            (if saved then ok n else err save_failed, t)
      ]
]

-- The callback of `UpdateStatus`.
abbrev pub set_node_status : NodeStatus → Text → Time → NodeFn
set_node_status error message now n = (none, record n { status = error; last_error = message })
set_node_status ready message now n =
    (none, record n { status = ready; last_error = []; last_provisioned_at = some now })
set_node_status status message now n = (none, record n { status = status })

-- The error of `save` is dropped.
unfoldable pub append_event : Text → NodeEvent → Disk → Store → Store
append_event id event disk s = (save disk (with_event id event s)).1

-- The readings of the clock are those of the callback, of `updateNode` and of the event.
unfoldable pub update_status :
    Text
    → NodeStatus
    → Text
    → Text
    → Time
    → Time
    → Time
    → Disk
    → Disk
    → Store
    → Result StoreError Node × Store
update_status id status message event_id at_ready at_update at_event disk disk' s =
    let (result, t) = update_node id (set_node_status status message at_ready) at_update disk s in
    elim result [
      | err e ↦ (err e, t)
      | ok n ↦ (
        ok n,
        append_event id
            (record {
              id = event_id;
              node_id = id;
              status = status;
              message = message;
              created_at = at_event;
            })
            disk' t,
      )
    ]

unfoldable pub credentials : Text → Store → Option (Text × Text)
credentials id s = elim (lookup id s.nodes) [
  | none ↦ none
  | some n ↦ some (n.ssh_username, n.ssh_password)
]

-- The first assignment of the model is replaced; `none` where there is no such assignment.
unfoldable pub replace_assignment :
    ModelAssignment → List ModelAssignment → Option (List ModelAssignment)
replace_assignment a [] = none
replace_assignment a (existing ∷ rest) =
    let later = replace_assignment a rest in
    if text_eq existing.model_id a.model_id
    then some (a ∷ rest)
    else elim later [ none ↦ none | some replaced ↦ some (existing ∷ replaced) ]

unfoldable pub upsert : ModelAssignment → NodeFn
unfolding replace_assignment
upsert a n = (
  none,
  record n {
    assignments = elim (replace_assignment a n.assignments) [
      | none ↦ n.assignments ++ a ∷ []
      | some replaced ↦ replaced
    ];
    models =
        if any (λ model. equal_fold model a.model_id) n.models
        then n.models
        else n.models ++ a.model_id ∷ [];
  },
)

unfoldable pub upsert_assignment :
    Text → ModelAssignment → Time → Disk → Store → Result StoreError Node × Store
unfolding upsert
upsert_assignment id a = update_node id (upsert a)

abbrev pub unless_empty : Text → Text → Text
unless_empty value old = if is_empty value then old else value

unfoldable pub update_secrets :
    Text → Text → Text → Text → Time → Disk → Store → Result StoreError Node × Store
update_secrets id password hf_token dashscope = update_node id (λ n. (
  none,
  record n {
    ssh_password = unless_empty password n.ssh_password;
    hf_token = unless_empty hf_token n.hf_token;
    dash_scope_api_key = unless_empty dashscope n.dash_scope_api_key;
  },
))

unfoldable pub set_node : Disk → Node → Store → Bool × Store
set_node disk node s = save disk (record s { nodes = insert node.id node s.nodes })

unfoldable pub delete_node : Text → Disk → Store → Option StoreError × Store
delete_node id disk s = elim (lookup id s.nodes) [
  | none ↦ (some node_not_found, s)
  | some n ↦
      let (saved, t) =
        save disk (record s { nodes = remove id s.nodes; events = remove id s.events }) in
      (if saved then none else some save_failed, t)
]

abbrev pub is_ready : NodeStatus → Bool
is_ready ready = true
is_ready _ = false

-- The loop over the map, in the order of the association list.
unfoldable pub find_assignment : Text → Assoc Node → Option (Node × ModelAssignment)
find_assignment model_id [] = none
find_assignment model_id ((id, n) ∷ rest) =
    let later = find_assignment model_id rest in
    if is_ready n.status
    then elim (find? (λ a. equal_fold a.model_id model_id) n.assignments) [
      | some a ↦ some (n, a)
      | none ↦ later
    ]
    else later

unfoldable pub find_assignment_for_model : Text → Store → Option (Node × ModelAssignment)
unfolding find_assignment
find_assignment_for_model model_id s = find_assignment model_id s.nodes

-- `NormalizePrivateKey`; `decode` is `base64.StdEncoding.DecodeString`.
abbrev pub begins : Text
begins = codes "-----BEGIN"

abbrev pub end_line : Text → Text
end_line key = if has_suffix key (newline ∷ []) then key else key ++ newline ∷ []

unfoldable pub normalize_private_key : (Text → Option Text) → Text → Text
normalize_private_key decode given =
    let key = trim_space given in
    if is_empty key then [] else if contains key begins then end_line key else elim (decode key) [
      | none ↦ key ++ newline ∷ []
      | some decoded ↦
          let cleaned = trim_space decoded in
          if contains cleaned begins then end_line cleaned else key ++ newline ∷ []
    ]
