-- ===== src/ControlPlane/Store/Updates.antt =====
-- What the other methods of the store do, errors included.
use compute_backend.Prelude.{
  ◌≡◌, refl, sym, ap, ◌∙◌, none, some, [], ◌∷◌, ◌++◌, arith, if◌then◌else◌, ok, err, Time,
}
use compute_backend.Strings.{Text, text_eq, text_eq_iff}
use compute_backend.Maps.{lookup, insert, lookup-remove, lookup-insert_self}
use compute_backend.ControlPlane.Types.{
  NodeStatus, pending, provisioning, ready, error, other, Node, NodeEvent,
}
use compute_backend.ControlPlane.Store.Defs.{
  Store, Disk, works, StoreError, node_not_found, NodeFn, save, with_event, get_events, get_node,
  update_node, update_status, set_node_status, append_event, delete_node,
}
use compute_backend.ControlPlane.Store.Keys.{touched, update_node_found}

-- A failed update leaves the file and the events, but not the memory: unless the node is missing, the callback's
-- changes stay, also where the callback or the disk failed.
pub update_node_error :
    (id : Text) (fn : NodeFn) (now : Time) (disk : Disk) (s : Store) (e : StoreError)
    → (update_node id fn now disk s).0 ≡ err e
    → let t = (update_node id fn now disk s).1 in
      (t.file ≡ s.file)
      × (t.events ≡ s.events)
      × ((n : Node) → lookup id s.nodes ≡ some n → lookup id t.nodes ≡ some (touched now (fn n)))
unfolding update_node save
update_node_error id fn now disk s e h = (
  ground arith,
  ground arith,
  λ n found.
      ap (lookup id) (update_node_found id fn now disk s n found)
      ∙ lookup-insert_self id (touched now (fn n)) s.nodes,
)

-- The status, the last error and the time of provisioning that a node has after `UpdateStatus`.
abbrev pub after_status : NodeStatus → Text → Time → Time → Node → Node
after_status error message at_ready at_update n = record n {
  status = error;
  last_error = message;
  updated_at = at_update;
}
after_status ready message at_ready at_update n = record n {
  status = ready;
  last_error = [];
  last_provisioned_at = some at_ready;
  updated_at = at_update;
}
after_status status message at_ready at_update n = record n {
  status = status;
  updated_at = at_update;
}

update_node_works :
    (id : Text) (fn : NodeFn) (now : Time) (s : Store) (n c : Node)
    → lookup id s.nodes ≡ some n
    → fn n ≡ (none, c)
    → let n' : Node = record c { updated_at = now } in
      update_node id fn now works s
      ≡ (ok n', (save works (record s { nodes = insert id n' s.nodes })).1)
unfolding update_node save
update_node_works id fn now s n c found h = ground arith

events-save : (disk : Disk) (s : Store) → (save disk s).1.events ≡ s.events
unfolding save
events-save disk s = ground arith

set_node_status-after :
    (st : NodeStatus) (msg : Text) (t₁ t₂ : Time) (n : Node)
    → touched t₂ (set_node_status st msg t₁ n) ≡ after_status st msg t₁ t₂ n
set_node_status-after pending msg t₁ t₂ n = refl
set_node_status-after provisioning msg t₁ t₂ n = refl
set_node_status-after error msg t₁ t₂ n = refl
set_node_status-after ready msg t₁ t₂ n = refl
set_node_status-after (other x) msg t₁ t₂ n = refl

set_node_status-none :
    (st : NodeStatus) (msg : Text) (t : Time) (n : Node)
    → set_node_status st msg t n ≡ (none, (set_node_status st msg t n).1)
set_node_status-none pending msg t n = refl
set_node_status-none provisioning msg t n = refl
set_node_status-none error msg t n = refl
set_node_status-none ready msg t n = refl
set_node_status-none (other x) msg t n = refl

pub set_node_status-touched :
    (st : NodeStatus) (msg : Text) (t₁ t₂ : Time) (n : Node)
    → record (set_node_status st msg t₁ n).1 { updated_at = t₂ } ≡ after_status st msg t₁ t₂ n
set_node_status-touched st msg t₁ t₂ n =
    ap (touched t₂) (sym (set_node_status-none st msg t₁ n)) ∙ set_node_status-after st msg t₁ t₂ n

get_node-updated :
    (id : Text) (event : NodeEvent) (d : Disk) (s : Store) (n : Node)
    → get_node id
        (append_event id event d (save works (record s { nodes = insert id n s.nodes })).1)
      ≡ some n
unfolding append_event with_event save get_node
get_node-updated id event d s n = ground (arith, lookup-insert_self id n s.nodes)

get_events-updated :
    (id : Text) (event : NodeEvent) (d : Disk) (s : Store) (n : Node)
    → get_events id
        (append_event id event d (save works (record s { nodes = insert id n s.nodes })).1)
      ≡ get_events id s ++ event ∷ []
unfolding append_event with_event save get_events
get_events-updated id event d s n =
    ground (arith, lookup-insert_self id (get_events id s ++ event ∷ []) s.events)

update_node-status :
    (id : Text) (st : NodeStatus) (msg : Text) (t₁ t₂ : Time) (s : Store) (n : Node)
    → lookup id s.nodes ≡ some n
    → let n' = after_status st msg t₁ t₂ n in
      update_node id (set_node_status st msg t₁) t₂ works s
      ≡ (ok n', (save works (record s { nodes = insert id n' s.nodes })).1)
update_node-status id st msg t₁ t₂ s n found =
    update_node_works id (set_node_status st msg t₁) t₂ s n (set_node_status st msg t₁ n).1 found
      (set_node_status-none st msg t₁ n)
    ∙ ap (λ m. (ok m, (save works (record s { nodes = insert id m s.nodes })).1))
        (set_node_status-touched st msg t₁ t₂ n)

update_status_works :
    (id : Text) (st : NodeStatus) (msg ev : Text) (t₁ t₂ t₃ : Time) (d : Disk) (s : Store)
    (n : Node)
    → lookup id s.nodes ≡ some n
    → let n' = after_status st msg t₁ t₂ n in
      update_status id st msg ev t₁ t₂ t₃ works d s ≡ (
        ok n',
        append_event id
            (record { id = ev; node_id = id; status = st; message = msg; created_at = t₃ })
            d
            (save works (record s { nodes = insert id n' s.nodes })).1,
      )
unfolding update_status
update_status_works id st msg ev t₁ t₂ t₃ d s n found =
    ground (arith, update_node-status id st msg t₁ t₂ s n found)

-- A status update of a node that is there, on a disk that works: the node that is returned and stored has the
-- status, an ERROR keeps its message, READY clears it and notes the time, no other field but the time of the
-- update changes; and exactly one event with the status and the message follows those that the node had.
pub update_status_lem :
    (id : Text) (st : NodeStatus) (msg ev : Text) (t₁ t₂ t₃ : Time) (d : Disk) (s : Store)
    (n : Node)
    → lookup id s.nodes ≡ some n
    → let (result, t) = update_status id st msg ev t₁ t₂ t₃ works d s in
      (result ≡ ok (after_status st msg t₁ t₂ n))
      × (get_node id t ≡ some (after_status st msg t₁ t₂ n))
      × (get_events id t
          ≡ get_events id s
            ++ record { id = ev; node_id = id; status = st; message = msg; created_at = t₃ } ∷ [])
update_status_lem id st msg ev t₁ t₂ t₃ d s n found =
    rw (update_status_works id st msg ev t₁ t₂ t₃ d s n found)
      (refl, get_node-updated id _ d s _, get_events-updated id _ d s (after_status st msg t₁ t₂ n))

-- Deleting a node forgets it and its events and leaves all others; a node that is missing is an error.
pub delete_node_lem :
    (id j : Text) (disk : Disk) (s : Store)
    → let (failure, t) = delete_node id disk s in
      (lookup j t.nodes ≡ (if text_eq id j then none else lookup j s.nodes))
      × (lookup id s.nodes ≡ none → failure ≡ some node_not_found)
      × ((n : Node)
          → lookup id s.nodes ≡ some n
          → get_events j t ≡ (if text_eq id j then [] else get_events j s))
unfolding delete_node save get_events
delete_node_lem id j disk s = (
  ground (arith, lookup-remove id j s.nodes, text_eq_iff id j),
  ground arith,
  λ n found. ground (arith, lookup-remove id j s.events),
)
