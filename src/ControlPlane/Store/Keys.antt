-- ===== src/ControlPlane/Store/Keys.antt =====
-- The keys of the map of nodes in pkg/controlplane/store.go, and the methods as one type of calls.
use compute_backend.Prelude.{
  ◌≡◌, refl, sym, ◌∙◌, inl, inr, Option, none, some, [], ◌∷◌, arith, Bool-cases, Option-cases, Time,
}
use compute_backend.Strings.{Text, text_eq, text_eq→eq, text_eq_iff}
use compute_backend.Maps.{Assoc, lookup, insert, remove, lookup-insert, lookup-remove}
use compute_backend.ControlPlane.Types.{NodeStatus, error, Node, NodeEvent, ModelAssignment}
use compute_backend.ControlPlane.Store.Defs.{
  Store, Disk, NodeFn, save, with_event, registered, create_node, update_node, update_status,
  set_node_status, append_event, upsert, upsert_assignment, update_secrets, set_node, delete_node,
}

abbrev pub IsKeyed : Assoc Node → Type 0
IsKeyed [] = Unit
IsKeyed ((k, n) ∷ m) = (n.id ≡ k) × (lookup k m ≡ none) × IsKeyed m

pub IsKeyed-insert :
    (k : Text) (n : Node) (m : Assoc Node) → n.id ≡ k → IsKeyed m → IsKeyed (insert k n m)
unfolding insert
IsKeyed-insert k n [] e h = (e, unfold lookup in refl, tt)
IsKeyed-insert k n ((j, x) ∷ m) e (a, b, h) = elim (Bool-cases (text_eq j k)) [
  | inl same ↦ rw same (e ∙ sym (text_eq→eq j k same), b, h)
  | inr differs ↦ rw differs (
    a,
    lookup-insert k j n m ∙ ground (arith, text_eq_iff j k, text_eq_iff k j),
    IsKeyed-insert k n m e h,
  )
]

pub IsKeyed-remove : (k : Text) (m : Assoc Node) → IsKeyed m → IsKeyed (remove k m)
unfolding remove
IsKeyed-remove k [] h = tt
IsKeyed-remove k ((j, x) ∷ m) (a, b, h) = elim (Bool-cases (text_eq j k)) [
  | inl same ↦ rw same (IsKeyed-remove k m h)
  | inr differs ↦ rw differs (a, lookup-remove k j m ∙ ground arith, IsKeyed-remove k m h)
]

pub IsKeyed-lookup :
    (k : Text) (n : Node) (m : Assoc Node) → IsKeyed m → lookup k m ≡ some n → n.id ≡ k
unfolding lookup
IsKeyed-lookup k n [] h e = cc
IsKeyed-lookup k n ((j, x) ∷ m) (a, b, h) e = ground (arith, text_eq→eq j k, IsKeyed-lookup k n m h)

-- The methods that change the store, with what the clock, `uuid` and the disk give.
pub data Call : Type 0 where
  creating : Text → Text → Time → Disk → Node → Call
  updating : Text → NodeFn → Time → Disk → Call
  setting_status : Text → NodeStatus → Text → Text → Time → Time → Time → Disk → Disk → Call
  appending : Text → NodeEvent → Disk → Call
  upserting : Text → ModelAssignment → Time → Disk → Call
  setting_secrets : Text → Text → Text → Text → Time → Disk → Call
  setting : Disk → Node → Call
  deleting : Text → Disk → Call

unfoldable pub call : Call → Store → Store
call (creating id ev now disk n) s = (create_node id ev now disk n s).1
call (updating id fn now disk) s = (update_node id fn now disk s).1
call (setting_status id st msg ev t₁ t₂ t₃ d d') s = (update_status id st msg ev t₁ t₂ t₃ d d' s).1
call (appending id event disk) s = append_event id event disk s
call (upserting id a now disk) s = (upsert_assignment id a now disk s).1
call (setting_secrets id p h k now disk) s = (update_secrets id p h k now disk s).1
call (setting disk n) s = (set_node disk n s).1
call (deleting id disk) s = (delete_node id disk s).1

-- A callback that is handed to `UpdateNode` does not change the id.
abbrev pub KeepsId : Call → Type 0
KeepsId (updating id fn now disk) = (n : Node) → (fn n).1.id ≡ n.id
KeepsId _ = Unit

pub nodes-save : (disk : Disk) (s : Store) → (save disk s).1.nodes ≡ s.nodes
unfolding save
nodes-save disk s = ground arith

-- The node that `updateNode` leaves in the map.
abbrev pub touched : Time → Option Text × Node → Node
touched now (some e, n) = n
touched now (none, n) = record n { updated_at = now }

pub update_node_found :
    (id : Text) (fn : NodeFn) (now : Time) (disk : Disk) (s : Store) (n : Node)
    → lookup id s.nodes ≡ some n
    → (update_node id fn now disk s).1.nodes ≡ insert id (touched now (fn n)) s.nodes
unfolding update_node save
update_node_found id fn now disk s n found = ground arith

id-touched : (now : Time) (r : Option Text × Node) → (touched now r).id ≡ r.1.id
id-touched now (some e, n) = refl
id-touched now (none, n) = refl

update_node-IsKeyed :
    (id : Text) (fn : NodeFn) (now : Time) (disk : Disk) (s : Store)
    → ((n : Node) → (fn n).1.id ≡ n.id)
    → IsKeyed s.nodes
    → IsKeyed (update_node id fn now disk s).1.nodes
update_node-IsKeyed id fn now disk s keeps h = elim (Option-cases (lookup id s.nodes)) [
  | inl missing ↦
      let e : (update_node id fn now disk s).1 ≡ s = unfold update_node in ground arith in rw e h
  | inr (n, found) ↦ rw (update_node_found id fn now disk s n found) (
      IsKeyed-insert id (touched now (fn n)) s.nodes
        (id-touched now (fn n) ∙ keeps n ∙ IsKeyed-lookup id n s.nodes h found) h)
]

id-set_node_status :
    (st : NodeStatus) (msg : Text) (now : Time) (n : Node)
    → (set_node_status st msg now n).1.id ≡ n.id
id-set_node_status error msg now n = refl
id-set_node_status _ msg now n = refl

update_status-IsKeyed :
    (id : Text) (st : NodeStatus) (msg ev : Text) (t₁ t₂ t₃ : Time) (d d' : Disk) (s : Store)
    → IsKeyed s.nodes
    → IsKeyed (update_status id st msg ev t₁ t₂ t₃ d d' s).1.nodes
update_status-IsKeyed id st msg ev t₁ t₂ t₃ d d' s h =
    let fn = set_node_status st msg t₁ in
    let e : (update_status id st msg ev t₁ t₂ t₃ d d' s).1.nodes
        ≡ (update_node id fn t₂ d s).1.nodes =
      unfold update_status append_event with_event save in ground arith in
    rw e (update_node-IsKeyed id fn t₂ d s (id-set_node_status st msg t₁) h)

-- Every method keeps the keys of the map of nodes: each is the id of its node, and stands once; a callback of an
-- update must keep the id.
pub call-IsKeyed : (c : Call) (s : Store) → KeepsId c → IsKeyed s.nodes → IsKeyed (call c s).nodes
unfolding call
call-IsKeyed (creating id ev now disk n) s k h =
    unfold create_node with_event in
    rw nodes-save (IsKeyed-insert id (registered id now n) s.nodes refl h)
call-IsKeyed (updating id fn now disk) s k h = update_node-IsKeyed id fn now disk s k h
call-IsKeyed (setting_status id st msg ev t₁ t₂ t₃ d d') s k h =
    update_status-IsKeyed id st msg ev t₁ t₂ t₃ d d' s h
call-IsKeyed (appending id event disk) s k h = unfold append_event with_event in rw nodes-save h
call-IsKeyed (upserting id a now disk) s k h =
    unfold upsert_assignment upsert in update_node-IsKeyed id (upsert a) now disk s (λ n. refl) h
call-IsKeyed (setting_secrets id p t q now disk) s k h =
    unfold update_secrets in update_node-IsKeyed id _ now disk s (λ n. refl) h
call-IsKeyed (setting disk n) s k h =
    unfold set_node in rw nodes-save (IsKeyed-insert n.id n s.nodes refl h)
call-IsKeyed (deleting id disk) s k h = elim (Option-cases (lookup id s.nodes)) [
  | inl missing ↦
      let e : (delete_node id disk s).1 ≡ s = unfold delete_node in ground arith in rw e h
  | inr (n, found) ↦
      let e : (delete_node id disk s).1.nodes ≡ remove id s.nodes =
        unfold delete_node save in ground arith in
      rw e (IsKeyed-remove id s.nodes h)
]
