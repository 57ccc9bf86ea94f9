-- ===== src/ControlPlane/Store/Persistence.antt =====
-- `save` and `load` of pkg/controlplane/store.go, one after the other.
use compute_backend.Prelude.{◌≡◌, refl, ap, ◌∙◌, ◌≢◌, Option, none, some, List, [], ◌∷◌, map, arith}
use compute_backend.Strings.{Text, text_eq→eq}
use compute_backend.Maps.{Assoc, lookup, insert, lookup-insert}
use compute_backend.ControlPlane.Types.{Node, NodeEvent}
use compute_backend.ControlPlane.Store.Defs.{
  Store, read, container, persisted, public_part, restored, get_events, load_nodes, load_events,
  new_store,
}
use compute_backend.ControlPlane.Store.Keys.{IsKeyed}

restored-persisted : (n : Node) → restored (persisted n) (public_part n) ≡ n
restored-persisted n = refl

lookup-load_nodes :
    (nodes : Assoc Node) (acc : Assoc Node) (j : Text)
    → IsKeyed nodes
    → lookup j (load_nodes (map (λ entry. persisted entry.1) nodes) acc)
      ≡ elim (lookup j nodes) [ none ↦ lookup j acc | some n ↦ some n ]
unfolding load_nodes
lookup-load_nodes [] acc j h = unfold lookup in refl
lookup-load_nodes ((k, n) ∷ nodes) acc j (same, once, h) =
    ap (λ i. lookup j (load_nodes (map (λ entry. persisted entry.1) nodes) (insert i n acc))) same
    ∙ lookup-load_nodes nodes (insert k n acc) j h
    ∙ unfold lookup in ground (arith, lookup-insert k j n acc, text_eq→eq k j)

lookup-load_events :
    (s : Store) (nodes : Assoc Node) (acc : Assoc (List NodeEvent)) (j : Text)
    → IsKeyed nodes
    → lookup j (
        load_events
          (map (λ entry. persisted entry.1) nodes)
          (map (λ entry. get_events entry.1.id s) nodes)
          acc)
      ≡ elim (lookup j nodes) [ none ↦ lookup j acc | some n ↦ some (get_events j s) ]
unfolding load_events
lookup-load_events s [] acc j h = unfold lookup in refl
lookup-load_events s ((k, n) ∷ nodes) acc j (same, once, h) =
    ap
      (λ i. lookup j (
        load_events (map (λ entry. persisted entry.1) nodes)
          (map (λ entry. get_events entry.1.id s) nodes) (insert i (get_events i s) acc)))
      same
    ∙ lookup-load_events s nodes (insert k (get_events k s) acc) j h
    ∙ unfold lookup in ground (arith, lookup-insert k j (get_events k s) acc, text_eq→eq k j)

get_events_at :
    (id : Text) (t : Store) (o : Option (List NodeEvent))
    → lookup id t.events ≡ o
    → get_events id t ≡ elim o [ none ↦ [] | some evs ↦ evs ]
unfolding get_events
get_events_at id t none e = ground arith
get_events_at id t (some evs) e = ground arith

-- A store that is started on the file of another one, each node of which stands under its id, has the same
-- nodes, credentials included, and the events of each of them. Events of ids that are no node's are not kept.
pub new_store-container :
    (s : Store)
    → IsKeyed s.nodes
    → s.path ≢ []
    → (t : Store) × (new_store s.path (read (container s)) ≡ some t)
      × ((id : Text) → lookup id t.nodes ≡ lookup id s.nodes)
      × ((id : Text) (n : Node) → lookup id s.nodes ≡ some n → get_events id t ≡ get_events id s)
      × ((id : Text) → lookup id s.nodes ≡ none → get_events id t ≡ [])
unfolding new_store container
new_store-container s h nonempty =
    let c = container s in
    let t : Store = record {
      path = s.path;
      nodes = load_nodes c.nodes [];
      events = load_events c.nodes c.events [];
      file = some c;
    } in
    let evs = λ (j : Text). lookup-load_events s s.nodes [] j h in
    (
      t,
      ground arith,
      λ id. lookup-load_nodes s.nodes [] id h ∙ unfold lookup in ground arith,
      λ id n e. get_events_at id t (some (get_events id s)) (evs id ∙ rw e),
      λ id e. get_events_at id t none (evs id ∙ rw e (unfold lookup in refl)),
    )
