-- ===== src/ControlPlane/Postgres/Agreement.antt =====
-- The store in Postgres against the store in memory, with a disk that works.
use compute_backend.Prelude.{
  ◌≡◌, refl, sym, ap, ◌∙◌, inl, inr, Option, none, some, ◌++◌, arith, if◌then◌else◌, Bool-cases,
  Result, ok, err, Option-cases, Time,
}
use compute_backend.Strings.{Text, codes, text_eq, text_eq→eq}
use compute_backend.Maps.{lookup-insert}
use compute_backend.ControlPlane.Types.{Node}
use compute_backend.ControlPlane.Store.Defs.{
  Store, NodeFn, StoreError, node_not_found, works, save, update_node, get_node,
}
use compute_backend.ControlPlane.Provisioner.Outcome.{failure_text}
use compute_backend.ControlPlane.Postgres.Defs.{
  Driver, Codec, NodeColumns, pg_get_node, pg_update_node,
}
use compute_backend.ControlPlane.Postgres.Contract.{DriverLaws, pg_get_node-save_node}

-- A callback that does not fail and keeps the id.
abbrev pub IsTotal : NodeFn → Type 0
IsTotal fn = (n : Node) → ((fn n).0 ≡ none) × ((fn n).1.id ≡ n.id)

-- The answer of the store in memory with the text of its error.
abbrev pub with_text : Text → Result StoreError Node → Result Text Node
with_text id (err e) = err (failure_text id e)
with_text id (ok n) = ok n

module _ {D : Type 0} (driver : Driver D) (codec : Codec) where
  -- Both stores hold the same nodes, each under its id.
  pub record Agrees (s : Store) (d : D) : Type 0 where
    pub same : (j : Text) → get_node j s ≡ pg_get_node driver codec j d
    pub keyed : (j : Text) (n : Node) → get_node j s ≡ some n → n.id ≡ j

module _ {D : Type 0} {driver : Driver D} {codec : Codec} {row : Text → D → Option NodeColumns}
    {jsonb : Text → Text} (laws : DriverLaws driver codec row jsonb) where
  get_node-update_node :
      (id j : Text) (fn : NodeFn) (now : Time) (s : Store) (n : Node)
      → IsTotal fn
      → get_node id s ≡ some n
      → let n' = record (fn n).1 { updated_at = now } in
        ((update_node id fn now works s).0 ≡ ok n')
        × (get_node j (update_node id fn now works s).1
            ≡ (if text_eq id j then some n' else get_node j s))
  unfolding get_node update_node save
  get_node-update_node id j fn now s n total h = (
    ground (arith, (total n).0),
    ground (arith, (total n).0, lookup-insert id j (record (fn n).1 { updated_at = now }) s.nodes),
  )

  update_node-none :
      (id : Text) (fn : NodeFn) (now : Time) (s : Store)
      → get_node id s ≡ none
      → update_node id fn now works s ≡ (err node_not_found, s)
  unfolding get_node update_node
  update_node-none id fn now s h = rw (h, update_node) refl

  pub pg_update_node-none :
      (id : Text) (fn : NodeFn) (now : Time) (d : D)
      → pg_get_node driver codec id d ≡ none
      → pg_update_node driver codec id fn now d
        ≡ (err (codes "node " ++ id ++ codes " not found"), d)
  unfolding pg_update_node
  pg_update_node-none id fn now d h = rw (h, pg_update_node) refl

  pub pg_update_node-some :
      (id j : Text) (fn : NodeFn) (now : Time) (d : D) (n : Node)
      → IsTotal fn
      → pg_get_node driver codec id d ≡ some n
      → let n' = record (fn n).1 { updated_at = now } in
        let q = pg_update_node driver codec id fn now d in
        (q.0 ≡ ok n')
        × (pg_get_node driver codec j q.1
            ≡ (if text_eq n'.id j then some n' else pg_get_node driver codec j d))
  unfolding pg_update_node
  pg_update_node-some id j fn now d n total h =
      let n' = record (fn n).1 { updated_at = now } in
      let (stored, shown) = pg_get_node-save_node laws n' j d in
      rw (h, pg_update_node, (total n).0, stored) (refl, shown)

  pub keyed_lem :
      (id j : Text) (n m : Node) {o : Option Node}
      → n.id ≡ id
      → (o ≡ some m → m.id ≡ j)
      → (if text_eq id j then some n else o) ≡ some m
      → m.id ≡ j
  keyed_lem id j n m hn ho h = elim (Bool-cases (text_eq id j)) [
    | inl e ↦
        let same : some n ≡ some m = ground (arith, h, e) in
        sym (ap (λ o. elim o [ none ↦ id | some k ↦ k.id ]) same) ∙ hn ∙ text_eq→eq id j e
    | inr e ↦ ho (ground arith)
  ]

  -- An update answers alike in both stores and leaves them alike.
  pub update_node-Agrees :
      (id : Text) (fn : NodeFn) (now : Time) (s : Store) (d : D)
      → IsTotal fn
      → Agrees driver codec s d
      → let r = update_node id fn now works s in
        let q = pg_update_node driver codec id fn now d in
        (with_text id r.0 ≡ q.0) × Agrees driver codec r.1 q.1
  update_node-Agrees id fn now s d total agrees = elim (Option-cases (get_node id s)) [
    | inl h ↦
        rw
          (
            update_node-none id fn now s h,
            pg_update_node-none id fn now d (sym (agrees.same id) ∙ h),
          )
          (refl, agrees)
    | inr (n, h) ↦
        let n' = record (fn n).1 { updated_at = now } in
        let under : n'.id ≡ id = (total n).1 ∙ agrees.keyed id n h in
        let back = sym under in
        let h' = sym (agrees.same id) ∙ h in
        let r = λ (j : Text). get_node-update_node id j fn now s n total h in
        let q = λ (j : Text). pg_update_node-some id j fn now d n total h' in
        (
          ap (with_text id) (r id).0 ∙ sym (q id).0,
          record {
            same = λ j.
                (r j).1
                ∙ (λ i. if text_eq (back i) j then some n' else agrees.same j i)
                ∙ sym (q j).1;
            keyed = λ j m hm. keyed_lem id j n' m under (agrees.keyed j m) (sym (r j).1 ∙ hm);
          },
        )
  ]
