-- ===== src/ControlPlane/Postgres/Provisioning.antt =====
-- The provisioner on the store in Postgres: this store keeps the promises of a repository too, on the states in which
-- each node stands under its id.
use compute_backend.Prelude.{
  ℕ, suc, ◌+◌, ◌≡◌, refl, sym, ap, ◌∙◌, inl, inr, Option, none, some, arith, if◌then◌else◌, Result,
  ok, err, Option-cases, Time,
}
use compute_backend.Strings.{Text, codes, text_eq, text_eq_refl}
use compute_backend.ControlPlane.Types.{Node, NodeStatus, provisioning, ready, error}
use compute_backend.ControlPlane.Store.Defs.{set_node_status}
use compute_backend.ControlPlane.Store.Updates.{after_status, set_node_status-touched}
use compute_backend.ControlPlane.Provisioner.Install.{Repository, Outside, connect, provision}
use compute_backend.ControlPlane.Provisioner.Env.{Provisioner}
use compute_backend.ControlPlane.Provisioner.Compose.{Images}
use compute_backend.ControlPlane.Provisioner.Outcome.{
  RepositoryLaws, status-after_status, last_error-after_status, provision_lem,
}
use compute_backend.ControlPlane.Postgres.Defs.{
  Driver, Codec, NodeColumns, pg_get_node, pg_update_status, pg_append_event,
}
use compute_backend.ControlPlane.Postgres.Contract.{DriverLaws, pg_get_node-append_event}
use compute_backend.ControlPlane.Postgres.Agreement.{
  pg_update_node-none, pg_update_node-some, keyed_lem,
}
use compute_backend.ControlPlane.Postgres.Refinement.{set_node_status-IsTotal}

module _ {D : Type 0} (driver : Driver D) (codec : Codec) where
  abbrev pub IsKeyed : D → Type 0
  IsKeyed d = (j : Text) (n : Node) → pg_get_node driver codec j d ≡ some n → n.id ≡ j

module _ {D : Type 0} {driver : Driver D} {codec : Codec} {row : Text → D → Option NodeColumns}
    {jsonb : Text → Text} (laws : DriverLaws driver codec row jsonb) where
  -- A status update of a node that is there, whose id is its own.
  pg_update_status-found :
      (id : Text) (st : NodeStatus) (message event_id : Text) (t₁ t₂ t₃ : Time) (d : D) (n : Node)
      → n.id ≡ id
      → pg_get_node driver codec id d ≡ some n
      → let q = pg_update_status driver codec id st message event_id t₁ t₂ t₃ d in
        let n' = record (set_node_status st message t₁ n).1 { updated_at = t₂ } in
        (q.0 ≡ ok n')
        × (n'.id ≡ id)
        × ((j : Text)
            → pg_get_node driver codec j q.1
              ≡ (if text_eq id j then some n' else pg_get_node driver codec j d))
  unfolding pg_update_status
  pg_update_status-found id st message event_id t₁ t₂ t₃ d n own h =
      let fn = set_node_status st message t₁ in
      let total = set_node_status-IsTotal st message t₁ in
      let n' = record (fn n).1 { updated_at = t₂ } in
      let under : n'.id ≡ id = (total n).1 ∙ own in
      let q = λ (j : Text). pg_update_node-some laws id j fn t₂ d n total h in
      rw ((q id).0, pg_update_status)
        (
          refl,
          under,
          λ j.
              pg_get_node-append_event laws id st message event_id t₃ j _
              ∙ (q j).1
              ∙ ap (λ k. if text_eq k j then some n' else pg_get_node driver codec j d) under,
        )

  pg_update_status-none :
      (id : Text) (st : NodeStatus) (message event_id : Text) (t₁ t₂ t₃ : Time) (d : D)
      → pg_get_node driver codec id d ≡ none
      → (pg_update_status driver codec id st message event_id t₁ t₂ t₃ d).1 ≡ d
  unfolding pg_update_status
  pg_update_status-none id st message event_id t₁ t₂ t₃ d h =
      let e = pg_update_node-none laws id (set_node_status st message t₁) t₂ d h in
      let answer = ap (λ r. r.0) e in rw (answer, pg_update_status) (ap (λ r. r.1) e)

  pub pg_update_status-IsKeyed :
      (id : Text) (st : NodeStatus) (message event_id : Text) (t₁ t₂ t₃ : Time) (d : D)
      → IsKeyed driver codec d
      → IsKeyed driver codec (pg_update_status driver codec id st message event_id t₁ t₂ t₃ d).1
  pg_update_status-IsKeyed id st message event_id t₁ t₂ t₃ d keyed =
      elim (Option-cases (pg_get_node driver codec id d)) [
        | inl h ↦ rw (pg_update_status-none id st message event_id t₁ t₂ t₃ d h) keyed
        | inr (n, h) ↦ λ j m hm.
            let (_, under, at) =
              pg_update_status-found id st message event_id t₁ t₂ t₃ d n (keyed id n h) h in
            keyed_lem laws id j _ m under (keyed j m) (sym (at j) ∙ hm)
      ]

  abbrev pub refused : Result Text Node → Option Text
  refused (err e) = some e
  refused (ok n) = none

  abbrev pub Keyed : Type 0
  Keyed = ℕ × ((d : D) × IsKeyed driver codec d)

  module _ (clock : ℕ → Time) (uuid : ℕ → Text) where
    abbrev pub pg_repository_status : Text → NodeStatus → Text → Keyed → Option Text × Keyed
    pg_repository_status id st message (k, (d, keyed)) =
        let q =
          pg_update_status driver codec id st message (uuid k) (clock k) (clock (suc k))
            (clock (k + 2)) d in
        (
          refused q.0,
          (
            k + 3,
            (
              q.1,
              pg_update_status-IsKeyed id st message (uuid k) (clock k) (clock (suc k))
                  (clock (k + 2)) d keyed,
            ),
          ),
        )

    abbrev pub pg_repository_event : Text → NodeStatus → Text → Keyed → Keyed
    pg_repository_event id st message (k, (d, keyed)) = (
      suc k,
      (
        pg_append_event driver codec id st message (uuid k) (clock k) d,
        λ j n h.
            keyed j n
              (sym (pg_get_node-append_event laws id st message (uuid k) (clock k) j d) ∙ h),
      ),
    )

    -- The store in Postgres as the provisioner takes it. The state counts the readings of the clock and the ids.
    abbrev pub pg_repository : Repository Keyed
    pg_repository = record {
      get_node = λ id t. pg_get_node driver codec id t.1.0;
      update_status = pg_repository_status;
      append_event = pg_repository_event;
    }

    pg_updates :
        (id : Text) (st : NodeStatus) (message : Text) (k : ℕ) (d : D)
        (keyed : IsKeyed driver codec d) (n : Node)
        → pg_get_node driver codec id d ≡ some n
        → let after = pg_repository_status id st message (k, (d, keyed)) in
          (after.0 ≡ none)
          × ((n' : Node) × (pg_get_node driver codec id after.1.1.0 ≡ some n')
              × (n'.status ≡ st)
              × (st ≡ error → n'.last_error ≡ message))
    pg_updates id st message k d keyed n h =
        let (accepted, _, at) =
          pg_update_status-found id st message (uuid k) (clock k) (clock (suc k)) (clock (k + 2)) d
            n (keyed id n h) h in
        let same = set_node_status-touched st message (clock k) (clock (suc k)) n in
        (
          ap refused accepted,
          (
            after_status st message (clock k) (clock (suc k)) n,
            at id ∙ ground (arith, text_eq_refl id, same),
            status-after_status st message (clock k) (clock (suc k)) n,
            last_error-after_status st message (clock k) (clock (suc k)) n,
          ),
        )

    -- The store in Postgres keeps the promises of a repository.
    pub pg_repository_laws : RepositoryLaws pg_repository
    pg_repository_laws = record {
      updates = λ id st message t n found. pg_updates id st message t.0 t.1.0 t.1.1 n found;
      appends = λ id j st message t.
          pg_get_node-append_event laws id st message (uuid t.0) (clock t.0) j t.1.0;
    }

    -- On a database that works and holds each node under its id, a run of the provisioner for a node that is there
    -- ends with the node READY in the database if the attempt to connect and install succeeds, and else with the node
    -- in ERROR with the failure as its last error; and each node is still under its id.
    pub provision-pg_repository :
        {Signer : Type 0} (outside : Outside Signer) (p : Provisioner) (images : Images) (id : Text)
        (k : ℕ) (d : D) (keyed : IsKeyed driver codec d) (n : Node)
        → pg_get_node driver codec id d ≡ some n
        → let before : Keyed = (k, (d, keyed)) in
          let attempt =
            (connect pg_repository outside p images n
              (pg_repository_status id provisioning (codes "Connecting to node") before).1).0 in
          let after = (provision pg_repository outside p images id before).1.0 in
          (n' : Node) × (pg_get_node driver codec id after ≡ some n')
          × (attempt ≡ none → n'.status ≡ ready)
          × ((e : Text) → attempt ≡ some e → (n'.status ≡ error) × (n'.last_error ≡ e))
          × IsKeyed driver codec after
    provision-pg_repository outside p images id k d keyed n found =
        let (n', at, fine, failed) =
          provision_lem pg_repository pg_repository_laws outside p images id (k, (d, keyed)) n
            found in
        (n', at, fine, failed, (provision pg_repository outside p images id (k, (d, keyed))).1.1)
