-- ===== src/ControlPlane/Postgres/Contract.antt =====
-- What pg_store.go relies on: a database that works and takes every text, with the table of the nodes by their ids,
-- and JSON that drops what is tagged "-".
use compute_backend.Prelude.{
  ◌≡◌, refl, sym, ap, ◌∙◌, inl, inr, Option, none, some, List, [], ◌∷◌, arith, if◌then◌else◌,
  Result, ok, err, Option-cases, Time,
}
use compute_backend.Strings.{Text, codes, text_eq}
use compute_backend.Sql.{Value, text}
use compute_backend.ControlPlane.Types.{Node, NodeStatus}
use compute_backend.ControlPlane.Store.Defs.{public_part}
use compute_backend.ControlPlane.Postgres.Defs.{
  Driver, Codec, NodeColumns, save_statement, save_values, select_node, insert_event, with_secrets,
  save_node, pg_get_node, pg_append_event,
}

abbrev pub row_of : (Text → Text) → Node → Text → NodeColumns
row_of jsonb n raw = record {
  document = jsonb raw;
  ssh_password = some n.ssh_password;
  ssh_private_key = some n.ssh_private_key;
  hf_token = some n.hf_token;
  dash_scope_api_key = some n.dash_scope_api_key;
}

abbrev pub found_row : Option NodeColumns → Result Text NodeColumns
found_row none = err (codes "sql: no rows in result set")
found_row (some r) = ok r

-- `jsonb` is how the column keeps a document.
pub record DriverLaws {D : Type 0} (driver : Driver D) (codec : Codec)
    (row : Text → D → Option NodeColumns) (jsonb : Text → Text) : Type 0 where
  pub save_lem :
      (n : Node) (raw : Text) (d : D)
      → (driver.exec save_statement (save_values driver codec n raw) d).0 ≡ none
  pub save_row :
      (n : Node) (raw j : Text) (d : D)
      → row j (driver.exec save_statement (save_values driver codec n raw) d).1
        ≡ (if text_eq n.id j then some (row_of jsonb n raw) else row j d)
  pub event_row :
      (args : List Value) (j : Text) (d : D) → row j (driver.exec insert_event args d).1 ≡ row j d
  pub select_row :
      (id : Text) (d : D) → driver.query_node select_node (text id ∷ []) d ≡ found_row (row id d)
  pub encoded : Node → Text
  pub marshal_lem : (n : Node) → codec.marshal n ≡ ok (encoded n)
  pub unmarshal_lem : (n : Node) → codec.unmarshal (jsonb (encoded n)) ≡ ok (public_part n)

module _ {D : Type 0} {driver : Driver D} {codec : Codec} {row : Text → D → Option NodeColumns}
    {jsonb : Text → Text} (laws : DriverLaws driver codec row jsonb) where
  node_at : Option NodeColumns → Option Node
  node_at none = none
  node_at (some columns) = elim (codec.unmarshal columns.document) [
    | err e ↦ none
    | ok n ↦ some (with_secrets columns n)
  ]

  pg_get_node_lem : (j : Text) (d : D) → pg_get_node driver codec j d ≡ node_at (row j d)
  unfolding pg_get_node node_at
  pg_get_node_lem j d = elim (Option-cases (row j d)) [
    | inl h ↦ rw (laws.select_row j d, h, pg_get_node) refl
    | inr (c, h) ↦ rw (laws.select_row j d, h, pg_get_node) refl
  ]

  node_at-row_of : (n : Node) → node_at (some (row_of jsonb n (laws.encoded n))) ≡ some n
  unfolding node_at with_secrets
  node_at-row_of n = rw (laws.unmarshal_lem n, node_at) refl

  -- A node that is saved is read back as it was, with its secrets, and every other node is as before.
  pub pg_get_node-save_node :
      (n : Node) (j : Text) (d : D)
      → ((save_node driver codec n d).0 ≡ none)
        × (pg_get_node driver codec j (save_node driver codec n d).1
            ≡ (if text_eq n.id j then some n else pg_get_node driver codec j d))
  unfolding save_node
  pg_get_node-save_node n j d =
      let raw = laws.encoded n in
      let d' = (driver.exec save_statement (save_values driver codec n raw) d).1 in
      let after : pg_get_node driver codec j d'
          ≡ node_at (if text_eq n.id j then some (row_of jsonb n raw) else row j d) =
        pg_get_node_lem j d' ∙ ap node_at (laws.save_row n raw j d) in
      let shown : node_at (if text_eq n.id j then some (row_of jsonb n raw) else row j d)
          ≡ (if text_eq n.id j then some n else pg_get_node driver codec j d) =
        ground (arith, node_at-row_of n, pg_get_node_lem j d) in
      rw (laws.marshal_lem n, save_node) (laws.save_lem n raw d, after ∙ shown)

  pub pg_get_node-append_event :
      (id : Text) (status : NodeStatus) (message event_id : Text) (now : Time) (j : Text) (d : D)
      → pg_get_node driver codec j (pg_append_event driver codec id status message event_id now d)
        ≡ pg_get_node driver codec j d
  unfolding pg_append_event
  pg_get_node-append_event id status message event_id now j d =
      pg_get_node_lem j _ ∙ ap node_at (laws.event_row _ j d) ∙ sym (pg_get_node_lem j d)
