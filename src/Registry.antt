-- ===== src/Registry.antt =====
-- pkg/registry/registry.go: where requests for a model go. The lock of each method makes it one step.
use compute_backend.Prelude.{◌≡◌, Bool, Option, some, if◌then◌else◌, []}
use compute_backend.Strings.{Text, text_eq}
use compute_backend.Maps.{Assoc, lookup, insert, lookup-insert}

record Entry : Type 0 where
  external_id : Text
  target_url : Text
  supports_ws : Bool

record Registry : Type 0 where
  entries : Assoc Entry

abbrev new : Registry
new = record { entries = [] }

unfoldable set : Entry → Registry → Registry
set entry r = record r { entries = insert entry.external_id entry r.entries }

-- `none` is an entry that is not there.
unfoldable get : Text → Registry → Option Entry
get external_id r = lookup external_id r.entries

-- An entry is found under its id after it was set, and every other id is as it was.
get-set :
    (id : Text) (entry : Entry) (r : Registry)
    → get id (set entry r) ≡ (if text_eq entry.external_id id then some entry else get id r)
unfolding get set
get-set id entry r = lookup-insert entry.external_id id entry r.entries
