-- ===== src/ControlPlane/Store/Assignments.antt =====
-- What `UpsertAssignment` does to a node, and what `FindAssignmentForModel` finds.
use compute_backend.Prelude.{
  ◌≡◌, refl, ◌⊎◌, inl, inr, Bool, true, false, Option, none, some, List, [], ◌∷◌, ◌++◌, arith,
  if◌then◌else◌, Bool-cases, any, find?,
}
use compute_backend.Strings.{Text, text_eq, text_eq_iff}
use compute_backend.Strings.Fold.{equal_fold, equal_fold_refl}
use compute_backend.Maps.{Assoc}
use compute_backend.ControlPlane.Types.{NodeStatus, ready, Node, ModelAssignment}
use compute_backend.ControlPlane.Store.Defs.{
  Store, replace_assignment, upsert, is_ready, find_assignment, find_assignment_for_model,
}

-- The assignment of a model, by its exact id.
abbrev pub assigned : Text → List ModelAssignment → Option ModelAssignment
assigned model_id old = find? (λ a. text_eq a.model_id model_id) old

replace-none :
    (a : ModelAssignment) (old : List ModelAssignment)
    → replace_assignment a old ≡ none
    → assigned a.model_id old ≡ none
unfolding replace_assignment
replace-none a [] h = refl
replace-none a (x ∷ old) h = ground (arith, replace-none a old)

assigned-replace :
    (a : ModelAssignment) (old replaced : List ModelAssignment) (m : Text)
    → replace_assignment a old ≡ some replaced
    → assigned m replaced ≡ (if text_eq a.model_id m then some a else assigned m old)
unfolding replace_assignment
assigned-replace a [] replaced m h = cc
assigned-replace a (x ∷ old) replaced m h = elim (Bool-cases (text_eq x.model_id a.model_id)) [
  | inl same ↦
      let e : replaced ≡ a ∷ old = ground arith in
      rw e (
        ground (
          arith,
          text_eq_iff x.model_id a.model_id,
          text_eq_iff x.model_id m,
          text_eq_iff a.model_id m,
        ))
  | inr differs ↦
      replaced_later (replace_assignment a old) refl (ground arith)
        (λ r e. assigned-replace a old r m e)
]
  where
    replaced_later :
        (o : Option (List ModelAssignment))
        → replace_assignment a old ≡ o
        → elim o [ none ↦ none | some r ↦ some (x ∷ r) ] ≡ some replaced
        → ((r : List ModelAssignment)
            → replace_assignment a old ≡ some r
            → assigned m r ≡ (if text_eq a.model_id m then some a else assigned m old))
        → assigned m replaced ≡ (if text_eq a.model_id m then some a else assigned m (x ∷ old))
    replaced_later none e k later = cc
    replaced_later (some r) e k later =
        let whole : replaced ≡ x ∷ r = ground arith in
        rw whole (
          ground (
            arith,
            later r e,
            text_eq_iff x.model_id a.model_id,
            text_eq_iff x.model_id m,
            text_eq_iff a.model_id m,
          ))

assigned-concat :
    (a : ModelAssignment) (old : List ModelAssignment) (m : Text)
    → assigned a.model_id old ≡ none
    → assigned m (old ++ a ∷ []) ≡ (if text_eq a.model_id m then some a else assigned m old)
assigned-concat a [] m h = refl
assigned-concat a (x ∷ old) m h = ground (
  arith,
  assigned-concat a old m,
  text_eq_iff x.model_id a.model_id,
  text_eq_iff x.model_id m,
  text_eq_iff a.model_id m,
)

any-concat :
    (m : Text) (models : List Text) → any (λ model. equal_fold model m) (models ++ m ∷ []) ≡ true
any-concat m [] = ground (arith, equal_fold_refl m)
any-concat m (x ∷ models) = ground (arith, any-concat m models)

-- After an upsert the assignment of its model is the new one, every other model's is what it was, the model
-- is among the node's models up to case, and the call did not fail.
pub upsert_lem :
    (a : ModelAssignment) (n : Node)
    → let (failure, n') = upsert a n in
      (failure ≡ none)
      × ((m : Text)
          → assigned m n'.assignments
            ≡ (if text_eq a.model_id m then some a else assigned m n.assignments))
      × (any (λ model. equal_fold model a.model_id) n'.models ≡ true)
unfolding upsert
upsert_lem a n = (refl, at (replace_assignment a n.assignments) refl, listed)
  where
    at :
        (o : Option (List ModelAssignment))
        → replace_assignment a n.assignments ≡ o
        → (m : Text)
        → assigned m (elim o [ none ↦ n.assignments ++ a ∷ [] | some replaced ↦ replaced ])
          ≡ (if text_eq a.model_id m then some a else assigned m n.assignments)
    at none e m = assigned-concat a n.assignments m (replace-none a n.assignments e)
    at (some replaced) e m = assigned-replace a n.assignments replaced m e

    listed :
        any
          (λ model. equal_fold model a.model_id)
          (if any (λ model. equal_fold model a.model_id) n.models
            then n.models
            else n.models ++ a.model_id ∷ [])
        ≡ true
    listed = elim (Bool-cases (any (λ model. equal_fold model a.model_id) n.models)) [
      | inl present ↦ rw present present
      | inr absent ↦ rw absent (any-concat a.model_id n.models)
    ]

ready_of : (st : NodeStatus) → is_ready st ≡ true → st ≡ ready
ready_of ready h = refl
ready_of _ h = cc

find?-some : {A : Type 0} (p : A → Bool) (xs : List A) (x : A) → find? p xs ≡ some x → p x ≡ true
find?-some p [] x h = cc
find?-some p (y ∷ xs) x h = ground (arith, find?-some p xs x)

find?-none : {A : Type 0} (p : A → Bool) (xs : List A) → find? p xs ≡ none → any p xs ≡ false
find?-none p [] h = refl
find?-none p (y ∷ xs) h = ground (arith, find?-none p xs)

-- A node of the map, under some key.
abbrev pub Elem : Node → Assoc Node → Type 0
Elem n [] = ⊥
Elem n ((k, x) ∷ nodes) = (n ≡ x) ⊎ Elem n nodes

find_assignment_sound :
    (model_id : Text) (nodes : Assoc Node) (n : Node) (a : ModelAssignment)
    → find_assignment model_id nodes ≡ some (n, a)
    → Elem n nodes
      × (n.status ≡ ready)
      × (find? (λ x. equal_fold x.model_id model_id) n.assignments ≡ some a)
      × (equal_fold a.model_id model_id ≡ true)
unfolding find_assignment
find_assignment_sound m [] n a h = cc
find_assignment_sound m ((k, x) ∷ nodes) n a h =
    cases (is_ready x.status) refl (find? (λ z. equal_fold z.model_id m) x.assignments) refl
      (find_assignment_sound m nodes n a) h
  where
    cases :
        (b : Bool)
        → is_ready x.status ≡ b
        → (o : Option ModelAssignment) → find? (λ z. equal_fold z.model_id m) x.assignments ≡ o
        → (find_assignment m nodes ≡ some (n, a)
            → Elem n nodes
              × (n.status ≡ ready)
              × (find? (λ z. equal_fold z.model_id m) n.assignments ≡ some a)
              × (equal_fold a.model_id m ≡ true))
        → (if b
            then elim o [ some c ↦ some (x, c) | none ↦ find_assignment m nodes ]
            else find_assignment m nodes)
          ≡ some (n, a)
        → Elem n ((k, x) ∷ nodes)
          × (n.status ≡ ready)
          × (find? (λ z. equal_fold z.model_id m) n.assignments ≡ some a)
          × (equal_fold a.model_id m ≡ true)
    cases true e (some c) f later h =
        let same : n ≡ x = cc in
        let first : a ≡ c = cc in
        let meets = find?-some (λ z. equal_fold z.model_id m) x.assignments c f in
        (inl same, rw same (ready_of x.status e), rw (same, first) f, rw first meets)
    cases true e none f later h = let (l, r, g, q) = later h in (inr l, r, g, q)
    cases false e o f later h = let (l, r, g, q) = later h in (inr l, r, g, q)

find_assignment_complete :
    (model_id : Text) (nodes : Assoc Node) (n : Node)
    → find_assignment model_id nodes ≡ none
    → Elem n nodes
    → n.status ≡ ready
    → any (λ a. equal_fold a.model_id model_id) n.assignments ≡ false
unfolding find_assignment
find_assignment_complete m [] n h e r = elim e [ ]
find_assignment_complete m ((k, x) ∷ nodes) n h (inl e) r =
    let on : is_ready x.status ≡ true = rw (← e, r) in
    rw e (find?-none (λ z. equal_fold z.model_id m) x.assignments (ground arith))
find_assignment_complete m ((k, x) ∷ nodes) n h (inr e) r =
    find_assignment_complete m nodes n (ground arith) e r

-- For every order of the map: what is found is the first assignment of the model, up to case, on a node of the
-- map that is READY; and where nothing is found no READY node of the map has one.
pub find_assignment_for_model_lem :
    (model_id : Text) (s : Store)
    → ((n : Node) (a : ModelAssignment)
        → find_assignment_for_model model_id s ≡ some (n, a)
        → Elem n s.nodes
          × (n.status ≡ ready)
          × (find? (λ x. equal_fold x.model_id model_id) n.assignments ≡ some a)
          × (equal_fold a.model_id model_id ≡ true))
      × ((n : Node)
          → find_assignment_for_model model_id s ≡ none
          → Elem n s.nodes
          → n.status ≡ ready
          → any (λ a. equal_fold a.model_id model_id) n.assignments ≡ false)
unfolding find_assignment_for_model
find_assignment_for_model_lem m s =
    (find_assignment_sound m s.nodes, find_assignment_complete m s.nodes)
