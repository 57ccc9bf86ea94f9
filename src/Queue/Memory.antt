-- ===== src/Queue/Memory.antt =====
-- A server with one map of strings and lists, which answers every command.
use compute_backend.Prelude.{
  ◌≡◌, refl, ap, ◌∙◌, false, inl, inr, Option, none, some, List, [], ◌∷◌, ◌++◌, arith,
  if◌then◌else◌, Bool-cases, ok, length,
}
use compute_backend.Strings.{Text, codes, text_eq, text_eq→eq}
use compute_backend.Maps.{Assoc, lookup, insert, lookup-insert}
use compute_backend.Queue.{Answer, found, absent, broken, Redis}
use compute_backend.Queue.Contract.{RedisLaws}

-- What stands at a key.
pub data Stored : Type 0 where
  string : Text → Stored
  items : List Text → Stored

abbrev pub Memory : Type 0
Memory = Assoc Stored

abbrev pub wrong_type : Text
wrong_type = codes "WRONGTYPE Operation against a key holding the wrong kind of value"

abbrev pub items_of : Option Stored → List Text
items_of (some (items xs)) = xs
items_of _ = []

abbrev pub read_of : Option Stored → Answer
read_of none = absent
read_of (some (string v)) = found v
read_of (some (items xs)) = broken wrong_type

unfoldable pub items_at : Text → Memory → List Text
items_at k m = items_of (lookup k m)

unfoldable pub answer_at : Text → Memory → Answer
answer_at k m = read_of (lookup k m)

abbrev pub pushed_on : Option Stored → Text → Text → Memory → Option Text × Memory
pushed_on none k x m = (none, insert k (items (x ∷ [])) m)
pushed_on (some (items xs)) k x m = (none, insert k (items (xs ++ x ∷ [])) m)
pushed_on (some (string v)) k x m = (some wrong_type, m)

unfoldable pub push_at : Text → Text → Memory → Option Text × Memory
push_at k x m = pushed_on (lookup k m) k x m

abbrev pub popped_of : Option Stored → Text → Memory → Answer × Memory
popped_of (some (items (x ∷ xs))) k m = (found x, insert k (items xs) m)
popped_of (some (string v)) k m = (broken wrong_type, m)
popped_of _ k m = (absent, m)

unfoldable pub pop_at : Text → Memory → Answer × Memory
pop_at k m = popped_of (lookup k m) k m

abbrev pub memory : Redis Memory
memory = record {
  set = λ k v m. (none, insert k (string v) m);
  get = answer_at;
  rpush = push_at;
  blpop = pop_at;
  llen = λ k m. ok (length (items_at k m));
}

answer_at-insert :
    (k j : Text) (e : Stored) (m : Memory)
    → answer_at j (insert k e m) ≡ (if text_eq k j then read_of (some e) else answer_at j m)
unfolding answer_at
answer_at-insert k j e m = ground (arith, lookup-insert k j e m)

items_at-insert :
    (k j : Text) (e : Stored) (m : Memory)
    → items_at j (insert k e m) ≡ (if text_eq k j then items_of (some e) else items_at j m)
unfolding items_at
items_at-insert k j e m = ground (arith, lookup-insert k j e m)

answer_at-push :
    (k j x : Text) (m : Memory)
    → text_eq k j ≡ false
    → answer_at j (push_at k x m).1 ≡ answer_at j m
unfolding push_at
answer_at-push k j x m other = go (lookup k m)
  where
    go : (o : Option Stored) → answer_at j (pushed_on o k x m).1 ≡ answer_at j m
    go none = ground (arith, answer_at-insert k j (items (x ∷ [])) m)
    go (some (items xs)) = ground (arith, answer_at-insert k j (items (xs ++ x ∷ [])) m)
    go (some (string v)) = refl

items_at-push :
    (k j x : Text) (m : Memory)
    → (push_at k x m).0 ≡ none
    → items_at j (push_at k x m).1 ≡ (if text_eq k j then items_at j m ++ x ∷ [] else items_at j m)
unfolding push_at
items_at-push k j x m = go (lookup k m) refl
  where
    added :
        (e : Stored)
        → items_of (some e) ≡ items_at k m ++ x ∷ []
        → items_at j (insert k e m) ≡ (if text_eq k j then items_at j m ++ x ∷ [] else items_at j m)
    added e h = elim (Bool-cases (text_eq k j)) [
      | inl same ↦ rw same (
          items_at-insert k j e m
          ∙ ap (λ b. if b then items_of (some e) else items_at j m) same
          ∙ h
          ∙ ap (λ t. items_at t m ++ x ∷ []) (text_eq→eq k j same))
      | inr differs ↦ ground (arith, items_at-insert k j e m)
    ]

    go :
        (o : Option Stored)
        → lookup k m ≡ o
        → (pushed_on o k x m).0 ≡ none
        → items_at j (pushed_on o k x m).1
          ≡ (if text_eq k j then items_at j m ++ x ∷ [] else items_at j m)
    go none e h = added (items (x ∷ [])) (unfold items_at in rw e refl)
    go (some (items xs)) e h = added (items (xs ++ x ∷ [])) (unfold items_at in rw e refl)
    go (some (string v)) e h = cc

pop_at-cons :
    (k x : Text) (xs : List Text) (m : Memory)
    → items_at k m ≡ x ∷ xs
    → pop_at k m ≡ (found x, insert k (items xs) m)
unfolding pop_at items_at
pop_at-cons k x xs m = go (lookup k m)
  where
    go :
        (o : Option Stored)
        → items_of o ≡ x ∷ xs
        → popped_of o k m ≡ (found x, insert k (items xs) m)
    go none h = cc
    go (some (string v)) h = cc
    go (some (items [])) h = cc
    go (some (items (y ∷ ys))) h =
        let first : y ≡ x = cc in
        let rest : ys ≡ xs = cc in λ i. (found (first i), insert k (items (rest i)) m)

answer_at-pop :
    (k j : Text) (m : Memory) → text_eq k j ≡ false → answer_at j (pop_at k m).1 ≡ answer_at j m
unfolding pop_at
answer_at-pop k j m other = go (lookup k m)
  where
    go : (o : Option Stored) → answer_at j (popped_of o k m).1 ≡ answer_at j m
    go none = refl
    go (some (string v)) = refl
    go (some (items [])) = refl
    go (some (items (x ∷ xs))) = ground (arith, answer_at-insert k j (items xs) m)

pub memory_laws : RedisLaws memory items_at
memory_laws = record {
  get-set = λ k j v m _. answer_at-insert k j (string v) m;
  items-set = λ k j v m other. ground (arith, items_at-insert k j (string v) m, other);
  get-rpush = answer_at-push;
  items-rpush = items_at-push;
  blpop_first = λ k x xs m h. ap (λ p. p.0) (pop_at-cons k x xs m h);
  items-blpop = λ k j x xs m h.
      ap (λ p. items_at j p.1) (pop_at-cons k x xs m h) ∙ items_at-insert k j (items xs) m;
  get-blpop = answer_at-pop;
}
