-- ===== src/Admin/Queues/Wiping.antt =====
-- What `handleWipeAll` in cmd/admin-rest/main.go leaves of Redis.
use compute_backend.Prelude.{
  ◌≡◌, refl, ◌∙◌, Bool, true, false, not, ◌&&◌, ◌||◌, List, [], ◌∷◌, ◌++◌, arith, ◌==◌,
  if◌then◌else◌, ok, any,
}
use compute_backend.Strings.{Text, codes, text_eq}
use compute_backend.Strings.Affix.{has_prefix}
use compute_backend.Admin.Queues.Handlers.{RedisAdmin, handle_wipe_all}

abbrev pub is_among : Text → List Text → Bool
is_among k keys = any (λ j. text_eq j k) keys

-- Each code point stands for itself in a pattern.
abbrev pub is_literal : Text → Bool
is_literal p = not (any (λ c. c == b'*' || c == b'?' || c == b'[' || c == b'\\') p)

-- A Redis that answers: `Keys` with a star behind literals gives the keys with that prefix, and `Del` deletes the
-- keys that it is given.
pub record KeyLaws {R : Type 0} (redis : RedisAdmin R) (present : Text → R → Bool) : Type 0 where
  pub keys_lem :
      (p : Text) (r : R)
      → is_literal p ≡ true
      → (keys : List Text) × (redis.keys (p ++ codes "*") r ≡ ok keys)
        × ((k : Text) → is_among k keys ≡ (present k r && has_prefix k p))
  pub del_lem :
      (keys : List Text) (r : R) (k : Text)
      → present k (redis.del keys r).1 ≡ (if is_among k keys then false else present k r)

is_among-append :
    (k : Text) (xs ys : List Text) → is_among k (xs ++ ys) ≡ (is_among k xs || is_among k ys)
is_among-append k [] ys = refl
is_among-append k (x ∷ xs) ys = ground (arith, is_among-append k xs ys)

removed :
    (p a b : Bool) → (if (p && a) || (p && b) then false else p) ≡ (if a || b then false else p)
removed true true b = refl
removed true false true = refl
removed true false false = refl
removed false true b = refl
removed false false true = refl
removed false false false = refl

module _ {R : Type 0} {redis : RedisAdmin R} {present : Text → R → Bool}
    (laws : KeyLaws redis present) where
  wiped :
      (keys : List Text) (r : R) (k : Text)
      → present k (elim keys [ [] ↦ r | key ∷ rest ↦ (redis.del (key ∷ rest) r).1 ])
        ≡ (if is_among k keys then false else present k r)
  wiped [] r k = refl
  wiped (key ∷ rest) r k = laws.del_lem (key ∷ rest) r k

  -- On a Redis that answers, a wipe leaves no key of a queue or a job, and every other key.
  pub handle_wipe_all_lem :
      (r : R) (k : Text)
      → present k (handle_wipe_all redis r).1 ≡ (
          if has_prefix k (codes "queue:") || has_prefix k (codes "job:")
          then false
          else present k r)
  unfolding handle_wipe_all
  handle_wipe_all_lem r k =
      let (queues, hq, q) = laws.keys_lem (codes "queue:") r refl in
      let (jobs, hj, j) = laws.keys_lem (codes "job:") r refl in
      rw (hq, hj, handle_wipe_all)
        (wiped (queues ++ jobs) r k
          ∙ rw (is_among-append k queues jobs, q k, j k)
              (removed (present k r) (has_prefix k (codes "queue:")) (has_prefix k (codes "job:"))))
