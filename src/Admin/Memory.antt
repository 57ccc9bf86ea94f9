-- ===== src/Admin/Memory.antt =====
-- Instances of the interfaces of the admin service: a sort, and a Redis of keys.
use compute_backend.Prelude.{
  ℕ, ◌≤◌, ◌≡◌, refl, ap, ◌∙◌, inl, inr, Bool, true, false, not, ◌&&◌, none, List, [], ◌∷◌, ◌++◌,
  arith, leb, if◌then◌else◌, leb→le, Bool-cases, ok, Time, length, All,
}
use compute_backend.Strings.{Text, codes, text_eq, text_eq→eq}
use compute_backend.Strings.Affix.{has_prefix}
use mathlib.Core.List.{Perm}
use mathlib.Core.List.Perm
use compute_backend.Admin.Jobs.Types.{JobSummary}
use compute_backend.Admin.Jobs.Listing.{SortLaws, IsNewestFirst}
use compute_backend.Admin.Queues.Handlers.{RedisAdmin}
use compute_backend.Admin.Queues.Wiping.{KeyLaws, is_among}

-- Jobs by the time of their creation, the newest first.
insert_job : JobSummary → List JobSummary → List JobSummary
insert_job j [] = j ∷ []
insert_job j (k ∷ ks) =
    let rest = insert_job j ks in if leb k.created_at j.created_at then j ∷ k ∷ ks else k ∷ rest

pub sort_jobs : List JobSummary → List JobSummary
unfolding insert_job
sort_jobs [] = []
sort_jobs (j ∷ js) = insert_job j (sort_jobs js)

insert_job-Perm : (j : JobSummary) (ks : List JobSummary) → Perm (insert_job j ks) (j ∷ ks)
unfolding insert_job
insert_job-Perm j [] = Perm.rfl
insert_job-Perm j (k ∷ ks) = elim (Bool-cases (leb k.created_at j.created_at)) [
  | inl h ↦ rw (insert_job, h) Perm.rfl
  | inr h ↦ rw (insert_job, h) (Perm.trans (Perm.cons k (insert_job-Perm j ks)) (Perm.swap j k ks))
]

sort_jobs-Perm : (js : List JobSummary) → Perm (sort_jobs js) js
unfolding sort_jobs
sort_jobs-Perm [] = Perm.rfl
sort_jobs-Perm (j ∷ js) =
    Perm.trans (insert_job-Perm j (sort_jobs js)) (Perm.cons j (sort_jobs-Perm js))

insert_job-All :
    (t : Time) (j : JobSummary) (ks : List JobSummary)
    → j.created_at ≤ t
    → All (λ k. k.created_at ≤ t) ks
    → All (λ k. k.created_at ≤ t) (insert_job j ks)
unfolding insert_job
insert_job-All t j [] hj h = (hj, tt)
insert_job-All t j (k ∷ ks) hj (hk, hs) = elim (Bool-cases (leb k.created_at j.created_at)) [
  | inl h ↦ rw (insert_job, h) (hj, (hk, hs))
  | inr h ↦ rw (insert_job, h) (hk, insert_job-All t j ks hj hs)
]

All-le :
    (t u : Time) (ks : List JobSummary)
    → t ≤ u
    → All (λ k. k.created_at ≤ t) ks
    → All (λ k. k.created_at ≤ u) ks
All-le t u [] h hs = tt
All-le t u (k ∷ ks) h (hk, hs) = (omega arith, All-le t u ks h hs)

insert_job-IsNewestFirst :
    (j : JobSummary) (ks : List JobSummary) → IsNewestFirst ks → IsNewestFirst (insert_job j ks)
unfolding insert_job
insert_job-IsNewestFirst j [] h = (tt, tt)
insert_job-IsNewestFirst j (k ∷ ks) (hk, hs) = elim (Bool-cases (leb k.created_at j.created_at)) [
  | inl h ↦
      let le : k.created_at ≤ j.created_at = leb→le k.created_at j.created_at h in
      rw (insert_job, h) ((le, All-le k.created_at j.created_at ks le hk), (hk, hs))
  | inr h ↦
      rw (insert_job, h)
        (insert_job-All k.created_at j ks (ground (arith, h)) hk, insert_job-IsNewestFirst j ks hs)
]

sort_jobs-IsNewestFirst : (js : List JobSummary) → IsNewestFirst (sort_jobs js)
unfolding sort_jobs
sort_jobs-IsNewestFirst [] = tt
sort_jobs-IsNewestFirst (j ∷ js) =
    insert_job-IsNewestFirst j (sort_jobs js) (sort_jobs-IsNewestFirst js)

pub sort_laws : SortLaws sort_jobs
sort_laws = record { permutes = sort_jobs-Perm; sorts = sort_jobs-IsNewestFirst }

filter_keys : (Text → Bool) → List Text → List Text
filter_keys p [] = []
filter_keys p (k ∷ ks) = let rest = filter_keys p ks in if p k then k ∷ rest else rest

all_but_last : Text → Text
all_but_last [] = []
all_but_last (c ∷ []) = []
all_but_last (c ∷ d ∷ t) = c ∷ all_but_last (d ∷ t)

all_but_last-concat : (p : Text) (c : ℕ) → all_but_last (p ++ c ∷ []) ≡ p
unfolding all_but_last
all_but_last-concat [] c = refl
all_but_last-concat (d ∷ []) c = refl
all_but_last-concat (d ∷ e ∷ p) c = ap (λ t. d ∷ t) (all_but_last-concat (e ∷ p) c)

-- Every pattern is taken for a prefix with a star.
pub matching : Text → List Text → List Text
unfolding filter_keys all_but_last
matching pattern ks = filter_keys (λ k. has_prefix k (all_but_last pattern)) ks

pub without : List Text → List Text → List Text
unfolding filter_keys
without keys ks = filter_keys (λ k. not (is_among k keys)) ks

is_among-filter_keys :
    (p : Text → Bool) (k : Text) (ks : List Text)
    → is_among k (filter_keys p ks) ≡ (is_among k ks && p k)
unfolding filter_keys
is_among-filter_keys p k [] = refl
is_among-filter_keys p k (j ∷ ks) = elim (Bool-cases (text_eq j k)) [
  | inl h ↦ let e : j ≡ k = text_eq→eq j k h in ground (arith, e, is_among-filter_keys p k ks)
  | inr h ↦ ground (arith, h, is_among-filter_keys p k ks)
]

not_among : (a b : Bool) → (a && not b) ≡ (if b then false else a)
not_among true true = refl
not_among true false = refl
not_among false true = refl
not_among false false = refl

abbrev pub key_redis : RedisAdmin (List Text)
key_redis = record {
  ping = λ ks. none;
  keys = λ pattern ks. ok (matching pattern ks);
  llen = λ key ks. ok 0;
  info = λ ks. ok [];
  del = λ keys ks. (ok (length keys), without keys ks);
  flush_all = λ ks. (none, []);
}

pub key_laws : KeyLaws key_redis is_among
unfolding matching without
key_laws = record {
  keys_lem = λ p ks h. (
    matching (p ++ codes "*") ks,
    refl,
    λ k. rw (all_but_last-concat p b'*') (is_among-filter_keys (λ j. has_prefix j p) k ks),
  );
  del_lem = λ keys ks k.
      is_among-filter_keys (λ j. not (is_among j keys)) k ks
      ∙ not_among (is_among k ks) (is_among k keys);
}
