-- ===== src/Admin/Jobs/Listing.antt =====
-- Which jobs of Redis the list in cmd/admin-rest/main.go shows.
use compute_backend.Prelude.{
  ◌⊎◌, inl, inr, err, map, not, ◌==◌, if◌then◌else◌, ℕ, zero, suc, ◌≤◌, ◌≡◌, refl, ap, ◌≢◌, Option,
  none, List, [], ◌∷◌, ◌++◌, arith, ok, ℤ, length, take, drop, length-take-le, All,
}
use compute_backend.Strings.{Text, codes}
use compute_backend.Strings.Fold.{to_upper}
use mathlib.Core.List.{Perm}
use compute_backend.Admin.Jobs.Types.{JobSummary, RedisJobRecord, JobRedis}
use compute_backend.Admin.Jobs.Redis.{
  limit_of, updated_of, summary_of, summaries, list_jobs_from_redis,
}

-- No job is newer than one in front of it.
abbrev pub IsNewestFirst : List JobSummary → Type 0
IsNewestFirst [] = Unit
IsNewestFirst (j ∷ js) = All (λ k. k.created_at ≤ j.created_at) js × IsNewestFirst js

-- What `sort.Slice` promises with the order of the list: the same jobs, the newest first.
pub record SortLaws (sort_slice : List JobSummary → List JobSummary) : Type 0 where
  pub permutes : (js : List JobSummary) → Perm (sort_slice js) js
  pub sorts : (js : List JobSummary) → IsNewestFirst (sort_slice js)

limit_of-bounds :
    (atoi : Text → Option ℤ) (parameter : Text)
    → (1 ≤ limit_of atoi parameter) × (limit_of atoi parameter ≤ 500)
unfolding limit_of
limit_of-bounds atoi parameter = (ground arith, ground arith)

take-append-drop : (n : ℕ) (js : List JobSummary) → take n js ++ drop n js ≡ js
take-append-drop zero js = refl
take-append-drop (suc n) [] = refl
take-append-drop (suc n) (j ∷ js) = ap (λ t. j ∷ t) (take-append-drop n js)

length-take : (n : ℕ) (js : List JobSummary) → drop n js ≢ [] → length (take n js) ≡ n
length-take zero js h = refl
length-take (suc n) [] h = absurd (h refl)
length-take (suc n) (j ∷ js) h = omega (arith, length-take n js h)

All-take : (P : JobSummary → Type 0) (n : ℕ) (js : List JobSummary) → All P js → All P (take n js)
All-take P zero js h = tt
All-take P (suc n) [] h = tt
All-take P (suc n) (j ∷ js) (hj, hs) = (hj, All-take P n js hs)

All-drop : (P : JobSummary → Type 0) (n : ℕ) (js : List JobSummary) → All P js → All P (drop n js)
All-drop P zero js h = h
All-drop P (suc n) [] h = tt
All-drop P (suc n) (j ∷ js) (hj, hs) = All-drop P n js hs

take-IsNewestFirst : (n : ℕ) (js : List JobSummary) → IsNewestFirst js → IsNewestFirst (take n js)
take-IsNewestFirst zero js h = tt
take-IsNewestFirst (suc n) [] h = tt
take-IsNewestFirst (suc n) (j ∷ js) (hj, hs) =
    (All-take (λ k. k.created_at ≤ j.created_at) n js hj, take-IsNewestFirst n js hs)

-- What is cut off is no newer than what stays.
cut_lem :
    (n : ℕ) (js : List JobSummary)
    → IsNewestFirst js
    → All (λ j. All (λ k. k.created_at ≤ j.created_at) (drop n js)) (take n js)
cut_lem zero js h = tt
cut_lem (suc n) [] h = tt
cut_lem (suc n) (j ∷ js) (hj, hs) =
    (All-drop (λ k. k.created_at ≤ j.created_at) n js hj, cut_lem n js hs)

-- What a list shows of the jobs found, and what it leaves out.
pub record IsListOf (jobs found : List JobSummary) (limit : ℕ) : Type 0 where
  pub dropped : List JobSummary
  pub same : Perm (jobs ++ dropped) found
  pub sorted : IsNewestFirst jobs
  pub older : All (λ j. All (λ k. k.created_at ≤ j.created_at) dropped) jobs
  pub full : dropped ≢ [] → length jobs ≡ limit

-- The records under the keys, in their order; a value that cannot be decoded is none.
abbrev pub Reads : JobRedis → List Text → List RedisJobRecord → Type 0
Reads redis [] records = records ≡ []
Reads redis (key ∷ keys) records =
    (blob : Text) × (redis.get key ≡ ok blob)
    × (((e : Text) × (redis.decode blob ≡ err e) × Reads redis keys records)
        ⊎ ((r : RedisJobRecord) × (rest : List RedisJobRecord) × (redis.decode blob ≡ ok r)
            × (records ≡ r ∷ rest)
            × Reads redis keys rest))

-- What is shown of a record. Its update is the time of its completion, else of its start, else of its creation.
abbrev pub shown : RedisJobRecord → JobSummary
shown r = record {
  request_id = r.id;
  model_id = r.model;
  status = to_upper r.status;
  created_at = r.created_at;
  worker_id = r.worker_id;
  queue_pos = none;
  updated_at =
      if not (r.completed_at == 0)
      then r.completed_at
      else if not (r.started_at == 0)
      then r.started_at
      else r.created_at;
}

summary_of-shown : (r : RedisJobRecord) → summary_of r ≡ shown r
unfolding summary_of updated_of
summary_of-shown r = λ i. record (shown r) { updated_at = same i }
  where
    same : updated_of r ≡ (shown r).updated_at
    same = ground arith

summaries-Reads :
    (redis : JobRedis) (keys : List Text) (records : List RedisJobRecord)
    → Reads redis keys records
    → summaries redis keys ≡ ok (map shown records)
unfolding summaries
summaries-Reads redis [] records h = rw h refl
summaries-Reads redis (key ∷ keys) records (blob, got, inl (e, bad, h)) =
    rw (got, summaries, bad) (summaries-Reads redis keys records h)
summaries-Reads redis (key ∷ keys) records (blob, got, inr (r, rest, good, split, h)) =
    rw (got, summaries, good, summaries-Reads redis keys rest h, split)
      (ap (λ s. ok (s ∷ map shown rest)) (summary_of-shown r))

-- Where Redis answers, a list has at most 500 jobs, the newest first; with those left out it has what is to be shown of
-- each record that can be decoded, once for each time that SCAN gives its key. None of those left out is newer than one
-- that is shown, and some are left out only where the limit is reached, which is from 1 to 500.
pub list_jobs_from_redis-newest :
    (redis : JobRedis) (atoi : Text → Option ℤ) (sort_slice : List JobSummary → List JobSummary)
    (parameter : Text) (records : List RedisJobRecord)
    → SortLaws sort_slice
    → Reads redis (redis.scan (codes "job:*")).0 records
    → (redis.scan (codes "job:*")).1 ≡ none
    → (jobs : List JobSummary) × (list_jobs_from_redis redis sort_slice (limit_of atoi parameter)
        ≡ ok jobs)
      × (length jobs ≤ 500)
      × (1 ≤ limit_of atoi parameter)
      × IsListOf jobs (map shown records) (limit_of atoi parameter)
unfolding list_jobs_from_redis
list_jobs_from_redis-newest redis atoi sort_slice parameter records laws hr he =
    let n = limit_of atoi parameter in
    let found = map shown records in
    let hf = summaries-Reads redis (redis.scan (codes "job:*")).0 records hr in
    let (low, high) = limit_of-bounds atoi parameter in
    let js = sort_slice found in
    (
      take n js,
      rw (list_jobs_from_redis, hf, he) refl,
      omega (arith, length-take-le n js, high),
      low,
      record {
        dropped = drop n js;
        same = rw (take-append-drop n js) (laws.permutes found);
        sorted = take-IsNewestFirst n js (laws.sorts found);
        older = cut_lem n js (laws.sorts found);
        full = length-take n js;
      },
    )
