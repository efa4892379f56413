-- ===== src/Main/Pools.antt =====
-- The jobs' way from the pools through the mailbox and back.
use iol_hat.Base.{
  Option, some, none, ap, ℕ, suc, ◌+◌, ◌≤◌, ◌≡◌, refl, List, [], ◌∷◌, ◌++◌, length, length-append,
  arith,
}
use iol_hat.Types.{JobType}
use iol_hat.Main.Dispatch.{Fate, fate}
use iol_hat.Main.Posters.{Pool, IsPosted, home, posted-home}
use iol_hat.Main.Posters.{al_pool, cm_pool, ds_pool, ode_pool, sm_pool}

-- `IOLINK_MASTER_JOB_CNT` and `IOLINK_MASTER_JOB_API_CNT`.
abbrev pub job_cnt : ℕ
job_cnt = 40

abbrev pub job_api_cnt : ℕ
job_api_cnt = 10

-- The numbers of jobs in the mailboxes `mbox_avail` and `mbox_api_avail`, the jobs that layers have
-- fetched of either kind and not posted yet, and the mailbox `mbox`, oldest job first.
pub record Pools : Type 0 where
  pub avail : ℕ
  pub api_avail : ℕ
  pub fetched : ℕ
  pub fetched_api : ℕ
  pub mbox : List JobType

-- `iolink_m_init`.
abbrev pub iolink_m_init : Pools
iolink_m_init = record {
  avail = job_cnt;
  api_avail = job_api_cnt;
  fetched = 0;
  fetched_api = 0;
  mbox = [];
}

-- What becomes of a job that the main thread has worked off: nothing is given back by its default
-- case.
abbrev pub given_back : Fate → Pools → Pools
given_back Fate.avail p = record p { avail = suc p.avail }
given_back Fate.api_avail p = record p { api_avail = suc p.api_avail }
given_back Fate.exits p = p
given_back Fate.asserts p = p

abbrev pub event_reqs : JobType → ℕ
event_reqs JobType.al_event_req = 1
event_reqs _ = 0

-- One step of the main thread or of a function that fetches or posts a job, by the number of jobs of
-- `AL_Event_req` that it works off.
pub data Step : ℕ → Pools → Pools → Type 0 where
  -- `iolink_fetch_avail_job`.
  iolink_fetch_avail_job :
      {p : Pools} {n : ℕ}
      → p.avail ≡ suc n
      → Step 0 p (record p { avail = n; fetched = suc p.fetched })
  -- `iolink_fetch_avail_api_job`.
  iolink_fetch_avail_api_job :
      {p : Pools} {n : ℕ}
      → p.api_avail ≡ suc n
      → Step 0 p (record p { api_avail = n; fetched_api = suc p.fetched_api })
  -- `iolink_post_job_with_type_and_callback` by a function that has fetched the job.
  post_job :
      {p : Pools} {n : ℕ} (type : JobType)
      → IsPosted type Pool.avail
      → p.fetched ≡ suc n
      → Step 0 p (record p { fetched = n; mbox = p.mbox ++ type ∷ [] })
  post_api_job :
      {p : Pools} {n : ℕ} (type : JobType)
      → IsPosted type Pool.api_avail
      → p.fetched_api ≡ suc n
      → Step 0 p (record p { fetched_api = n; mbox = p.mbox ++ type ∷ [] })
  -- A round of `iolink_main`.
  work_off :
      {p : Pools} (type : JobType) {types : List JobType}
      → p.mbox ≡ type ∷ types
      → Step (event_reqs type) p (given_back (fate type) (record p { mbox = types }))

-- The states that are reached, by the number of jobs of `AL_Event_req` worked off on the way.
pub data Reachable : ℕ → Pools → Type 0 where
  start : Reachable 0 iolink_m_init
  next : {m n : ℕ} {p q : Pools} → Reachable m p → Step n p q → Reachable (m + n) q

abbrev is_from : Pool → Option Pool → ℕ
is_from Pool.avail (some Pool.avail) = 1
is_from Pool.api_avail (some Pool.api_avail) = 1
is_from _ _ = 0

-- The jobs in a mailbox that come from a pool.
abbrev pub count : Pool → List JobType → ℕ
count pool [] = 0
count pool (t ∷ ts) = is_from pool (home t) + count pool ts

is_from-le : (o : Option Pool) → is_from Pool.avail o + is_from Pool.api_avail o ≤ 1
is_from-le none = omega arith
is_from-le (some Pool.avail) = omega arith
is_from-le (some Pool.api_avail) = omega arith

count-append : (c : Pool) (ts us : List JobType) → count c (ts ++ us) ≡ count c ts + count c us
count-append c [] us = omega arith
count-append c (t ∷ ts) us = omega (arith, count-append c ts us)

count-le : (ts : List JobType) → count Pool.avail ts + count Pool.api_avail ts ≤ length ts
count-le [] = omega arith
count-le (t ∷ ts) = omega (arith, is_from-le (home t), count-le ts)

-- Both pools are whole, but for so many jobs of the external one.
pub record IsConserved (lost : ℕ) (p : Pools) : Type 0 where
  pub jobs : p.avail + p.fetched + count Pool.avail p.mbox ≡ job_cnt
  pub api_jobs : p.api_avail + p.fetched_api + count Pool.api_avail p.mbox + lost ≡ job_api_cnt
  pub known : length p.mbox ≡ count Pool.avail p.mbox + count Pool.api_avail p.mbox

-- A job that comes from a pool goes back to it, or is one of `AL_Event_req`.
record IsBack (type : JobType) (p q : Pools) : Type 0 where
  avail : q.avail ≡ p.avail + is_from Pool.avail (home type)
  api_avail : q.api_avail + event_reqs type ≡ p.api_avail + is_from Pool.api_avail (home type)
  fetched : q.fetched ≡ p.fetched
  fetched_api : q.fetched_api ≡ p.fetched_api
  mbox : q.mbox ≡ p.mbox

given_back-IsBack :
    (type : JobType) (p : Pools)
    → is_from Pool.avail (home type) + is_from Pool.api_avail (home type) ≡ 1
    → IsBack type p (given_back (fate type) p)
unfolding fate home al_pool cm_pool ds_pool ode_pool sm_pool
given_back-IsBack _ p h = ground (arith, h)

Step-IsConserved : (m n : ℕ) (p q : Pools) → Step n p q → IsConserved m p → IsConserved (m + n) q
Step-IsConserved m _ p _ (Step.iolink_fetch_avail_job e) c = record {
  jobs = omega (arith, e, c.jobs);
  api_jobs = omega (arith, c.api_jobs);
  known = c.known;
}
Step-IsConserved m _ p _ (Step.iolink_fetch_avail_api_job e) c = record {
  jobs = c.jobs;
  api_jobs = omega (arith, e, c.api_jobs);
  known = c.known;
}
Step-IsConserved m _ p _ (Step.post_job type f e) c =
    let o = posted-home type Pool.avail f in
    let one = ap (is_from Pool.avail) o in
    let no = ap (is_from Pool.api_avail) o in
    let a = count-append Pool.avail p.mbox (type ∷ []) in
    let b = count-append Pool.api_avail p.mbox (type ∷ []) in
    record {
      jobs = omega (arith, e, one, a, c.jobs);
      api_jobs = omega (arith, no, b, c.api_jobs);
      known = omega (arith, one, no, a, b, length-append p.mbox (type ∷ []), c.known);
    }
Step-IsConserved m _ p _ (Step.post_api_job type f e) c =
    let o = posted-home type Pool.api_avail f in
    let no = ap (is_from Pool.avail) o in
    let one = ap (is_from Pool.api_avail) o in
    let a = count-append Pool.avail p.mbox (type ∷ []) in
    let b = count-append Pool.api_avail p.mbox (type ∷ []) in
    record {
      jobs = omega (arith, no, a, c.jobs);
      api_jobs = omega (arith, e, one, b, c.api_jobs);
      known = omega (arith, one, no, a, b, length-append p.mbox (type ∷ []), c.known);
    }
Step-IsConserved m _ p _ (Step.work_off type {types = types} e) c =
    let a = ap (count Pool.avail) e in
    let b = ap (count Pool.api_avail) e in
    let homed : is_from Pool.avail (home type) + is_from Pool.api_avail (home type) ≡ 1 =
      omega (arith, a, b, ap length e, c.known, is_from-le (home type), count-le types) in
    let r = given_back-IsBack type (record p { mbox = types }) homed in
    let a' = ap (count Pool.avail) r.mbox in
    let b' = ap (count Pool.api_avail) r.mbox in
    record {
      jobs = omega (arith, a, a', r.avail, r.fetched, c.jobs);
      api_jobs = omega (arith, b, b', r.api_avail, r.fetched_api, c.api_jobs);
      known = omega (arith, a, b, a', b', homed, ap length e, ap length r.mbox, c.known);
    }

-- Until the main thread is told to exit, in every state that is reached, each of the 40 internal
-- jobs is in its pool, with a function that has fetched it, or in the mailbox, and so is each of
-- the 10 external ones but those of `AL_Event_req` that have been worked off, which are lost; the
-- mailbox never holds more than the 50 jobs that it was created for, so that no post fails.
pub Reachable-IsConserved :
    (lost : ℕ) (p : Pools)
    → Reachable lost p
    → IsConserved lost p × (length p.mbox ≤ job_cnt + job_api_cnt)
Reachable-IsConserved _ p (Reachable.start) =
    (record { jobs = refl; api_jobs = refl; known = refl }, omega arith)
Reachable-IsConserved _ p (Reachable.next {m = m} {n = n} {p = q} r s) =
    let c = Step-IsConserved m n q p s (Reachable-IsConserved m q r).0 in
    (c, omega (arith, c.jobs, c.api_jobs, c.known))
