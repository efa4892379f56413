-- ===== src/Main/Examples.antt =====
-- The theorems on the main thread at small inputs.
use iol_hat.Base.{ℕ, ◌+◌, ◌≤◌, ◌≡◌, ◌↔◌, refl, Option, some, [], ◌∷◌, length, arith}
use iol_hat.Types.{IolinkError, JobType}
use iol_hat.Main.Ports.{portnumber_to_iolinkport, portnumber_to_iolinkport_accepts}
use iol_hat.Main.Dispatch.{fate}
use iol_hat.Main.Posters.{Pool, IsPosted, al_pool, ds_pool}
use iol_hat.Main.Pools.{Pools, Step, Reachable, iolink_m_init, IsConserved, job_cnt, job_api_cnt}
use iol_hat.Main.Pools.{Reachable-IsConserved}

-- With two ports the number 3 is taken, for the index 2.
portnumber_to_iolinkport_accepts_example :
    (((portnumber_to_iolinkport (some 2) 3).0 ≡ IolinkError.none) ↔ ((1 ≤ 3) × (3 ≤ 2 + 1)))
    × (portnumber_to_iolinkport (some 2) 3 ≡ (IolinkError.none, some 2))
portnumber_to_iolinkport_accepts_example = portnumber_to_iolinkport_accepts 2 3 (omega arith)

abbrev answer : ℕ → ℕ → IolinkError × Option ℕ
answer i b = (IolinkError.none, some (i + b))

-- A job for data storage waits in the mailbox, and one of `AL_Event_req` has been worked off.
abbrev event_lost : Pools
event_lost = record iolink_m_init { avail = 39; api_avail = 9; mbox = JobType.ds_startup ∷ [] }

ds_startup-IsPosted : IsPosted JobType.ds_startup Pool.avail
unfolding ds_pool
ds_startup-IsPosted = IsPosted.ds refl

al_event_req-IsPosted : IsPosted JobType.al_event_req Pool.api_avail
unfolding al_pool
al_event_req-IsPosted = IsPosted.al refl

event_lost-Reachable : Reachable 1 event_lost
unfolding fate
event_lost-Reachable =
    let fetched = Reachable.next Reachable.start (Step.iolink_fetch_avail_api_job refl) in
    let posted =
      Reachable.next fetched (Step.post_api_job JobType.al_event_req al_event_req-IsPosted refl) in
    let lost = Reachable.next posted (Step.work_off JobType.al_event_req refl) in
    Reachable.next (Reachable.next lost (Step.iolink_fetch_avail_job refl))
      (Step.post_job JobType.ds_startup ds_startup-IsPosted refl)

Reachable-IsConserved_example :
    IsConserved 1 event_lost × (length event_lost.mbox ≤ job_cnt + job_api_cnt)
Reachable-IsConserved_example = Reachable-IsConserved 1 event_lost event_lost-Reachable
