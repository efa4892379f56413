-- ===== src/Al/Collecting.antt =====
-- How the device's events are collected, and what becomes of a complete set.
use iol_hat.Base.{ℕ, suc, ◌+◌, ◌<◌, ◌≤◌, ◌≡◌, Bool, true, false, List, [], ◌∷◌, take}
use iol_hat.Base.{overwrite, set, length, arith, lt→ltb, length-set}
use iol_hat.Base.{◌⊎◌, take_all}
use iol_hat.Base.Slices.{overwrite-set, overwrite_none}
use iol_hat.Fsm.{iteration, event_loop}
use iol_hat.Types.ArgBlock
use iol_hat.Al.State.{EventState, DiagEntry, Call, Port}
use iol_hat.Al.EventSet.{al_event_wait_read, al_event_du_handle, al_event_ind}
use iol_hat.Al.EventSet.{iolink_al_event_fsm, iolink_al_event_event, has_upload_req}
use iol_hat.Al.Jobs.{Job, callback, run, al_dl_event_ind_cb}

-- The jobs for a set of events: each says how many events are left.
abbrev pub event_jobs : List DiagEntry → List Job
event_jobs [] = []
event_jobs (e ∷ es) = Job.dl_event_ind e (length es) ∷ event_jobs es

-- A port that has so many events of a set, in an array of six.
pub record IsCollecting (count : ℕ) (es : List DiagEntry) (cs : List Call) (p : Port) : Type 0 where
  pub collecting :
      (p.al.event_state ≡ EventState.event_idle) ⊎ (p.al.event_state ≡ EventState.read_event_set)
  pub event_cnt : p.al.event_cnt ≡ count
  pub events : p.al.events ≡ es
  pub out : p.out ≡ cs

-- A port that has handed on so many events, with what it called.
pub record IsHandling (count : ℕ) (es : List DiagEntry) (cs : List Call) (p : Port) : Type 0 where
  pub event_state : p.al.event_state ≡ EventState.du_event_handling
  pub event_cnt : p.al.event_cnt ≡ count
  pub events : p.al.events ≡ es
  pub out : p.out ≡ cs

-- The calls of `AL_Event_ind`.
abbrev pub reported : ℕ → List DiagEntry → Bool → List Call → List Call
reported count events true out = Call.ds_upload ∷ (Call.al_event_rsp ∷ out)
reported count events false out =
    Call.smi_cnf_devevent ArgBlock.void_block ArgBlock.sizeof_devevent count (take count events)
    ∷ (Call.al_event_rsp ∷ out)

more :
    (p : Port) (e : DiagEntry) (left count : ℕ) (events : List DiagEntry) (out : List Call)
    → count < 6
    → IsCollecting count events out p
    → IsCollecting (suc count) (set events count e) out (callback (Job.dl_event_ind e (suc left)) p)
unfolding callback al_dl_event_ind_cb iolink_al_event_event event_loop iteration iolink_al_event_fsm
    al_event_wait_read
more p e left count events out l h =
    let b = lt→ltb count 6 l in ground (arith, h.collecting, h.event_cnt, h.events, h.out)

last :
    (p : Port) (e : DiagEntry) (count : ℕ) (events : List DiagEntry) (out : List Call)
    → count < 6
    → length events ≡ 6
    → IsCollecting count events out p
    → let after = set events count e in
      IsHandling
        (suc count)
        after
        (reported (suc count) after (has_upload_req after) out)
        (callback (Job.dl_event_ind e 0) p)
unfolding callback al_dl_event_ind_cb iolink_al_event_event event_loop iteration iolink_al_event_fsm
    al_event_du_handle al_event_ind
last p e count events out l n h =
    let b = lt→ltb count 6 l in
    let t = take_all 6 (set events count e) (omega (arith, length-set events count e)) in
    ground (arith, h.collecting, h.event_cnt, h.events, h.out)

add_one : (n : ℕ) → n + 1 ≡ suc n
add_one n = omega arith

add_suc : (n m : ℕ) → n + suc m ≡ suc n + m
add_suc n m = omega arith

pub run-IsHandling :
    (e : DiagEntry) (es : List DiagEntry) (p : Port) (count : ℕ) (events : List DiagEntry)
    (out : List Call)
    → count + length (e ∷ es) ≤ 6
    → length events ≡ 6
    → IsCollecting count events out p
    → let n = count + length (e ∷ es) in
      let after = overwrite events count (e ∷ es) in
      IsHandling n after (reported n after (has_upload_req after) out) (run (event_jobs (e ∷ es)) p)
unfolding run
run-IsHandling e [] p count events out l n h =
    rw
      (
        overwrite-set events count e [],
        overwrite_none (set events count e) (suc count),
        add_one count,
      )
      (last p e count events out (omega arith) n h)
run-IsHandling e (d ∷ es) p count events out l n h =
    rw (overwrite-set events count e (d ∷ es), add_suc count (length (d ∷ es)))
      (run-IsHandling d es (callback (Job.dl_event_ind e (length (d ∷ es))) p) (suc count)
        (set events count e) out (omega arith) (omega (arith, length-set events count e))
        (more p e (length es) count events out (omega arith) h))
