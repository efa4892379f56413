-- ===== src/Sm/Stuck.antt =====
-- A restart of the device that loses the communication.
use iol_hat.Base.{ℕ, ◌≡◌, ◌&&◌, refl, Bool, true, false, arith, List, [], ◌∷◌, and_left, and_right}
use iol_hat.Fsm.{iteration, event_loop}
use iol_hat.Types.Dl.{Status}
use iol_hat.Types.Port.{SmPortmode}
use iol_hat.Sm.State.{State, Call, Port, emit}
use iol_hat.Sm.Requests.{sm_dl_set_mode_req_inactive}
use iol_hat.Sm.Actions.{sm_comlost}
use iol_hat.Sm.Table.{iolink_sm_fsm, iolink_sm_event}
use iol_hat.Sm.Jobs.{Job, callback, run, sm_dl_write_cnf_cb, sm_setportcfg_req_cb, sm_operate_cb}
use iol_hat.Sm.ValueList.{set_valuelist}
use iol_hat.Types.Dl.{DlMode, MsequenceType}

-- What the layers above ask for.
abbrev from_above : Job → Bool
from_above Job.sm_operate = true
from_above (Job.setportcfg_req paramlist) = true
from_above _ = false

abbrev pub all_from_above : List Job → Bool
all_from_above [] = true
all_from_above (j ∷ js) = from_above j && all_from_above js

above-ignored :
    (p : Port) (j : Job)
    → p.sm.state ≡ State.restart_device
    → from_above j ≡ true
    → callback j p ≡ p
unfolding callback sm_operate_cb sm_setportcfg_req_cb iolink_sm_event event_loop iteration
    iolink_sm_fsm
above-ignored p j s a = ground arith

all-ignored :
    (js : List Job) (p : Port)
    → p.sm.state ≡ State.restart_device
    → all_from_above js ≡ true
    → run js p ≡ p
unfolding run
all-ignored [] p s a = refl
all-ignored (j ∷ js) p s a =
    rw (above-ignored p j s (and_left _ _ a)) (all-ignored js p s (and_right _ _ a))

failed_write :
    (p : Port) (addr : ℕ)
    → p.sm.state ≡ State.restart_device
    → callback (Job.dl_write_cnf addr Status.no_comm) p
      ≡ emit (Call.sm_port_mode_ind SmPortmode.comlost) (sm_dl_set_mode_req_inactive p)
unfolding callback sm_dl_write_cnf_cb iolink_sm_event event_loop iteration iolink_sm_fsm sm_comlost
    sm_dl_set_mode_req_inactive
failed_write p addr s = ground arith

-- When a write to a device that is being restarted fails, the data link layer is made inactive and
-- the layers above are told that the communication is lost, but the port stays in RestartDevice,
-- and no configuration and no start that they ask for has any effect there.
pub restart_device_stays :
    (p : Port) (addr : ℕ) (js : List Job)
    → p.sm.state ≡ State.restart_device
    → all_from_above js ≡ true
    → let q = callback (Job.dl_write_cnf addr Status.no_comm) p in
      (q.out
        ≡ Call.sm_port_mode_ind SmPortmode.comlost
          ∷ (Call.dl_set_mode_req DlMode.inactive (set_valuelist 0 0 0 0 MsequenceType.none)
              ∷ p.out))
      × (q.sm.state ≡ State.restart_device)
      × (run js q ≡ q)
unfolding sm_dl_set_mode_req_inactive
restart_device_stays p addr js s a =
    let q = emit (Call.sm_port_mode_ind SmPortmode.comlost) (sm_dl_set_mode_req_inactive p) in
    rw (failed_write p addr s) (refl, s, all-ignored js q s a)
