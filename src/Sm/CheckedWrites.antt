-- ===== src/Sm/CheckedWrites.antt =====
-- What was written to the device, and a new configuration, keep that a port which goes on towards
-- OPERATE has the configured device.
use iol_hat.Base.{ℕ, ◌≡◌, ap, Bool, true, false, refl, arith}
use iol_hat.Types.Dl.{Status, DlMode}
use iol_hat.Types.Port.{ParameterList, SmTargetMode}
use iol_hat.Sm.State.{State, Event, Port}
use iol_hat.Sm.Params.{master_cmd, device_operate}
use iol_hat.Sm.Requests.{sm_dl_read_req, sm_dl_write_req, sm_dl_read_write_req}
use iol_hat.Sm.Requests.{sm_dl_set_mode_req_operate, sm_dl_set_mode_req_preop_op}
use iol_hat.Sm.Requests.{sm_dl_set_mode_req_preop, sm_dl_set_mode_req_inactive}
use iol_hat.Sm.Requests.{sm_dl_set_mode_req_startup, sm_dl_write_devicemode_req}
use iol_hat.Sm.Actions.{sm_portinactive, sm_dido, sm_fallback}
use iol_hat.Sm.Table.{iolink_sm_fsm}
use iol_hat.Fsm.{iteration, event_loop}
use iol_hat.Sm.Table.{iolink_sm_event}
use iol_hat.Sm.Checks.{sm_dl_write_cnf_checkvxy, sm_dl_write_cnf_restart_dev}
use iol_hat.Sm.Checks.{sm_dl_write_cnf_waiton_operate}
use iol_hat.Sm.Jobs.{sm_setportcfg_req_cb, written}
use iol_hat.Sm.Jobs.{sm_dl_write_cnf_cb, sm_dl_write_devmode_cnf, devmode_written}
use iol_hat.Sm.Checked.{accepted, passes}
use iol_hat.Sm.CheckedJobs.{
  IsChecked, event-IsChecked, other-IsChecked, raise-IsChecked, Alike, Alike-IsChecked,
}
use iol_hat.Sm.CheckedJobs.{open-IsChecked}

-- The configuration of a port as a digital input or output is expected in the states that have a
-- transition for it.
abbrev pub is_dido : SmTargetMode → Bool
is_dido SmTargetMode.di = true
is_dido SmTargetMode.do_ = true
is_dido _ = false

pub config-IsChecked :
    (p : Port) (l : ParameterList) (s : State) (m : SmTargetMode)
    → p.sm.state ≡ s
    → l.mode ≡ m
    → IsChecked p
    → (s ≡ State.check_ser_num → is_dido l.mode ≡ false)
    → IsChecked (sm_setportcfg_req_cb l p)
unfolding sm_setportcfg_req_cb iolink_sm_event event_loop iteration iolink_sm_fsm sm_portinactive
    sm_dido sm_fallback sm_dl_set_mode_req_inactive sm_dl_set_mode_req_startup
    sm_dl_write_devicemode_req
config-IsChecked p l _ _ e f h x = ground (arith, h, x)

preop_op-Alike : (p : Port) (m : DlMode) → Alike p (sm_dl_set_mode_req_preop_op m p)
unfolding sm_dl_set_mode_req_preop_op
preop_op-Alike p m = record { state = ground arith; config = ground arith; real = ground arith }

operate_mode-IsChecked : (p : Port) → IsChecked p → IsChecked (sm_dl_set_mode_req_operate p)
unfolding sm_dl_set_mode_req_operate
operate_mode-IsChecked p h = Alike-IsChecked p _ (preop_op-Alike p DlMode.operate) h

preop_mode-IsChecked : (p : Port) → IsChecked p → IsChecked (sm_dl_set_mode_req_preop p)
unfolding sm_dl_set_mode_req_preop
preop_mode-IsChecked p h = Alike-IsChecked p _ (preop_op-Alike p DlMode.preoperate) h

devmode_written-IsChecked : (p : Port) (s : State) → IsChecked p → IsChecked (devmode_written s p)
unfolding devmode_written
devmode_written-IsChecked p State.wait_devmode_cnf h =
    let k = operate_mode-IsChecked p h in
    let v10 = other-IsChecked (sm_dl_set_mode_req_operate p) Event.sm_operate_v10 refl k in
    let op = other-IsChecked (sm_dl_set_mode_req_operate p) Event.sm_operate refl k in
    ground (arith, v10, op)
devmode_written-IsChecked p State.wait_for_fallback h =
    other-IsChecked p Event.sm_set_port_config_inactive refl h
devmode_written-IsChecked p _ h = other-IsChecked p Event.dl_mode_comlost refl h

pub devmode-IsChecked :
    (p : Port) (i : Status) → IsChecked p → IsChecked (sm_dl_write_devmode_cnf i p)
unfolding sm_dl_write_devmode_cnf
devmode-IsChecked p i h =
    let w = devmode_written-IsChecked p p.sm.state h in
    let lost = other-IsChecked p Event.dl_mode_comlost refl h in
    let cnf = other-IsChecked p Event.cnf_comlost refl h in ground (arith, w, lost, cnf)

write_same-Alike : (p : Port) (addr v : ℕ) → Alike p (sm_dl_write_req addr v p)
unfolding sm_dl_write_req sm_dl_read_write_req
write_same-Alike p addr v = record {
  state = ground arith;
  config = ground arith;
  real = ground arith;
}

pub read_same-Alike : (p : Port) (addr : ℕ) → Alike p (sm_dl_read_req addr p)
unfolding sm_dl_read_req sm_dl_read_write_req
read_same-Alike p addr = record { state = ground arith; config = ground arith; real = ground arith }

checkvxy-IsChecked : (p : Port) → IsChecked p → IsChecked (sm_dl_write_cnf_checkvxy p)
unfolding sm_dl_write_cnf_checkvxy
checkvxy-IsChecked p h =
    let yes = other-IsChecked p Event.revision_ok refl h in
    let again = other-IsChecked p Event.retry_startup refl h in
    let no = raise-IsChecked p Event.revision_fault refl h in ground (arith, yes, again, no)

waiton_operate-IsChecked :
    (p : Port) (addr : ℕ) → IsChecked p → IsChecked (sm_dl_write_cnf_waiton_operate addr p)
unfolding sm_dl_write_cnf_waiton_operate
waiton_operate-IsChecked p addr h =
    let asked = Alike-IsChecked p _ (write_same-Alike p master_cmd device_operate) h in
    let mode = operate_mode-IsChecked p h in ground (arith, asked, mode, h)

restart-open :
    (p : Port) (addr : ℕ) (m : SmTargetMode)
    → p.sm.state ≡ State.restart_device
    → p.sm.config_paramlist.mode ≡ m
    → (sm_dl_write_cnf_restart_dev addr p).sm.state ≡ State.restart_device
unfolding sm_dl_write_cnf_restart_dev sm_dl_write_req sm_dl_read_req sm_dl_read_write_req
restart-open p addr _ s e = ground arith

written-IsChecked :
    (p : Port) (addr : ℕ) (s : State) → p.sm.state ≡ s → IsChecked p → IsChecked (written s addr p)
unfolding written
written-IsChecked p addr State.waiton_dl_preoperate e h = preop_mode-IsChecked p h
written-IsChecked p addr State.inspection_fault e h =
    event-IsChecked p p.sm.error_event (ground (arith, ap (λ s. passes s p.sm.error_event) e)) h
written-IsChecked p addr State.check_vxy e h = checkvxy-IsChecked p h
written-IsChecked p addr State.restart_device e h =
    open-IsChecked (sm_dl_write_cnf_restart_dev addr p)
      (ap accepted (restart-open p addr p.sm.config_paramlist.mode e refl))
written-IsChecked p addr State.waiton_dl_operate e h = waiton_operate-IsChecked p addr h
written-IsChecked p addr _ e h = h

pub write_cnf-IsChecked :
    (p : Port) (addr : ℕ) (i : Status) → IsChecked p → IsChecked (sm_dl_write_cnf_cb addr i p)
unfolding sm_dl_write_cnf_cb
write_cnf-IsChecked p addr i h =
    let w = written-IsChecked p addr p.sm.state refl h in
    let lost = other-IsChecked p Event.cnf_comlost refl h in ground (arith, w, lost)
