-- ===== src/Sm/Compatible.antt =====
-- Which devices system management takes for the configured one.
use iol_hat.Base.{◌≤◌, ◌≡◌, ◌⊎◌, ◌↔◌, true, arith}
use iol_hat.Fsm.{iteration, event_loop}
use iol_hat.Types.Port.{ParameterList, InspectionLevel}
use iol_hat.Sm.State.{State, Port}
use iol_hat.Sm.Requests.{sm_dl_write_req, sm_dl_read_write_req}
use iol_hat.Sm.Actions.{sm_write_mcmd_preop, sm_restart_device, sm_waiton_dl_op, sm_inspect_fault}
use iol_hat.Sm.Actions.{inspect_fault}
use iol_hat.Sm.Requests.{sm_dl_set_mode_req_operate, sm_dl_set_mode_req_preop_op}
use iol_hat.Sm.Requests.{sm_dl_set_mode_req_inactive}
use iol_hat.Sm.Table.{iolink_sm_fsm, iolink_sm_event}
use iol_hat.Sm.Checked.{accepted}
use iol_hat.Sm.Checks.{sm_do_check_comp, sm_do_check_comp_v10}

-- The configured cycle time is none or long enough, and unless nothing is to be checked vendor and
-- device are the configured ones.
pub record IsCompatible (config real : ParameterList) : Type 0 where
  pub cycletime : (config.cycletime ≡ 0) ⊎ (real.cycletime ≤ config.cycletime)
  pub identity :
      (config.inspectionlevel ≡ InspectionLevel.no_check)
      ⊎ ((config.vendorid ≡ real.vendorid) × (config.deviceid ≡ real.deviceid))

pub check_comp_iff :
    (p : Port)
    → p.sm.state ≡ State.check_comp
    → ((sm_do_check_comp p).sm.state ≡ State.waiton_dl_preoperate)
      ↔ IsCompatible p.sm.config_paramlist p.sm.real_paramlist
unfolding sm_do_check_comp iolink_sm_event event_loop iteration iolink_sm_fsm sm_write_mcmd_preop
    sm_restart_device sm_dl_write_req sm_dl_read_write_req
check_comp_iff p s = (λ h. ground arith, λ c. ground (arith, c.cycletime, c.identity))

pub check_comp_v10_iff :
    (p : Port)
    → p.sm.state ≡ State.check_comp_v10
    → ((sm_do_check_comp_v10 p).sm.state ≡ State.waiton_dl_operate)
      ↔ IsCompatible p.sm.config_paramlist p.sm.real_paramlist
unfolding sm_do_check_comp_v10 iolink_sm_event event_loop iteration iolink_sm_fsm sm_waiton_dl_op
    sm_inspect_fault inspect_fault sm_dl_set_mode_req_operate sm_dl_set_mode_req_preop_op
    sm_dl_set_mode_req_inactive sm_dl_write_req sm_dl_read_write_req
check_comp_v10_iff p s = (λ h. ground arith, λ c. ground (arith, c.cycletime, c.identity))

-- What the two comparisons leave as it was, and where they lead to.
pub record Compared (p q : Port) (s : State) : Type 0 where
  pub config : q.sm.config_paramlist ≡ p.sm.config_paramlist
  pub real : q.sm.real_paramlist ≡ p.sm.real_paramlist
  pub only : accepted q.sm.state ≡ true → q.sm.state ≡ s

pub check_comp-Compared :
    (p : Port)
    → p.sm.state ≡ State.check_comp
    → Compared p (sm_do_check_comp p) State.waiton_dl_preoperate
unfolding sm_do_check_comp iolink_sm_event event_loop iteration iolink_sm_fsm sm_write_mcmd_preop
    sm_restart_device sm_dl_write_req sm_dl_read_write_req
check_comp-Compared p s = record {
  config = ground arith;
  real = ground arith;
  only = λ a. ground arith;
}

pub check_comp_v10-Compared :
    (p : Port)
    → p.sm.state ≡ State.check_comp_v10
    → Compared p (sm_do_check_comp_v10 p) State.waiton_dl_operate
unfolding sm_do_check_comp_v10 iolink_sm_event event_loop iteration iolink_sm_fsm sm_waiton_dl_op
    sm_inspect_fault inspect_fault sm_dl_set_mode_req_operate sm_dl_set_mode_req_preop_op
    sm_dl_set_mode_req_inactive sm_dl_write_req sm_dl_read_write_req
check_comp_v10-Compared p s = record {
  config = ground arith;
  real = ground arith;
  only = λ a. ground arith;
}
