-- ===== src/Sm/Checked.antt =====
-- A port that goes on towards OPERATE has a device that passed the comparison.
use iol_hat.Base.{◌≡◌, Bool, true, false, arith}
use iol_hat.Fsm.{iteration, event_loop}
use iol_hat.Sm.State.{State, Event, Port}
use iol_hat.Sm.Requests.{sm_dl_read_req, sm_dl_write_req, sm_dl_read_write_req}
use iol_hat.Sm.Requests.{sm_dl_set_mode_req_operate, sm_dl_set_mode_req_preop_op}
use iol_hat.Sm.Requests.{sm_dl_set_mode_req_inactive, sm_dl_set_mode_req_startup}
use iol_hat.Sm.Requests.{sm_dl_set_mode_req_preop, sm_dl_write_devicemode_req}
use iol_hat.Sm.Actions.{sm_readcomparameter, sm_portinactive, sm_dido, sm_smoperate_ignore}
use iol_hat.Sm.Actions.{sm_comlost_ignore, sm_check_ser_num, sm_comlost, sm_wait}
use iol_hat.Sm.Actions.{sm_inspect_fault, sm_fallback, sm_smoperate_ind, sm_wr_master_cycl}
use iol_hat.Sm.Actions.{sm_check_vxy, sm_check_comp_v10_21, sm_waiton_dl_op, sm_check_comp}
use iol_hat.Sm.Actions.{sm_restart_device, sm_write_mcmd_preop, sm_write_devmode, inspect_fault}
use iol_hat.Sm.Table.{iolink_sm_fsm, iolink_sm_event}

-- The states behind the comparison.
abbrev pub accepted : State → Bool
accepted State.waiton_dl_preoperate = true
accepted State.waiton_dl_operate = true
accepted State.check_ser_num = true
accepted State.wait = true
accepted State.sm_operate = true
accepted State.write_master_cycl = true
accepted State.wait_devmode_cnf = true
accepted _ = false

-- The events by which a device passes.
abbrev pub passes : State → Event → Bool
passes State.check_comp Event.comp_ok = true
passes State.check_comp_v10 Event.v10_comp_ok = true
passes _ _ = false

pub record Kept (p : Port) (e : Event) : Type 0 where
  pub config : (iolink_sm_event p e).sm.config_paramlist ≡ p.sm.config_paramlist
  pub real : (iolink_sm_event p e).sm.real_paramlist ≡ p.sm.real_paramlist
  pub only :
      passes p.sm.state e ≡ false
      → accepted (iolink_sm_event p e).sm.state ≡ true
      → accepted p.sm.state ≡ true

pub event-Kept : (p : Port) (e : Event) (s : State) → p.sm.state ≡ s → Kept p e
unfolding iolink_sm_event event_loop iteration iolink_sm_fsm sm_readcomparameter sm_portinactive
    sm_dido sm_smoperate_ignore sm_comlost_ignore sm_check_ser_num sm_comlost sm_wait
    sm_inspect_fault inspect_fault sm_fallback sm_smoperate_ind sm_wr_master_cycl sm_check_vxy
    sm_check_comp_v10_21 sm_waiton_dl_op sm_check_comp sm_restart_device sm_write_mcmd_preop
    sm_write_devmode sm_dl_read_req sm_dl_write_req sm_dl_read_write_req sm_dl_set_mode_req_operate
    sm_dl_set_mode_req_preop_op sm_dl_set_mode_req_inactive sm_dl_set_mode_req_startup
    sm_dl_set_mode_req_preop sm_dl_write_devicemode_req
event-Kept p _ _ q = ground arith
