-- ===== src/Sm/Table.antt =====
-- The transition tables and the event loop.
use iol_hat.Base.{List, [], ◌∷◌}
use iol_hat.Fsm.{Transition, Machine, event_loop}
use iol_hat.Sm.State.{State, Event, value, Port}
use iol_hat.Sm.Actions.{sm_readcomparameter, sm_portinactive, sm_dido, sm_smoperate_ignore}
use iol_hat.Sm.Actions.{sm_comlost_ignore, sm_check_ser_num, sm_comlost, sm_wait}
use iol_hat.Sm.Actions.{sm_inspect_fault, sm_fallback, sm_smoperate_ind, sm_wr_master_cycl}
use iol_hat.Sm.Actions.{sm_check_vxy, sm_check_comp_v10_21, sm_waiton_dl_op, sm_check_comp}
use iol_hat.Sm.Actions.{sm_restart_device, sm_write_mcmd_preop, sm_write_devmode}

abbrev SmTransition : Type 0
SmTransition = Transition State Event Port

abbrev row : Event → State → (Port → Event → Port × Event) → SmTransition
row e s a = record { event = e; next_state = s; action = a }

abbrev sm_trans_s0 : List SmTransition
sm_trans_s0 =
    row Event.dl_mode_startup State.read_com_parameter sm_readcomparameter
    ∷ row Event.sm_set_port_config_inactive State.port_inactive sm_portinactive
    ∷ row Event.sm_set_port_config_cfgcom_or_autocom State.port_inactive sm_portinactive
    ∷ row Event.sm_set_port_config_di_or_do State.dido sm_dido
    ∷ row Event.sm_operate State.port_inactive sm_smoperate_ignore
    ∷ row Event.dl_mode_comlost State.port_inactive sm_comlost_ignore
    ∷ []

abbrev sm_trans_s1 : List SmTransition
sm_trans_s1 =
    row Event.dl_mode_preoperate State.check_ser_num sm_check_ser_num
    ∷ row Event.cnf_comlost State.port_inactive sm_comlost
    ∷ row Event.dl_mode_comlost State.waiton_dl_preoperate sm_comlost_ignore
    ∷ []

abbrev sm_trans_s2 : List SmTransition
sm_trans_s2 =
    row Event.ser_num_ok State.wait sm_wait
    ∷ row Event.ser_num_fault State.inspection_fault sm_inspect_fault
    ∷ row Event.cnf_comlost State.port_inactive sm_comlost
    ∷ row Event.sm_set_port_config_cfgcom_or_autocom State.port_inactive sm_portinactive
    ∷ row Event.dl_mode_comlost State.check_ser_num sm_comlost_ignore
    ∷ row Event.sm_set_port_config_inactive State.wait_for_fallback sm_fallback
    ∷ []

abbrev sm_trans_s3 : List SmTransition
sm_trans_s3 =
    row Event.sm_set_port_config_cfgcom_or_autocom State.port_inactive sm_portinactive
    ∷ row Event.sm_set_port_config_di_or_do State.dido sm_dido
    ∷ row Event.sm_operate_v10 State.sm_operate sm_smoperate_ind
    ∷ row Event.dl_mode_comlost State.port_inactive sm_comlost
    ∷ row Event.write_master_cycl_req State.write_master_cycl sm_wr_master_cycl
    ∷ row Event.sm_set_port_config_inactive State.wait_for_fallback sm_fallback
    ∷ []

abbrev sm_trans_s4 : List SmTransition
sm_trans_s4 =
    row Event.dl_mode_comlost State.port_inactive sm_comlost
    ∷ row Event.dl_mode_operate State.sm_operate sm_smoperate_ind
    ∷ row Event.sm_set_port_config_inactive State.wait_for_fallback sm_fallback
    ∷ row Event.sm_set_port_config_cfgcom_or_autocom State.port_inactive sm_portinactive
    ∷ row Event.sm_set_port_config_di_or_do State.dido sm_dido
    ∷ []

abbrev sm_trans_s5 : List SmTransition
sm_trans_s5 =
    row Event.revision_fault State.inspection_fault sm_inspect_fault
    ∷ row Event.comp_fault State.inspection_fault sm_inspect_fault
    ∷ row Event.cyc_time_fault State.inspection_fault sm_inspect_fault
    ∷ row Event.sm_set_port_config_inactive State.wait_for_fallback sm_fallback
    ∷ row Event.sm_set_port_config_cfgcom_or_autocom State.port_inactive sm_portinactive
    ∷ row Event.sm_set_port_config_di_or_do State.dido sm_dido
    ∷ row Event.dl_mode_comlost State.port_inactive sm_comlost
    ∷ []

abbrev sm_trans_s6 : List SmTransition
sm_trans_s6 =
    row Event.dl_mode_operate State.check_ser_num sm_check_ser_num
    ∷ row Event.cnf_comlost State.port_inactive sm_comlost
    ∷ row Event.dl_mode_comlost State.port_inactive sm_comlost
    ∷ []

abbrev sm_trans_s7 : List SmTransition
sm_trans_s7 =
    row Event.sm_set_port_config_inactive State.port_inactive sm_portinactive
    ∷ row Event.sm_set_port_config_cfgcom_or_autocom State.port_inactive sm_portinactive
    ∷ row Event.sm_set_port_config_di_or_do State.dido sm_dido
    ∷ []

abbrev sm_trans_s8 : List SmTransition
sm_trans_s8 =
    row Event.not_v10 State.check_vxy sm_check_vxy
    ∷ row Event.v10 State.check_comp_v10 sm_check_comp_v10_21
    ∷ row Event.cnf_comlost State.port_inactive sm_comlost
    ∷ row Event.dl_mode_comlost State.read_com_parameter sm_comlost_ignore
    ∷ row Event.sm_set_port_config_cfgcom_or_autocom State.port_inactive sm_portinactive
    ∷ []

abbrev sm_trans_s9 : List SmTransition
sm_trans_s9 =
    row Event.v10_comp_ok State.waiton_dl_operate sm_waiton_dl_op
    ∷ row Event.v10_comp_fault State.inspection_fault sm_inspect_fault
    ∷ row Event.cyc_time_fault_v10 State.inspection_fault sm_inspect_fault
    ∷ row Event.cnf_comlost State.port_inactive sm_comlost
    ∷ row Event.dl_mode_comlost State.check_comp_v10 sm_comlost_ignore
    ∷ []

abbrev sm_trans_s10 : List SmTransition
sm_trans_s10 =
    row Event.revision_ok State.check_comp sm_check_comp
    ∷ row Event.retry_startup State.restart_device sm_restart_device
    ∷ row Event.revision_fault State.inspection_fault sm_write_mcmd_preop
    ∷ row Event.cnf_comlost State.port_inactive sm_comlost
    ∷ row Event.dl_mode_comlost State.check_vxy sm_comlost_ignore
    ∷ []

abbrev sm_trans_s11 : List SmTransition
sm_trans_s11 =
    row Event.comp_ok State.waiton_dl_preoperate sm_write_mcmd_preop
    ∷ row Event.retry_startup State.restart_device sm_restart_device
    ∷ row Event.comp_fault State.inspection_fault sm_write_mcmd_preop
    ∷ row Event.cyc_time_fault State.inspection_fault sm_write_mcmd_preop
    ∷ row Event.cnf_comlost State.port_inactive sm_comlost
    ∷ row Event.dl_mode_comlost State.check_comp sm_comlost_ignore
    ∷ []

abbrev sm_trans_s12 : List SmTransition
sm_trans_s12 =
    row Event.write_done State.read_com_parameter sm_readcomparameter
    ∷ row Event.cnf_comlost State.restart_device sm_comlost
    ∷ row Event.dl_mode_comlost State.check_comp sm_comlost_ignore
    ∷ []

abbrev sm_trans_s13 : List SmTransition
sm_trans_s13 =
    row Event.sm_set_port_config_inactive State.port_inactive sm_portinactive
    ∷ row Event.dl_mode_comlost State.port_inactive sm_comlost
    ∷ []

abbrev sm_trans_s14 : List SmTransition
sm_trans_s14 =
    row Event.cnf_comlost State.port_inactive sm_comlost
    ∷ row Event.write_master_cycl_done State.wait_devmode_cnf sm_write_devmode
    ∷ row Event.dl_mode_comlost State.write_master_cycl sm_comlost_ignore
    ∷ []

abbrev sm_trans_s15 : List SmTransition
sm_trans_s15 =
    row Event.sm_operate_v10 State.sm_operate sm_smoperate_ind
    ∷ row Event.sm_operate State.sm_operate sm_smoperate_ind
    ∷ row Event.cnf_comlost State.port_inactive sm_comlost
    ∷ row Event.dl_mode_comlost State.wait_devmode_cnf sm_comlost_ignore
    ∷ []

unfoldable pub iolink_sm_fsm : State → List SmTransition
iolink_sm_fsm State.port_inactive = sm_trans_s0
iolink_sm_fsm State.waiton_dl_preoperate = sm_trans_s1
iolink_sm_fsm State.check_ser_num = sm_trans_s2
iolink_sm_fsm State.wait = sm_trans_s3
iolink_sm_fsm State.sm_operate = sm_trans_s4
iolink_sm_fsm State.inspection_fault = sm_trans_s5
iolink_sm_fsm State.waiton_dl_operate = sm_trans_s6
iolink_sm_fsm State.dido = sm_trans_s7
iolink_sm_fsm State.read_com_parameter = sm_trans_s8
iolink_sm_fsm State.check_comp_v10 = sm_trans_s9
iolink_sm_fsm State.check_vxy = sm_trans_s10
iolink_sm_fsm State.check_comp = sm_trans_s11
iolink_sm_fsm State.restart_device = sm_trans_s12
iolink_sm_fsm State.wait_for_fallback = sm_trans_s13
iolink_sm_fsm State.write_master_cycl = sm_trans_s14
iolink_sm_fsm State.wait_devmode_cnf = sm_trans_s15

abbrev pub machine : Machine State Event Port
machine = record {
  fsm = iolink_sm_fsm;
  state = λ p. p.sm.state;
  set_state = λ s p. record p { sm = record p.sm { state = s } };
  value = value;
  no_event = Event.none;
}

-- One round is enough: `Sm.Termination.iolink_sm_event-Settles`.
unfoldable pub iolink_sm_event : Port → Event → Port
iolink_sm_event = event_loop machine 1
