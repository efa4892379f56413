-- ===== src/Cm/Table.antt =====
-- The transition tables and the event loop.
use iol_hat.Base.{List, [], ◌∷◌}
use iol_hat.Fsm.{Transition, Machine, event_loop}
use iol_hat.Cm.State.{State, Event, value, Port}
use iol_hat.Cm.Actions.{cm_startup, cm_dido, cm_check_mode, cm_comlost, cm_comlost_ignore}
use iol_hat.Cm.Actions.{cm_cfg_change_ignore, cm_ds_change, cm_start_ds, cm_ds_ready}
use iol_hat.Cm.Actions.{cm_ds_ready_ignore, cm_sm_operate, cm_port_fault, cm_deactivate}

abbrev CmTransition : Type 0
CmTransition = Transition State Event Port

abbrev row : Event → State → (Port → Event → Port × Event) → CmTransition
row e s a = record { event = e; next_state = s; action = a }

abbrev cm_trans_s0 : List CmTransition
cm_trans_s0 =
    row Event.iol_manual State.sm_startup cm_startup
    ∷ row Event.iol_autostart State.sm_startup cm_startup
    ∷ row Event.di_cq State.port_dido cm_dido
    ∷ row Event.do_cq State.port_dido cm_dido
    ∷ row Event.deactivated State.port_deactivated cm_deactivate
    ∷ row Event.unknown State.port_deactivated cm_deactivate
    ∷ row Event.cfg_change State.check_port_mode cm_check_mode
    ∷ row Event.sm_comlost State.check_port_mode cm_comlost
    ∷ []

abbrev cm_trans_s1 : List CmTransition
cm_trans_s1 =
    row Event.sm_comready State.ds_param_manager cm_start_ds
    ∷ row Event.cfg_change State.check_port_mode cm_check_mode
    ∷ row Event.sm_fault State.port_fault cm_port_fault
    ∷ row Event.sm_comlost State.check_port_mode cm_comlost
    ∷ []

abbrev cm_trans_s2 : List CmTransition
cm_trans_s2 =
    row Event.ds_ready State.waiting_on_operate cm_ds_ready
    ∷ row Event.ds_change State.sm_startup cm_ds_change
    ∷ row Event.ds_fault State.port_fault cm_port_fault
    ∷ row Event.cfg_change State.ds_param_manager cm_cfg_change_ignore
    ∷ row Event.sm_comlost State.ds_param_manager cm_comlost_ignore
    ∷ []

abbrev cm_trans_s3 : List CmTransition
cm_trans_s3 =
    row Event.cfg_change State.check_port_mode cm_check_mode
    ∷ row Event.ds_change State.sm_startup cm_ds_change
    ∷ row Event.sm_comlost State.check_port_mode cm_comlost
    ∷ []

abbrev cm_trans_s4 : List CmTransition
cm_trans_s4 =
    row Event.sm_operate State.port_active cm_sm_operate
    ∷ row Event.cfg_change State.check_port_mode cm_check_mode
    ∷ row Event.ds_change State.sm_startup cm_ds_change
    ∷ row Event.sm_comlost State.check_port_mode cm_comlost
    ∷ row Event.ds_fault State.port_fault cm_port_fault
    ∷ []

abbrev cm_trans_s5 : List CmTransition
cm_trans_s5 =
    row Event.cfg_change State.check_port_mode cm_check_mode
    ∷ row Event.ds_change State.sm_startup cm_ds_change
    ∷ row Event.sm_comlost State.check_port_mode cm_comlost
    ∷ row Event.ds_ready State.port_active cm_ds_ready_ignore
    ∷ row Event.ds_fault State.port_fault cm_port_fault
    ∷ []

abbrev cm_trans_s6 : List CmTransition
cm_trans_s6 = row Event.cfg_change State.check_port_mode cm_check_mode ∷ []

abbrev cm_trans_s7 : List CmTransition
cm_trans_s7 = row Event.cfg_change State.check_port_mode cm_check_mode ∷ []

unfoldable pub iolink_cm_fsm : State → List CmTransition
iolink_cm_fsm State.check_port_mode = cm_trans_s0
iolink_cm_fsm State.sm_startup = cm_trans_s1
iolink_cm_fsm State.ds_param_manager = cm_trans_s2
iolink_cm_fsm State.port_fault = cm_trans_s3
iolink_cm_fsm State.waiting_on_operate = cm_trans_s4
iolink_cm_fsm State.port_active = cm_trans_s5
iolink_cm_fsm State.port_dido = cm_trans_s6
iolink_cm_fsm State.port_deactivated = cm_trans_s7

abbrev pub machine : Machine State Event Port
machine = record {
  fsm = iolink_cm_fsm;
  state = λ p. p.cm.state;
  set_state = λ s p. record p { cm = record p.cm { state = s } };
  value = value;
  no_event = Event.none;
}

-- Two rounds are enough: `Termination.iolink_cm_event-Settles`.
unfoldable pub iolink_cm_event : Port → Event → Port
iolink_cm_event = event_loop machine 2
