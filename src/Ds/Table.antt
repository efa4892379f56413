-- ===== src/Ds/Table.antt =====
-- The transition tables and the event loop.
use iol_hat.Base.{List, [], ◌∷◌}
use iol_hat.Fsm.{Transition, Machine, event_loop}
use iol_hat.Ds.State.{State, Event, value, Port}
use iol_hat.Ds.Actions.{ds_delete, ds_todo, ds_ul_fault, ds_dl_fault, ds_fault, ds_off, ds_chk_id}
use iol_hat.Ds.Actions.{ds_chk_mem_size, ds_chk_upload, ds_upload, ds_chk_validity, ds_chk_csum}
use iol_hat.Ds.Actions.{ds_write_param, ds_wait_ds_act, ds_dl_done, ds_readparam, ds_store_data}
use iol_hat.Ds.Actions.{ds_ready, ds_decompose_set, ds_init_dl, ds_reinit}

abbrev DsTransition : Type 0
DsTransition = Transition State Event Port

abbrev row : Event → State → (Port → Event → Port × Event) → DsTransition
row e s a = record { event = e; next_state = s; action = a }

abbrev ds_trans_s0 : List DsTransition
ds_trans_s0 =
    row Event.enable State.waiting_on_ds_activity ds_wait_ds_act
    ∷ row Event.clr_disa State.off ds_off
    ∷ row Event.delete State.check_activation_state ds_delete
    ∷ row Event.init State.check_activation_state ds_reinit
    ∷ []

abbrev ds_trans_s1 : List DsTransition
ds_trans_s1 =
    row Event.startup State.check_identity ds_chk_id
    ∷ row Event.upload State.check_identity ds_chk_id
    ∷ row Event.delete State.waiting_on_ds_activity ds_delete
    ∷ row Event.clear State.off ds_todo
    ∷ row Event.disable State.off ds_todo
    ∷ row Event.init State.check_activation_state ds_reinit
    ∷ []

abbrev ds_trans_s2 : List DsTransition
ds_trans_s2 =
    row Event.enable_com State.check_identity ds_todo
    ∷ row Event.enable_no_c State.waiting_on_ds_activity ds_todo
    ∷ row Event.delete State.off ds_delete
    ∷ row Event.upload State.off ds_off
    ∷ row Event.startup State.off ds_off
    ∷ row Event.init State.check_activation_state ds_reinit
    ∷ []

abbrev ds_trans_s3 : List DsTransition
ds_trans_s3 =
    row Event.passed State.check_mem_size ds_chk_mem_size
    ∷ row Event.fault_id State.ds_fault ds_fault
    ∷ row Event.init State.check_activation_state ds_reinit
    ∷ []

abbrev ds_trans_s4 : List DsTransition
ds_trans_s4 =
    row Event.passed State.check_upload ds_chk_upload
    ∷ row Event.fault_size State.ds_fault ds_fault
    ∷ row Event.init State.check_activation_state ds_reinit
    ∷ []

abbrev ds_trans_s5 : List DsTransition
ds_trans_s5 =
    row Event.do_upload State.decompose_il ds_upload
    ∷ row Event.no_upload State.check_ds_validity ds_chk_validity
    ∷ row Event.fault_lock State.ds_fault ds_fault
    ∷ []

abbrev ds_trans_s6 : List DsTransition
ds_trans_s6 =
    row Event.do_upload State.decompose_il ds_upload
    ∷ row Event.passed State.check_checksum ds_chk_csum
    ∷ []

abbrev ds_trans_s7 : List DsTransition
ds_trans_s7 =
    row Event.download State.decompose_set ds_init_dl ∷ row Event.ready State.ds_ready ds_ready ∷ []

abbrev ds_trans_s8 : List DsTransition
ds_trans_s8 = row Event.ready State.waiting_on_ds_activity ds_wait_ds_act ∷ []

abbrev ds_trans_s9 : List DsTransition
ds_trans_s9 =
    row Event.fault_done State.waiting_on_ds_activity ds_wait_ds_act
    ∷ row Event.com_err State.waiting_on_ds_activity ds_wait_ds_act
    ∷ []

abbrev ds_trans_s10 : List DsTransition
ds_trans_s10 =
    row Event.more_data State.read_parameter ds_readparam
    ∷ row Event.store_data State.store_data_set ds_store_data
    ∷ row Event.com_err State.upload_fault ds_ul_fault
    ∷ []

abbrev ds_trans_s11 : List DsTransition
ds_trans_s11 =
    row Event.read_done State.decompose_il ds_upload
    ∷ row Event.dev_err State.upload_fault ds_ul_fault
    ∷ row Event.com_err State.upload_fault ds_ul_fault
    ∷ []

abbrev ds_trans_s12 : List DsTransition
ds_trans_s12 =
    row Event.ul_done State.ds_ready ds_ready
    ∷ row Event.com_err State.upload_fault ds_ul_fault
    ∷ []

abbrev ds_trans_s13 : List DsTransition
ds_trans_s13 = row Event.fault_ul State.ds_fault ds_fault ∷ []

abbrev ds_trans_s14 : List DsTransition
ds_trans_s14 =
    row Event.more_data State.write_parameter ds_write_param
    ∷ row Event.download State.decompose_set ds_decompose_set
    ∷ row Event.dl_done State.download_done ds_dl_done
    ∷ []

abbrev ds_trans_s15 : List DsTransition
ds_trans_s15 =
    row Event.wr_done State.decompose_set ds_decompose_set
    ∷ row Event.dev_err State.download_fault ds_dl_fault
    ∷ row Event.com_err State.download_fault ds_dl_fault
    ∷ []

abbrev ds_trans_s16 : List DsTransition
ds_trans_s16 =
    row Event.ready State.ds_ready ds_ready
    ∷ row Event.com_err State.download_fault ds_dl_fault
    ∷ []

abbrev ds_trans_s17 : List DsTransition
ds_trans_s17 = row Event.fault_dl State.ds_fault ds_fault ∷ []

unfoldable pub iolink_ds_fsm : State → List DsTransition
iolink_ds_fsm State.check_activation_state = ds_trans_s0
iolink_ds_fsm State.waiting_on_ds_activity = ds_trans_s1
iolink_ds_fsm State.off = ds_trans_s2
iolink_ds_fsm State.check_identity = ds_trans_s3
iolink_ds_fsm State.check_mem_size = ds_trans_s4
iolink_ds_fsm State.check_upload = ds_trans_s5
iolink_ds_fsm State.check_ds_validity = ds_trans_s6
iolink_ds_fsm State.check_checksum = ds_trans_s7
iolink_ds_fsm State.ds_ready = ds_trans_s8
iolink_ds_fsm State.ds_fault = ds_trans_s9
iolink_ds_fsm State.decompose_il = ds_trans_s10
iolink_ds_fsm State.read_parameter = ds_trans_s11
iolink_ds_fsm State.store_data_set = ds_trans_s12
iolink_ds_fsm State.upload_fault = ds_trans_s13
iolink_ds_fsm State.decompose_set = ds_trans_s14
iolink_ds_fsm State.write_parameter = ds_trans_s15
iolink_ds_fsm State.download_done = ds_trans_s16
iolink_ds_fsm State.download_fault = ds_trans_s17

abbrev pub machine : Machine State Event Port
machine = record {
  fsm = iolink_ds_fsm;
  state = λ p. p.ds.state;
  set_state = λ s p. record p { ds = record p.ds { state = s } };
  value = value;
  no_event = Event.none;
}

-- Four rounds are enough: `Termination.iolink_ds_event-Settles`.
unfoldable pub iolink_ds_event : Port → Event → Port
iolink_ds_event = event_loop machine 4
