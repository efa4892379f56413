-- ===== src/Sm/Actions.antt =====
-- The actions of the transitions, in the order of ilink/iolink_sm.c. Each of them waits for what
-- comes next, so none leads to a further event.
use iol_hat.Base.{◌+◌, [], ◌∷◌, u8}
use iol_hat.Types.Dl.{DlMode}
use iol_hat.Types.Port.{SmTargetMode, SmPortmode}
use iol_hat.Sm.State.{Event, PlMode, Call, Port, emit}
use iol_hat.Sm.Params.{master_cmd, master_cycl, min_cycl, rev_id, vid_1, dummy_wurq}
use iol_hat.Sm.Params.{master_ident, device_preop, serial_number}
use iol_hat.Sm.Requests.{sm_dl_read_req, sm_dl_write_req, sm_dl_write_devicemode_req}
use iol_hat.Sm.Requests.{sm_dl_set_mode_req_startup, sm_dl_set_mode_req_inactive}
use iol_hat.Sm.Requests.{sm_dl_set_mode_req_preop, sm_dl_set_mode_req_operate}

-- `sizeof` of the cycle time is 1.
unfoldable pub sm_wr_master_cycl : Port → Event → Port × Event
sm_wr_master_cycl p event =
    (emit (Call.al_write_req master_cycl 0 1 (p.sm.real_paramlist.cycletime ∷ [])) p, Event.none)

unfoldable pub sm_check_comp_v10_21 : Port → Event → Port × Event
unfolding sm_dl_read_req
sm_check_comp_v10_21 p event = (sm_dl_read_req vid_1 p, Event.none)

abbrev forget_retries : Event → Port → Port
forget_retries Event.dl_mode_startup p = record p { sm = record p.sm { comp_retry = 0 } }
forget_retries _ p = p

unfoldable pub sm_readcomparameter : Port → Event → Port × Event
unfolding sm_dl_read_req
sm_readcomparameter p event = (sm_dl_read_req min_cycl (forget_retries event p), Event.none)

unfoldable pub sm_restart_device : Port → Event → Port × Event
unfolding sm_dl_write_req
sm_restart_device p event =
    let q = record p { sm = record p.sm { comp_retry = u8 (p.sm.comp_retry + 1) } } in
    (sm_dl_write_req rev_id p.sm.config_paramlist.revisionid q, Event.none)

unfoldable pub sm_check_comp : Port → Event → Port × Event
unfolding sm_dl_read_req
sm_check_comp p event = (sm_dl_read_req vid_1 p, Event.none)

unfoldable pub sm_check_vxy : Port → Event → Port × Event
unfolding sm_dl_write_req
sm_check_vxy p event = (sm_dl_write_req master_cmd master_ident p, Event.none)

unfoldable pub sm_write_mcmd_preop : Port → Event → Port × Event
unfolding sm_dl_write_req
sm_write_mcmd_preop p event = (sm_dl_write_req master_cmd device_preop p, Event.none)

unfoldable pub sm_fallback : Port → Event → Port × Event
unfolding sm_dl_write_devicemode_req
sm_fallback p event = (sm_dl_write_devicemode_req DlMode.inactive p, Event.none)

abbrev portinactive_by : Event → Port → Port
unfolding sm_dl_set_mode_req_inactive sm_dl_set_mode_req_startup
portinactive_by Event.sm_set_port_config_inactive p =
    sm_dl_set_mode_req_inactive (emit (Call.sm_port_mode_ind SmPortmode.inactive) p)
portinactive_by Event.sm_set_port_config_cfgcom_or_autocom p =
    sm_dl_set_mode_req_startup (emit (Call.pl_set_mode_req PlMode.sdci) p)
portinactive_by _ p = p

unfoldable pub sm_portinactive : Port → Event → Port × Event
unfolding sm_dl_set_mode_req_inactive sm_dl_set_mode_req_startup
sm_portinactive p event =
    let q = record p { sm = record p.sm { dl_addr = dummy_wurq; error_event = Event.none } } in
    (portinactive_by event q, Event.none)

unfoldable pub sm_comlost : Port → Event → Port × Event
unfolding sm_dl_set_mode_req_inactive
sm_comlost p event =
    (emit (Call.sm_port_mode_ind SmPortmode.comlost) (sm_dl_set_mode_req_inactive p), Event.none)

unfoldable pub sm_smoperate_ignore : Port → Event → Port × Event
sm_smoperate_ignore p event = (p, Event.none)

unfoldable pub sm_comlost_ignore : Port → Event → Port × Event
sm_comlost_ignore p event = (p, Event.none)

unfoldable pub sm_waiton_dl_op : Port → Event → Port × Event
unfolding sm_dl_write_req
sm_waiton_dl_op p event = (sm_dl_write_req master_cycl p.sm.real_paramlist.cycletime p, Event.none)

abbrev told : SmPortmode → Port → Port
told mode p = emit (Call.sm_port_mode_ind mode) p

unfoldable pub inspect_fault : Event → Port → Port
inspect_fault Event.v10_comp_fault p = sm_dl_set_mode_req_operate (told SmPortmode.comp_fault p)
inspect_fault Event.revision_fault p = sm_dl_set_mode_req_preop (told SmPortmode.revision_fault p)
inspect_fault Event.comp_fault p = sm_dl_set_mode_req_preop (told SmPortmode.comp_fault p)
inspect_fault Event.ser_num_fault p = told SmPortmode.sernum_fault p
inspect_fault Event.cyc_time_fault p = sm_dl_set_mode_req_preop (told SmPortmode.cyctime_fault p)
inspect_fault Event.cyc_time_fault_v10 p =
    sm_dl_set_mode_req_inactive (told SmPortmode.cyctime_fault p)
inspect_fault _ p = p

unfoldable pub sm_inspect_fault : Port → Event → Port × Event
unfolding inspect_fault
sm_inspect_fault p event = (inspect_fault event p, Event.none)

unfoldable pub sm_check_ser_num : Port → Event → Port × Event
sm_check_ser_num p event = (emit (Call.al_read_req serial_number 0) p, Event.none)

unfoldable pub sm_wait : Port → Event → Port × Event
sm_wait p event = (told SmPortmode.comready p, Event.none)

unfoldable pub sm_write_devmode : Port → Event → Port × Event
unfolding sm_dl_write_devicemode_req
sm_write_devmode p event = (sm_dl_write_devicemode_req DlMode.operate p, Event.none)

unfoldable pub sm_smoperate_ind : Port → Event → Port × Event
sm_smoperate_ind p Event.dl_mode_operate = (told SmPortmode.operate p, Event.none)
sm_smoperate_ind p Event.sm_operate_v10 = (told SmPortmode.operate p, Event.none)
sm_smoperate_ind p _ = (p, Event.none)

-- The modes of the port's line and of the port.
abbrev dido_modes : SmTargetMode → PlMode × SmPortmode
dido_modes SmTargetMode.di = (PlMode.di, SmPortmode.di)
dido_modes SmTargetMode.do_ = (PlMode.do_, SmPortmode.do_)
dido_modes _ = (PlMode.inactive, SmPortmode.inactive)

unfoldable pub sm_dido : Port → Event → Port × Event
unfolding sm_dl_set_mode_req_inactive
sm_dido p event =
    let (target_pl_mode, target_sm_mode) = dido_modes p.sm.config_paramlist.mode in
    (
      sm_dl_set_mode_req_inactive
          (told target_sm_mode (emit (Call.pl_set_mode_req target_pl_mode) p)),
      Event.none,
    )
