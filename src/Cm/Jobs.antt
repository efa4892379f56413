-- ===== src/Cm/Jobs.antt =====
-- The callbacks that the main thread runs for the layer's jobs.
use iol_hat.Base.{
  ℕ, ◌+◌, ◌*◌, List, [], ◌∷◌, Bool, true, false, not, ◌==◌, if◌then◌else◌, u8, replicate,
}
use iol_hat.Types.{ArgBlockId, SmiErrortype, DsFault, PortStatusInfo}
use iol_hat.Types.ArgBlock
use iol_hat.Types.SmiError
use iol_hat.Types.EventCode
use iol_hat.Types.Port.{SmPortmode, PortInfo}
use iol_hat.Cm.State.{State, Event, SmiServiceReq, Block, Call, Port, emit}
use iol_hat.Cm.Actions.{init_port_info, iolink_cm_do_smi_port_event}
use iol_hat.Cm.Table.{iolink_cm_event}

-- What a posted job carries, by its callback.
pub data Job : Type 0 where
  sm_port_mode_ind : SmPortmode → Job
  ds_ready ds_change : Job
  ds_fault : DsFault → Job
  smi_masterident smi_portconfiguration smi_readbackportconfiguration : SmiServiceReq → Job
  smi_portstatus : SmiServiceReq → Job

-- The case of the mode INACTIVE.
unfoldable pub went_inactive : PortStatusInfo → Port → Port
went_inactive PortStatusInfo.deactivated p = p
went_inactive _ p =
    iolink_cm_do_smi_port_event EventCode.port_status_change (record p {
      port_info = record p.port_info { port_status_info = PortStatusInfo.deactivated };
    })

unfoldable pub cm_sm_port_mode_ind_cb : SmPortmode → Port → Port
unfolding went_inactive
cm_sm_port_mode_ind_cb SmPortmode.comready p = iolink_cm_event p Event.sm_comready
cm_sm_port_mode_ind_cb SmPortmode.revision_fault p = iolink_cm_event p Event.sm_fault
cm_sm_port_mode_ind_cb SmPortmode.comp_fault p = iolink_cm_event p Event.sm_fault
cm_sm_port_mode_ind_cb SmPortmode.sernum_fault p = iolink_cm_event p Event.sm_fault
cm_sm_port_mode_ind_cb SmPortmode.cyctime_fault p = iolink_cm_event p Event.sm_fault
cm_sm_port_mode_ind_cb SmPortmode.operate p = iolink_cm_event p Event.sm_operate
cm_sm_port_mode_ind_cb SmPortmode.comlost p = iolink_cm_event p Event.sm_comlost
cm_sm_port_mode_ind_cb SmPortmode.inactive p = went_inactive p.port_info.port_status_info p
cm_sm_port_mode_ind_cb SmPortmode.di p = p
cm_sm_port_mode_ind_cb SmPortmode.do_ p = p

unfoldable pub cm_ds_ready_cb : Port → Port
cm_ds_ready_cb p = iolink_cm_event p Event.ds_ready

unfoldable pub cm_ds_change_cb : Port → Port
cm_ds_change_cb p = iolink_cm_event p Event.ds_change

unfoldable pub cm_ds_fault_cb : DsFault → Port → Port
cm_ds_fault_cb fault p =
    iolink_cm_event (record p { cm = record p.cm { ds_fault = fault } }) Event.ds_fault

-- The test of a request's blocks, and the port with the error that the client is told.
unfoldable pub check_arg_block :
    SmiServiceReq → ArgBlockId → ℕ → ArgBlockId → SmiErrortype → Port → Port × Bool
check_arg_block req cmp_ref len cmp_exp errortype p =
    let joberror : SmiErrortype → Port =
      λ e. emit (Call.smi_joberror_ind req.exp_arg_block_id req.id e) p in
    if not (req.id == cmp_ref)
    then (joberror SmiError.argblock_not_supported, false)
    else (if not (req.arg_block_len == len)
        then (joberror SmiError.argblock_length_invalid, false)
        else (if not (req.exp_arg_block_id == cmp_exp)
            then (if not (errortype == SmiError.no_error)
                then (joberror errortype, false)
                else (p, false))
            else (p, true)))

unfoldable pub cm_smi_masterident_cb : SmiServiceReq → Port → Port
unfolding check_arg_block
cm_smi_masterident_cb req p =
    let checked =
      check_arg_block req ArgBlock.void_block ArgBlock.sizeof_void ArgBlock.masterident
        SmiError.no_error p in
    let len = u8 (ArgBlock.sizeof_masterident_head + ArgBlock.sizeof_port_types * p.port_cnt) in
    if checked.1
    then emit
        (Call.smi_cnf req.id len
          (Block.masterident 0xFFFF 0xFFFF p.port_cnt (replicate p.port_cnt 0)))
        checked.0
    else checked.0

unfoldable pub cm_smi_portconfiguration_cb : SmiServiceReq → Port → Port
unfolding check_arg_block
cm_smi_portconfiguration_cb req p =
    let checked =
      check_arg_block req ArgBlock.port_cfg_list ArgBlock.sizeof_portconfiglist ArgBlock.void_block
        SmiError.argblock_inconsistent p in
    let req' = record req { result = SmiError.no_error } in
    if checked.1
    then iolink_cm_event (record p { cm = record p.cm { smi_req = req' } }) Event.cfg_change
    else checked.0

unfoldable pub cm_smi_readbackportconfiguration_cb : SmiServiceReq → Port → Port
unfolding check_arg_block
cm_smi_readbackportconfiguration_cb req p =
    let checked =
      check_arg_block req ArgBlock.void_block ArgBlock.sizeof_void ArgBlock.port_cfg_list
        SmiError.argblock_inconsistent p in
    if checked.1
    then emit
        (Call.smi_cnf req.id ArgBlock.sizeof_portconfiglist (Block.port_cfg_list p.cm.cfg_list))
        checked.0
    else checked.0

abbrev pub status_cycle_time : PortStatusInfo → ℕ → ℕ
status_cycle_time PortStatusInfo.no_dev t = 0
status_cycle_time PortStatusInfo.deactivated t = 0
status_cycle_time PortStatusInfo.di t = 0
status_cycle_time PortStatusInfo.do_ t = 0
status_cycle_time _ t = t

abbrev pub status_block : PortInfo → Block
status_block i =
    Block.port_status_list i.port_status_info i.port_quality_info i.revisionid i.transmission_rate
      (status_cycle_time i.port_status_info i.cycletime) i.vendorid i.deviceid

unfoldable pub cm_smi_portstatus_cb : SmiServiceReq → Port → Port
unfolding check_arg_block
cm_smi_portstatus_cb req p =
    let checked =
      check_arg_block req ArgBlock.void_block ArgBlock.sizeof_void ArgBlock.port_status_list
        SmiError.no_error p in
    if checked.1
    then emit (Call.smi_cnf req.id ArgBlock.sizeof_portstatuslist (status_block p.port_info))
        checked.0
    else checked.0

unfoldable pub callback : Job → Port → Port
unfolding cm_sm_port_mode_ind_cb cm_ds_ready_cb cm_ds_change_cb cm_ds_fault_cb cm_smi_masterident_cb
    cm_smi_portconfiguration_cb cm_smi_readbackportconfiguration_cb cm_smi_portstatus_cb
callback (Job.sm_port_mode_ind mode) p = cm_sm_port_mode_ind_cb mode p
callback Job.ds_ready p = cm_ds_ready_cb p
callback Job.ds_change p = cm_ds_change_cb p
callback (Job.ds_fault fault) p = cm_ds_fault_cb fault p
callback (Job.smi_masterident req) p = cm_smi_masterident_cb req p
callback (Job.smi_portconfiguration req) p = cm_smi_portconfiguration_cb req p
callback (Job.smi_readbackportconfiguration req) p = cm_smi_readbackportconfiguration_cb req p
callback (Job.smi_portstatus req) p = cm_smi_portstatus_cb req p

unfoldable pub run : List Job → Port → Port
run [] p = p
run (j ∷ js) p = run js (callback j p)

-- `iolink_cm_init`.
unfoldable pub iolink_cm_init : Port → Port
unfolding init_port_info
iolink_cm_init p =
    let q = init_port_info PortStatusInfo.deactivated 1 p in
    record q { cm = record q.cm { ds_fault = DsFault.none; state = State.port_deactivated } }
