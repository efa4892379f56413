-- ===== src/Cm/Actions.antt =====
-- The actions of the transitions, in the order of ilink/iolink_cm.c.
use iol_hat.Base.{ℕ, ◌+◌, ◌*◌, Bool, true, false, not, ◌||◌, ◌==◌, leb, if◌then◌else◌}
use iol_hat.Types.{DsFault, PortStatusInfo, TransmissionRate}
use iol_hat.Types.ArgBlock
use iol_hat.Types.SmiError
use iol_hat.Types.EventCode
use iol_hat.Types.Port.{PortConfigList, PortInfo}
use iol_hat.Types.Port.{mhmode_to_transmission_rate}
use iol_hat.Ds.Jobs.{Config}
use iol_hat.Ds.Api.{ds_chk_cfg}
use iol_hat.Cm.State.{Event, Block, Call, Port, emit, assert}
use iol_hat.Cm.Parameters.{
  deactive, iol_man, iol_auto, di_cq, do_cq, v11_restore, power2, portmode_to_target_mode,
  no_parameters, set_port_config,
}

abbrev pub ds_config : PortConfigList → Config
ds_config cfg = record {
  portmode = cfg.portmode;
  validation_backup = cfg.validation_backup;
  vendorid = cfg.vendorid;
  deviceid = cfg.deviceid;
}

abbrev is_autostart : Event → Bool
is_autostart Event.iol_autostart = true
is_autostart _ = false

unfoldable pub cm_startup : Port → Event → Port × Event
unfolding set_port_config
cm_startup p event =
    let forget = is_autostart event || not (ds_chk_cfg p.ds (ds_config p.cm.cfg_list)) in
    (set_port_config true (if forget then emit Call.ds_delete p else p), Event.none)

abbrev dido_status : Event → PortStatusInfo → PortStatusInfo
dido_status Event.di_cq s = PortStatusInfo.di
dido_status Event.do_cq s = PortStatusInfo.do_
dido_status _ s = s

unfoldable pub cm_dido : Port → Event → Port × Event
unfolding set_port_config
cm_dido p event =
    let q = record p {
      port_info = record p.port_info {
        port_status_info = dido_status event p.port_info.port_status_info;
        revisionid = 0;
        transmission_rate = TransmissionRate.not_detected;
        vendorid = 0;
        deviceid = 0;
        port_quality_info = 1;
      };
    } in
    (set_port_config true (emit Call.ds_delete q), Event.none)

-- The event that a configuration leads to, by the three `switch` statements.
unfoldable pub mode_event : PortConfigList → Event
mode_event cfg =
    if not (leb cfg.iq_behavior power2) || not (leb cfg.validation_backup v11_restore)
    then Event.unknown
    else (if cfg.portmode == deactive
        then Event.deactivated
        else (if cfg.portmode == di_cq
            then Event.di_cq
            else (if cfg.portmode == do_cq
                then Event.do_cq
                else (if cfg.portmode == iol_auto
                    then Event.iol_autostart
                    else (if cfg.portmode == iol_man then Event.iol_manual else Event.unknown)))))

-- What `cm_check_mode` tells the client of the event.
abbrev pub confirm_cfg : Event → Port → Port
confirm_cfg Event.unknown p =
    emit
      (Call.smi_joberror_ind p.cm.smi_req.exp_arg_block_id p.cm.smi_req.id
        SmiError.argblock_inconsistent)
      p
confirm_cfg _ p =
    emit (Call.smi_voidblock_cnf p.cm.smi_req.id)
      (record p { cm = record p.cm { cfg_list = p.cm.smi_req.configlist } })

unfoldable pub cm_check_mode : Port → Event → Port × Event
unfolding mode_event
cm_check_mode p Event.cfg_change =
    let res = mode_event p.cm.smi_req.configlist in
    (confirm_cfg res (emit Call.od_stop (emit Call.pd_stop p)), res)
cm_check_mode p _ = (p, Event.none)

-- Instance APPLICATION, source MASTER, type NOTIFICATION, mode SINGLE_SHOT: 4, 1, 1 and 1 in their
-- bits.
abbrev pub event_qualifier : ℕ
event_qualifier = 4 + 1 * 8 + 1 * 16 + 1 * 64

abbrev pub iolink_cm_do_smi_port_event : ℕ → Port → Port
iolink_cm_do_smi_port_event eventcode p =
    emit
      (Call.smi_cnf ArgBlock.void_block ArgBlock.sizeof_portevent
        (Block.port_event event_qualifier eventcode))
      p

unfoldable pub cm_comlost : Port → Event → Port × Event
unfolding cm_check_mode
cm_comlost p event =
    cm_check_mode
      (iolink_cm_do_smi_port_event EventCode.no_dev
        (record p { port_info = record p.port_info { port_status_info = PortStatusInfo.no_dev } }))
      event

unfoldable pub cm_comlost_ignore : Port → Event → Port × Event
cm_comlost_ignore p event = (p, Event.none)

unfoldable pub cm_cfg_change_ignore : Port → Event → Port × Event
cm_cfg_change_ignore p event = (p, Event.none)

unfoldable pub cm_ds_change : Port → Event → Port × Event
unfolding set_port_config
cm_ds_change p event = (set_port_config false p, Event.none)

abbrev cycletime_of : PortStatusInfo → ℕ → ℕ → ℕ
cycletime_of PortStatusInfo.deactivated real old = 0
cycletime_of PortStatusInfo.preop real old = real
cycletime_of _ real old = old

abbrev pub identified : PortStatusInfo → Port → PortInfo
identified PortStatusInfo.deactivated p = record p.port_info {
  revisionid = 0;
  transmission_rate = TransmissionRate.not_detected;
  vendorid = 0;
  deviceid = 0;
}
identified _ p = record p.port_info {
  revisionid = p.real_paramlist.revisionid;
  transmission_rate = mhmode_to_transmission_rate p.comrate;
  vendorid = p.real_paramlist.vendorid;
  deviceid = p.real_paramlist.deviceid;
}

unfoldable pub init_port_info : PortStatusInfo → ℕ → Port → Port
init_port_info status quality p = record p {
  port_info = record (identified status p) {
    port_status_info = status;
    port_quality_info = quality;
    cycletime = cycletime_of status p.real_paramlist.cycletime p.port_info.cycletime;
  };
}

unfoldable pub cm_start_ds : Port → Event → Port × Event
unfolding init_port_info
cm_start_ds p event = (emit Call.ds_startup (init_port_info PortStatusInfo.preop 1 p), Event.none)

unfoldable pub cm_ds_ready : Port → Event → Port × Event
cm_ds_ready p event = (emit Call.sm_operate p, Event.none)

unfoldable pub cm_ds_ready_ignore : Port → Event → Port × Event
cm_ds_ready_ignore p event = (p, Event.none)

unfoldable pub cm_sm_operate : Port → Event → Port × Event
unfolding init_port_info
cm_sm_operate p event =
    let q = init_port_info PortStatusInfo.op 0 p in
    (
      iolink_cm_do_smi_port_event EventCode.port_status_change
          (emit Call.pd_start (emit Call.od_start q)),
      Event.none,
    )

-- The code of the port event for a fault of data storage.
abbrev pub fault_code : DsFault → ℕ
fault_code DsFault.id = EventCode.backup_incon_id
fault_code DsFault.size = EventCode.backup_incon_size
fault_code DsFault.lock = EventCode.backup_incon
fault_code _ = EventCode.bad_did

-- The end of `cm_port_fault`, for the faults that do not return early.
abbrev diagnose : ℕ → Port → Port × Event
diagnose eventcode p = (
  iolink_cm_do_smi_port_event eventcode (init_port_info PortStatusInfo.port_diag 1 p),
  Event.none,
)

unfoldable pub port_fault_of : DsFault → Port → Port × Event
unfolding init_port_info
port_fault_of DsFault.com_err p = (p, Event.sm_comlost)
port_fault_of fault p = diagnose (fault_code fault) p

unfoldable pub cm_port_fault : Port → Event → Port × Event
unfolding port_fault_of init_port_info
cm_port_fault p Event.ds_fault = port_fault_of p.cm.ds_fault p
cm_port_fault p Event.sm_fault = diagnose EventCode.bad_did p
cm_port_fault p _ = diagnose EventCode.bad_did (emit Call.assert_failed p)

abbrev is_unknown : Event → Bool
is_unknown Event.unknown = true
is_unknown _ = false

-- The mode is that of the configuration that is in force, which an unknown one has not replaced.
unfoldable pub cm_deactivate : Port → Event → Port × Event
unfolding init_port_info portmode_to_target_mode
cm_deactivate p event =
    let q =
      assert (leb p.cm.cfg_list.portmode do_cq) (init_port_info PortStatusInfo.deactivated 1 p) in
    let r = if is_unknown event then emit Call.ds_delete q else q in
    (
      emit
          (Call.sm_set_port_config_req
            (record no_parameters { mode = portmode_to_target_mode p.cm.cfg_list.portmode }))
          r,
      Event.none,
    )
