-- ===== src/Types.antt =====
-- The enumerations and constants that the layers share: include/ilink/iolink.h and
-- include/ilink/iolink_types.h.
pub mod ArgBlock
pub mod SmiError
pub mod Port
pub mod EventCode
pub mod Dl
use iol_hat.Base.{ℕ}

-- `iolink_error_t`.
pub data IolinkError : Type 0 where
  none pdinlength pdoutlength odlength address_invalid comchannel_invalid : IolinkError
  mode_invalid status_invalid controlcode_invalid conditions_not_correct : IolinkError
  incorrect_data state_invalid out_of_memory parameter_conflict state_conflict : IolinkError

-- `iolink_arg_block_id_t` is a packed 16-bit value that a client sends, so it is any number, and
-- the enumerators are constants.
abbrev pub ArgBlockId : Type 0
ArgBlockId = ℕ

-- `iolink_smi_errortypes_t`: a packed 16-bit value, some of which come from the device.
abbrev pub SmiErrortype : Type 0
SmiErrortype = ℕ

-- `iolink_ds_fault_t`.
pub data DsFault : Type 0 where
  none id size up down com_err lock : DsFault

-- `iolink_port_status_info_t`.
pub data PortStatusInfo : Type 0 where
  no_dev deactivated port_diag preop op di do_ power_off not_avail : PortStatusInfo

-- `iolink_transmission_rate_t`.
pub data TransmissionRate : Type 0 where
  not_detected com1 com2 com3 : TransmissionRate

-- `iolink_job_type_t`, the types of the jobs that the main thread works off.
pub data JobType : Type 0 where
  none pd_event sm_operate_req sm_set_port_cfg_req dl_mode_ind dl_read_cnf dl_write_cnf : JobType
  dl_write_devmode_cnf dl_readparam_cnf dl_writeparam_cnf dl_isdu_trans_cnf : JobType
  dl_pdinput_trans_ind sm_port_mode_ind dl_event_ind dl_control_ind ds_startup ds_delete : JobType
  ds_init ds_upload ds_ready ds_change ds_fault od_start od_stop al_control_cnf al_read_req :
      JobType
  al_read_cnf al_write_cnf al_write_req al_abort al_event_rsp al_event_req smi_masterident : JobType
  smi_portconfiguration smi_readbackportconfiguration smi_portstatus smi_device_write : JobType
  smi_device_read smi_param_read smi_param_write periodic exit : JobType
