-- ===== src/Sm/State.antt =====
-- The state of system management, `iolink_sm_port_t`, and what it calls.
use iol_hat.Base.{ℕ, Bool, List, ◌∷◌, if◌then◌else◌}
use iol_hat.Types.Dl.{DlMode, ModeValueList}
use iol_hat.Types.Port.{ParameterList, Mhmode, SmPortmode}

-- `iolink_sm_state_t`.
pub data State : Type 0 where
  port_inactive waiton_dl_preoperate check_ser_num wait sm_operate : State
  inspection_fault waiton_dl_operate dido read_com_parameter check_comp_v10 : State
  check_vxy check_comp restart_device wait_for_fallback write_master_cycl : State
  wait_devmode_cnf : State

-- `iolink_fsm_sm_event_t`.
pub data Event : Type 0 where
  none dl_mode_startup comp_ok dl_mode_comlost v10_comp_ok v10_comp_fault : Event
  revision_fault comp_fault dl_mode_preoperate dl_mode_operate ser_num_ok : Event
  ser_num_fault sm_operate sm_operate_v10 sm_set_port_config_inactive : Event
  sm_set_port_config_cfgcom_or_autocom sm_set_port_config_di_or_do cyc_time_fault : Event
  cyc_time_fault_v10 v10 not_v10 revision_ok retry_startup write_done cnf_comlost : Event
  write_master_cycl_req write_master_cycl_done : Event

abbrev pub value : Event → ℕ
value Event.none = 0
value Event.dl_mode_startup = 1
value Event.comp_ok = 2
value Event.dl_mode_comlost = 3
value Event.v10_comp_ok = 4
value Event.v10_comp_fault = 5
value Event.revision_fault = 6
value Event.comp_fault = 7
value Event.dl_mode_preoperate = 8
value Event.dl_mode_operate = 9
value Event.ser_num_ok = 10
value Event.ser_num_fault = 11
value Event.sm_operate = 12
value Event.sm_operate_v10 = 13
value Event.sm_set_port_config_inactive = 14
value Event.sm_set_port_config_cfgcom_or_autocom = 15
value Event.sm_set_port_config_di_or_do = 16
value Event.cyc_time_fault = 17
value Event.cyc_time_fault_v10 = 18
value Event.v10 = 19
value Event.not_v10 = 20
value Event.revision_ok = 21
value Event.retry_startup = 22
value Event.write_done = 23
value Event.cnf_comlost = 24
value Event.write_master_cycl_req = 25
value Event.write_master_cycl_done = 26

-- `iolink_dev_com_t`.
pub record DevCom : Type 0 where
  pub mincycle : ℕ
  pub mseq_cap : ℕ
  pub pdi : ℕ
  pub pdo : ℕ

-- `iolink_sm_port_t`.
pub record Sm : Type 0 where
  pub state : State
  pub mh_mode : Mhmode
  pub comrate : Mhmode
  pub config_paramlist : ParameterList
  pub real_paramlist : ParameterList
  pub dev_com : DevCom
  pub dl_addr : ℕ
  pub comp_retry : ℕ
  pub error_event : Event

-- `iolink_pl_mode_t`.
pub data PlMode : Type 0 where
  inactive do_ di sdci : PlMode

-- What the layer calls.
pub data Call : Type 0 where
  dl_read_req : (addr : ℕ) → Call
  dl_write_req : (addr value : ℕ) → Call
  dl_write_devicemode_req : (devicemode : DlMode) → Call
  dl_set_mode_req : (mode : DlMode) (valuelist : ModeValueList) → Call
  pl_set_mode_req : (mode : PlMode) → Call
  pl_set_cycletime : (cycbyte : ℕ) → Call
  al_read_req : (index subindex : ℕ) → Call
  al_write_req : (index subindex len : ℕ) (bytes : List ℕ) → Call
  sm_port_mode_ind : SmPortmode → Call
  assert_failed : Call

-- The layer's part of `iolink_port_t`, the flag of data storage that it clears, the static variable
-- of `sm_DL_Read_cnf_cb`, and the calls, the latest first.
pub record Port : Type 0 where
  pub sm : Sm
  pub ds_enable : Bool
  pub older_cycletime : ℕ
  pub out : List Call

abbrev pub emit : Call → Port → Port
emit c p = record p { out = c ∷ p.out }

-- `CC_ASSERT`.
abbrev pub assert : Bool → Port → Port
assert b p = if b then p else emit Call.assert_failed p
