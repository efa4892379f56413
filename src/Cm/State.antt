-- ===== src/Cm/State.antt =====
-- The state of the configuration manager, `iolink_cm_port_t`, what it reads of other layers, and
-- what it calls.
use iol_hat.Base.{ℕ, Bool, List, ◌∷◌, if◌then◌else◌}
use iol_hat.Types.{ArgBlockId, SmiErrortype, DsFault, PortStatusInfo, TransmissionRate}
use iol_hat.Types.Port.{PortConfigList, ParameterList, PortInfo, Mhmode}
use iol_hat.Ds.State.{Ds}

-- `iolink_cm_state_t`.
pub data State : Type 0 where
  check_port_mode sm_startup ds_param_manager port_fault waiting_on_operate port_active : State
  port_dido port_deactivated : State

-- `iolink_fsm_cm_event_t`.
pub data Event : Type 0 where
  none iol_manual iol_autostart sm_comready sm_fault ds_ready ds_fault sm_operate : Event
  sm_comlost di_cq do_cq deactivated cfg_change ds_change unknown sm_comlost_ds : Event

abbrev pub value : Event → ℕ
value Event.none = 0
value Event.iol_manual = 1
value Event.iol_autostart = 2
value Event.sm_comready = 3
value Event.sm_fault = 4
value Event.ds_ready = 5
value Event.ds_fault = 6
value Event.sm_operate = 7
value Event.sm_comlost = 8
value Event.di_cq = 9
value Event.do_cq = 10
value Event.deactivated = 11
value Event.cfg_change = 12
value Event.ds_change = 13
value Event.unknown = 14
value Event.sm_comlost_ds = 15

-- `iolink_smi_service_req_t`, with the id of the block that it points to and the configuration that
-- stands behind the id there.
pub record SmiServiceReq : Type 0 where
  pub exp_arg_block_id : ArgBlockId
  pub arg_block_len : ℕ
  pub id : ArgBlockId
  pub configlist : PortConfigList
  pub result : SmiErrortype

-- `iolink_cm_port_t`.
pub record Cm : Type 0 where
  pub state : State
  pub smi_req : SmiServiceReq
  pub cfg_list : PortConfigList
  pub ds_fault : DsFault

-- The blocks that the client gets, without their fields that are always 0.
pub data Block : Type 0 where
  -- `arg_block_portevent_t`.
  port_event : (event_qualifier event_code : ℕ) → Block
  -- `arg_block_masterident_t`.
  masterident : (vendorid masterid max_number_of_ports : ℕ) (port_types : List ℕ) → Block
  -- `arg_block_portconfiglist_t`.
  port_cfg_list : PortConfigList → Block
  -- `arg_block_portstatuslist_t`.
  port_status_list :
      (port_status_info : PortStatusInfo) (port_quality_info revision_id : ℕ)
      (transmission_rate : TransmissionRate) (master_cycle_time vendorid deviceid : ℕ)
      → Block

-- What the layer calls.
pub data Call : Type 0 where
  ds_delete ds_startup od_start od_stop pd_start pd_stop sm_operate : Call
  ds_init : PortConfigList → Call
  sm_set_port_config_req : ParameterList → Call
  smi_joberror_ind : (exp ref : ArgBlockId) (errortype : SmiErrortype) → Call
  smi_voidblock_cnf : (ref : ArgBlockId) → Call
  smi_cnf : (ref : ArgBlockId) (len : ℕ) (block : Block) → Call
  assert_failed : Call

-- The layer's part of `iolink_port_t`, `port_info`, what it reads of the master, of system
-- management and of data storage, and the calls, the latest first.
pub record Port : Type 0 where
  pub cm : Cm
  pub port_info : PortInfo
  pub port_cnt : ℕ
  pub real_paramlist : ParameterList
  pub comrate : Mhmode
  pub ds : Ds
  pub out : List Call

abbrev pub emit : Call → Port → Port
emit c p = record p { out = c ∷ p.out }

-- `CC_ASSERT`.
abbrev pub assert : Bool → Port → Port
assert b p = if b then p else emit Call.assert_failed p
