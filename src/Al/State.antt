-- ===== src/Al/State.antt =====
-- The state of the application layer, `iolink_al_port_t`, and what it calls.
use iol_hat.Base.{ℕ, Bool, List, ◌∷◌, if◌then◌else◌}
use iol_hat.Types.{ArgBlockId, SmiErrortype}
use iol_hat.Types.Dl.{Status, Direction, Iservice, Controlcode, ValueList}

-- `iolink_al_od_state_t`.
pub data OdState : Type 0 where
  onreq_idle build_dl_service await_dl_param_cnf await_dl_isdu_cnf : OdState

-- `iolink_al_event_state_t`.
pub data EventState : Type 0 where
  event_inactive event_idle read_event_set du_event_handling : EventState

-- `iolink_fsm_al_od_event_t`.
pub data OdEvent : Type 0 where
  none service arg_err param_read param_write_1 param_write_2 isdu_read isdu_write abort : OdEvent
  rwparam readparam_cnf writeparam_cnf isdutransport_cnf abort_port : OdEvent

abbrev pub od_value : OdEvent → ℕ
od_value OdEvent.none = 0
od_value OdEvent.service = 1
od_value OdEvent.arg_err = 2
od_value OdEvent.param_read = 3
od_value OdEvent.param_write_1 = 4
od_value OdEvent.param_write_2 = 5
od_value OdEvent.isdu_read = 6
od_value OdEvent.isdu_write = 7
od_value OdEvent.abort = 8
od_value OdEvent.rwparam = 9
od_value OdEvent.readparam_cnf = 10
od_value OdEvent.writeparam_cnf = 11
od_value OdEvent.isdutransport_cnf = 12
od_value OdEvent.abort_port = 13

-- `iolink_fsm_al_event_event_t`.
pub data EventEvent : Type 0 where
  none dl_event_ind_more dl_event_ind_done al_event_rsp al_event_req : EventEvent

abbrev pub event_value : EventEvent → ℕ
event_value EventEvent.none = 0
event_value EventEvent.dl_event_ind_more = 1
event_value EventEvent.dl_event_ind_done = 2
event_value EventEvent.al_event_rsp = 3
event_value EventEvent.al_event_req = 4

-- The job that `job_req` points to, of which the layer reads the part of its type. A client is
-- named by its callback. `other_req` stands for a job of another type, and for no job.
pub data JobReq : Type 0 where
  al_read_req : (index subindex client : ℕ) → JobReq
  al_write_req : (index subindex len : ℕ) (bytes : List ℕ) (client : ℕ) → JobReq
  other_req : JobReq

-- The union of the two callbacks, with the one that was written last.
pub data CnfCb : Type 0 where
  no_cb : CnfCb
  al_read_cnf_cb al_write_cnf_cb : (client : ℕ) → CnfCb

-- `service` of `iolink_al_port_t`; the client keeps what `data_write` points to until it is
-- answered, as `AL_Write_req` requires.
pub record Service : Type 0 where
  pub index : ℕ
  pub subindex : ℕ
  pub direction : Direction
  pub data_read : List ℕ
  pub data_write : List ℕ
  pub data_len : ℕ
  pub errinfo : Status
  pub qualifier : Iservice
  pub job_req : JobReq
  pub cnf_cb : CnfCb

-- `diag_entry_t`.
pub record DiagEntry : Type 0 where
  pub event_qualifier : ℕ
  pub event_code : ℕ

-- `iolink_al_port_t`.
pub record Al : Type 0 where
  pub od_state : OdState
  pub event_state : EventState
  pub pdin_data : List ℕ
  pub pdin_data_len : ℕ
  pub service : Service
  pub event_cnt : ℕ
  pub events : List DiagEntry

-- What the layer calls. A confirmation carries the length and the memory behind the pointer.
pub data Call : Type 0 where
  al_read_cnf : (client len : ℕ) (bytes : List ℕ) (errortype : SmiErrortype) → Call
  al_write_cnf : (client : ℕ) (errortype : SmiErrortype) → Call
  -- A callback of one kind that is called as one of the other kind, or none.
  wrong_cnf : Call
  dl_read_param_req : (address : ℕ) → Call
  dl_write_param_req : (address value : ℕ) → Call
  dl_isdu_transport_req : ValueList → Call
  al_control_ind : Controlcode → Call
  al_event_rsp ds_upload : Call
  pd_event : (len : ℕ) (bytes : List ℕ) → Call
  al_new_input_ind : Call
  smi_cnf_devevent : (ref : ArgBlockId) (len count : ℕ) (events : List DiagEntry) → Call
  assert_failed : Call

-- The layer's part of `iolink_port_t`, and its calls, the latest first.
pub record Port : Type 0 where
  pub al : Al
  pub out : List Call

abbrev pub emit : Call → Port → Port
emit c p = record p { out = c ∷ p.out }

-- `CC_ASSERT`.
abbrev pub assert : Bool → Port → Port
assert b p = if b then p else emit Call.assert_failed p

abbrev pub set_service : Service → Port → Port
set_service s p = record p { al = record p.al { service = s } }
