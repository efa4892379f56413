-- ===== src/Ode/State.antt =====
-- The state of the on-request data layer, `iolink_ode_port_t`, and what it calls.
use iol_hat.Base.{ℕ, List, ◌∷◌}
use iol_hat.Types.{ArgBlockId, SmiErrortype}

-- `iolink_ode_state_t`.
pub data State : Type 0 where
  inactive od_active od_blocked : State

-- `iolink_fsm_ode_event_t`.
pub data Event : Type 0 where
  none smi_dev_rw_1 od_start od_stop smi_dev_rw_4 od_block smi_dev_rw_6 od_unblock : Event

abbrev pub value : Event → ℕ
value Event.none = 0
value Event.smi_dev_rw_1 = 1
value Event.od_start = 2
value Event.od_stop = 3
value Event.smi_dev_rw_4 = 4
value Event.od_block = 5
value Event.smi_dev_rw_6 = 6
value Event.od_unblock = 7

-- `arg_block_od_t`, the client's block: `data` is the memory behind the head.
pub record ArgBlockOd : Type 0 where
  pub id : ArgBlockId
  pub index : ℕ
  pub subindex : ℕ
  pub bytes : List ℕ

-- `iolink_smi_service_req_t`; the block is held by value, since no two requests share one.
pub record SmiServiceReq : Type 0 where
  pub exp_arg_block_id : ArgBlockId
  pub arg_block_len : ℕ
  pub arg_block : ArgBlockOd
  pub result : SmiErrortype

-- `iolink_ode_port_t`. Of the job that `job_smi_req_busy` points to only the request is read.
pub record Ode : Type 0 where
  pub state : State
  pub smi_req : SmiServiceReq
  pub job_smi_req_busy : SmiServiceReq

-- What the layer calls: the application layer, and the client's callback through
-- `iolink_smi_joberror_ind`, `iolink_smi_cnf` and `iolink_smi_voidblock_cnf`.
pub data Call : Type 0 where
  al_read_req : (index subindex : ℕ) → Call
  al_write_req : (index subindex len : ℕ) (bytes : List ℕ) → Call
  smi_joberror_ind : (exp ref : ArgBlockId) (errortype : SmiErrortype) → Call
  smi_cnf : (ref : ArgBlockId) (len : ℕ) (block : ArgBlockOd) → Call
  smi_voidblock_cnf : (ref : ArgBlockId) → Call
  assert_failed : Call

-- The layer's part of `iolink_port_t`, and its calls, the latest first.
pub record Port : Type 0 where
  pub ode : Ode
  pub out : List Call

abbrev pub emit : Call → Port → Port
emit c p = record p { out = c ∷ p.out }
