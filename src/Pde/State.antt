-- ===== src/Pde/State.antt =====
-- The state of process data, `iolink_pde_port_t`, and what lies below it.
use iol_hat.Base.{ℕ, Bool, List, ◌∷◌}
use iol_hat.Types.{IolinkError, ArgBlockId, SmiErrortype, PortStatusInfo}
use iol_hat.Types.Dl.{Controlcode}

-- `iolink_pde_state_t`.
pub data State : Type 0 where
  inactive pd_active : State

-- The functions of the application layer and of the port's driver, with their state. The lengths
-- and the data that they write through pointers are results.
pub record Lower (S : Type 0) : Type 0 where
  pub al_get_input_req : S → IolinkError × (ℕ × List ℕ)
  pub al_get_input_output_req : S → IolinkError × (ℕ × List ℕ)
  pub al_set_output_req : List ℕ → S → S × IolinkError
  pub al_control_req : Controlcode → S → S × IolinkError
  pub read_di : S → ℕ
  pub write_do : Bool → S → S

-- `arg_block_pdout_t` as a client gives it; a request without data has the id alone.
pub record ArgBlockPdout : Type 0 where
  pub id : ArgBlockId
  pub oe : ℕ
  pub len : ℕ
  pub bytes : List ℕ

-- The blocks that the client gets.
pub data Block : Type 0 where
  -- `arg_block_pdin_t`.
  pdin : (id port_qualifier_info len : ℕ) (bytes : List ℕ) → Block
  -- `arg_block_pdinout_t`.
  pdinout : (id port_qualifier_info : ℕ) (oe : Bool) (bytes : List ℕ) → Block

-- What the client is told.
pub data Call : Type 0 where
  smi_joberror_ind : (exp ref : ArgBlockId) (errortype : SmiErrortype) → Call
  smi_voidblock_cnf : (ref : ArgBlockId) → Call
  smi_cnf : (ref : ArgBlockId) (len : ℕ) (block : Block) → Call
  assert_failed : Call

-- The layer's part of `iolink_port_t`: `iolink_pde_port_t`, what it uses of `port_info`, the state
-- below, and the calls, the latest first.
pub record Port (S : Type 0) : Type 0 where
  pub state : State
  pub output_enable : Bool
  pub port_quality_info : ℕ
  pub port_status_info : PortStatusInfo
  pub lower : S
  pub out : List Call

abbrev pub emit : {S : Type 0} → Call → Port S → Port S
emit c p = record p { out = c ∷ p.out }
