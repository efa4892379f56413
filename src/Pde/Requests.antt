-- ===== src/Pde/Requests.antt =====
-- The functions of ilink/iolink_pde.c, in its order.
use iol_hat.Base.{ℕ, ◌+◌, ◌-◌, ◌*◌, Bool, true, false, not, ◌||◌, ◌==◌, ltb, if◌then◌else◌, u8}
use iol_hat.Base.{List, [], ◌∷◌, bit_and, bit_or, get_or, overwrite, replicate, take}
use iol_hat.Types.{IolinkError, ArgBlockId, SmiErrortype, PortStatusInfo}
use iol_hat.Types.ArgBlock
use iol_hat.Types.SmiError
use iol_hat.Types.Dl.{Controlcode}
use iol_hat.Pde.State.{State, Lower, ArgBlockPdout, Block, Call, Port, emit}

-- `IOLINK_PORT_QUALITY_INFO_INVALID` and `IOLINK_PORT_QUALITY_INFO_PDO_INVALID`.
abbrev pub invalid : ℕ
invalid = 1

abbrev pub pdo_invalid : ℕ
pdo_invalid = 2

-- `IOLINK_PORT_QUALIFIER_INFO_PQ_INVALID`.
abbrev pub pq_invalid : ℕ
pq_invalid = 128

abbrev pub pd_max_size : ℕ
pd_max_size = 32

-- A quality byte with a bit cleared.
abbrev pub clear_bit : ℕ → ℕ → ℕ
clear_bit bit q = q - bit_and q bit

abbrev pub same_error : IolinkError → Bool
same_error IolinkError.none = true
same_error _ = false

-- The error of a request's blocks; the length is cut to a byte.
unfoldable pub block_error :
    ArgBlockId → ArgBlockId → ℕ → ArgBlockId → ArgBlockId → ℕ → ℕ → SmiErrortype
block_error exp ref arg_block_len exp_exp exp_ref len_min len_max =
    let len = u8 arg_block_len in
    if not (exp_ref == ref)
    then SmiError.argblock_not_supported
    else (if ltb len len_min || ltb len_max len
        then SmiError.argblock_length_invalid
        else (if not (exp_exp == exp) then SmiError.argblock_inconsistent else SmiError.no_error))

-- A port that is a digital input or output has no state of its own.
abbrev pub is_dido : PortStatusInfo → Bool
is_dido PortStatusInfo.di = true
is_dido PortStatusInfo.do_ = true
is_dido _ = false

abbrev pub is_ready : State → PortStatusInfo → Bool
is_ready State.pd_active status = true
is_ready State.inactive status = is_dido status

abbrev pub same : Bool → Bool → Bool
same true b = b
same false b = not b

module _ {S : Type 0} where
  unfoldable pub pde_port_quality_to_qualifier : Port S → ℕ
  pde_port_quality_to_qualifier p =
      if not (bit_and p.port_quality_info invalid == 0) then pq_invalid else 0

  unfoldable pub pde_check_smi_req :
      ArgBlockId → ArgBlockId → ℕ → ArgBlockId → ArgBlockId → ℕ → ℕ → Port S → Port S × IolinkError
  unfolding block_error
  pde_check_smi_req exp ref arg_block_len exp_exp exp_ref len_min len_max p =
      let smi_error = block_error exp ref arg_block_len exp_exp exp_ref len_min len_max in
      if not (smi_error == SmiError.no_error)
      then (emit (Call.smi_joberror_ind exp ref smi_error) p, IolinkError.parameter_conflict)
      else (if is_ready p.state p.port_status_info then (p, IolinkError.none) else (
        emit (Call.smi_joberror_ind exp ref SmiError.dev_not_in_operate) p,
        IolinkError.state_invalid,
      ))

  unfoldable pub iolink_pde_init : Port S → Port S
  iolink_pde_init p = record p { output_enable = false; state = State.inactive }

  unfoldable pub pd_start : Port S → Port S × IolinkError
  pd_start p = (record p { state = State.pd_active }, IolinkError.none)

  unfoldable pub pd_stop : Port S → Port S × IolinkError
  unfolding iolink_pde_init
  pd_stop p = (iolink_pde_init p, IolinkError.none)

  unfoldable pub al_control_ind : Controlcode → Port S → Port S × IolinkError
  al_control_ind Controlcode.valid p =
      (record p { port_quality_info = clear_bit invalid p.port_quality_info }, IolinkError.none)
  al_control_ind Controlcode.invalid p =
      (record p { port_quality_info = bit_or p.port_quality_info invalid }, IolinkError.none)
  al_control_ind Controlcode.pdoutvalid p =
      (record p { port_quality_info = clear_bit pdo_invalid p.port_quality_info }, IolinkError.none)
  al_control_ind Controlcode.pdoutinvalid p =
      (record p { port_quality_info = bit_or p.port_quality_info pdo_invalid }, IolinkError.none)
  al_control_ind _ p = (emit Call.assert_failed p, IolinkError.none)

  unfoldable pub go_on :
      Port S × IolinkError → (Port S → Port S × IolinkError) → Port S × IolinkError
  go_on (p, IolinkError.none) next = next p
  go_on (p, error) next = (p, error)

module _ {S : Type 0} (lower : Lower S) where
  -- The end of `pde_SMI_PDIn_req` for the error, the qualifier, the length and the data so far.
  unfoldable pub pdin_answer :
      ArgBlockId → ArgBlockId → ℕ → IolinkError → ℕ → List ℕ → Port S → Port S × IolinkError
  pdin_answer exp ref qualifier IolinkError.none len bytes p = (
    emit
        (Call.smi_cnf ref (ArgBlock.sizeof_pdin_head + len)
          (Block.pdin exp qualifier len (overwrite (replicate pd_max_size 0) 0 (take len bytes))))
        p,
    IolinkError.none,
  )
  pdin_answer exp ref qualifier error len bytes p =
      (emit (Call.smi_joberror_ind exp ref SmiError.dev_not_accessible) p, error)

  -- The two ways of `pde_SMI_PDIn_req` to get the data.
  unfoldable pub pdin_by : PortStatusInfo → ArgBlockId → ArgBlockId → Port S → Port S × IolinkError
  unfolding pdin_answer
  pdin_by PortStatusInfo.di exp ref p =
      pdin_answer exp ref 0 IolinkError.none 1 (lower.read_di p.lower ∷ []) p
  pdin_by _ exp ref p =
      let (error, (len, bytes)) = lower.al_get_input_req p.lower in
      pdin_answer exp ref (pde_port_quality_to_qualifier p) error len bytes p

  unfoldable pub pde_smi_pdin_req : ArgBlockId → ℕ → ArgBlockId → Port S → Port S × IolinkError
  unfolding pdin_by pdin_answer go_on
  pde_smi_pdin_req exp arg_block_len ref p =
      go_on
        (pde_check_smi_req exp ref arg_block_len ArgBlock.pd_in ArgBlock.void_block
          ArgBlock.sizeof_void ArgBlock.sizeof_void p)
        (λ q. pdin_by q.port_status_info exp ref q)

  unfoldable pub joberror : ArgBlockId → ArgBlockId → IolinkError → Port S → Port S × IolinkError
  joberror exp ref error p =
      (emit (Call.smi_joberror_ind exp ref SmiError.dev_not_accessible) p, error)

  unfoldable pub controlled :
      ArgBlockId → ArgBlockId → Bool → IolinkError → Port S → Port S × IolinkError
  unfolding joberror
  controlled exp ref oe IolinkError.none p =
      (emit (Call.smi_voidblock_cnf ref) (record p { output_enable = oe }), IolinkError.none)
  controlled exp ref oe error p = joberror exp ref error p

  -- After `AL_SetOutput_req`: the validity of the outputs is told when it changes.
  unfoldable pub output_set :
      ArgBlockId → ArgBlockId → Bool → IolinkError → Port S → Port S × IolinkError
  unfolding controlled joberror
  output_set exp ref oe IolinkError.none p =
      let code = if oe then Controlcode.pdoutvalid else Controlcode.pdoutinvalid in
      let (below, error) = lower.al_control_req code p.lower in
      if same p.output_enable oe
      then (emit (Call.smi_voidblock_cnf ref) p, IolinkError.none)
      else controlled exp ref oe error (record p { lower = below })
  output_set exp ref oe error p = joberror exp ref error p

  unfoldable pub pdout_by :
      PortStatusInfo → ArgBlockId → ArgBlockPdout → Port S → Port S × IolinkError
  unfolding output_set
  pdout_by PortStatusInfo.do_ exp block p =
      let value = bit_and (get_or block.bytes 0 0) 1 == 1 in
      (
        emit (Call.smi_voidblock_cnf block.id) (record p { lower = lower.write_do value p.lower }),
        IolinkError.none,
      )
  pdout_by _ exp block p =
      let (below, error) = lower.al_set_output_req block.bytes p.lower in
      output_set exp block.id (bit_and block.oe 1 == 1) error (record p { lower = below })

  unfoldable pub pde_smi_pdout_req : ArgBlockId → ℕ → ArgBlockPdout → Port S → Port S × IolinkError
  unfolding pdout_by output_set controlled joberror go_on
  pde_smi_pdout_req exp arg_block_len block p =
      go_on
        (pde_check_smi_req exp block.id arg_block_len ArgBlock.void_block ArgBlock.pd_out
          (ArgBlock.sizeof_pdout_head + 1) ArgBlock.sizeof_pdout p)
        (λ q. pdout_by q.port_status_info exp block q)

  unfoldable pub pdinout_answer :
      ArgBlockId → ArgBlockId → IolinkError → ℕ → List ℕ → Port S → Port S × IolinkError
  unfolding joberror
  pdinout_answer exp ref IolinkError.none pdlen bytes p = (
    emit
        (Call.smi_cnf ref (u8 (ArgBlock.sizeof_pdinout_head + pdlen)) (
          Block.pdinout exp (pde_port_quality_to_qualifier p) p.output_enable
            (overwrite (replicate (2 + 2 * pd_max_size) 0) 0 (take pdlen bytes))))
        p,
    IolinkError.none,
  )
  pdinout_answer exp ref error pdlen bytes p = joberror exp ref error p

  -- A digital input gets no answer.
  unfoldable pub pdinout_by :
      PortStatusInfo → ArgBlockId → ArgBlockId → Port S → Port S × IolinkError
  unfolding pdinout_answer
  pdinout_by PortStatusInfo.di exp ref p = (p, IolinkError.none)
  pdinout_by _ exp ref p =
      let (error, (pdlen, bytes)) = lower.al_get_input_output_req p.lower in
      pdinout_answer exp ref error pdlen bytes p

  unfoldable pub pde_smi_pdinout_req : ArgBlockId → ℕ → ArgBlockId → Port S → Port S × IolinkError
  unfolding pdinout_by pdinout_answer joberror go_on
  pde_smi_pdinout_req exp arg_block_len ref p =
      go_on
        (pde_check_smi_req exp ref arg_block_len ArgBlock.pd_in_out ArgBlock.void_block
          ArgBlock.sizeof_void ArgBlock.sizeof_void p)
        (λ q. pdinout_by q.port_status_info exp ref q)
