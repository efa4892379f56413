-- ===== src/Ode/Actions.antt =====
-- The actions of the transitions, in the order of ilink/iolink_ode.c.
use iol_hat.Base.{ℕ, ◌-◌, Bool, true, false, ◌&&◌, ◌||◌, ◌==◌, leb, if◌then◌else◌, u8}
use iol_hat.Types.{ArgBlockId, SmiErrortype}
use iol_hat.Types.ArgBlock
use iol_hat.Types.SmiError
use iol_hat.Ode.State.{Event, SmiServiceReq, Call, Port, emit}

-- `SMI_ParamReadBatch` and `SMI_ParamWriteBatch` carry one of these blocks.
is_batch : ArgBlockId → Bool
is_batch ref = ref == ArgBlock.port_index_list || ref == ArgBlock.dev_par_bat

-- The first `switch` of `ode_smi_od_err`, whose default asserts.
blocked_errortype : Event → SmiErrortype
blocked_errortype Event.smi_dev_rw_1 = SmiError.idx_notavail
blocked_errortype Event.smi_dev_rw_6 = SmiError.service_temp_unavailable
blocked_errortype _ = SmiError.no_error

is_blocked_event : Event → Bool
is_blocked_event Event.smi_dev_rw_1 = true
is_blocked_event Event.smi_dev_rw_6 = true
is_blocked_event _ = false

-- The error that a request gets which meets a port that is not ready.
od_errortype : ArgBlockId → Event → SmiErrortype
unfolding is_batch blocked_errortype
od_errortype ref event =
    if ref == ArgBlock.od_rd || ref == ArgBlock.od_wr
    then blocked_errortype event
    else (if is_batch ref then SmiError.service_not_supported else SmiError.argblock_not_supported)

unfoldable pub ode_smi_od_err : Port → Event → Port × Event
unfolding od_errortype is_blocked_event is_batch
ode_smi_od_err p event =
    let req = p.ode.job_smi_req_busy in
    let ref = req.arg_block.id in
    let q : Port =
      if is_batch ref || is_blocked_event event then p else emit Call.assert_failed p in
    (emit (Call.smi_joberror_ind req.exp_arg_block_id ref (od_errortype ref event)) q, Event.none)

unfoldable pub ode_od_start : Port → Event → Port × Event
ode_od_start p event = (p, Event.none)

unfoldable pub ode_od_stop : Port → Event → Port × Event
ode_od_stop p event = (p, Event.none)

ode_al_read_req : Port → Port × Event
ode_al_read_req p =
    let block = p.ode.smi_req.arg_block in
    (emit (Call.al_read_req block.index block.subindex) p, Event.od_block)

-- The length is cut to a byte before the head is taken off.
write_data_len : ℕ → ℕ
write_data_len len = if leb ArgBlock.sizeof_od (u8 len) then u8 len - ArgBlock.sizeof_od else 0

ode_al_write_req : Port → Port × Event
unfolding write_data_len
ode_al_write_req p =
    let req = p.ode.smi_req in
    let block = req.arg_block in
    let len = write_data_len req.arg_block_len in
    (emit (Call.al_write_req block.index block.subindex len block.bytes) p, Event.od_block)

-- The two pairs of expected and referenced block that `ode_smi_rw` and `ode_smi_done` serve.
abbrev pub is_read : SmiServiceReq → Bool
is_read req = req.exp_arg_block_id == ArgBlock.od_rd && req.arg_block.id == ArgBlock.od_rd

abbrev pub is_write : SmiServiceReq → Bool
is_write req = req.exp_arg_block_id == ArgBlock.void_block && req.arg_block.id == ArgBlock.od_wr

unfoldable pub ode_smi_rw : Port → Event → Port × Event
unfolding ode_al_read_req ode_al_write_req is_batch
ode_smi_rw p event =
    let req = p.ode.smi_req in
    let ref = req.arg_block.id in
    let errortype =
      if is_batch ref then SmiError.service_not_supported else SmiError.argblock_not_supported in
    if is_read req
    then ode_al_read_req p
    else (if is_write req
        then ode_al_write_req p
        else (emit (Call.smi_joberror_ind req.exp_arg_block_id ref errortype) p, Event.none))

unfoldable pub ode_smi_done : Port → Event → Port × Event
ode_smi_done p event =
    let req = p.ode.smi_req in
    let ref = req.arg_block.id in
    let answer : Call =
      if req.result == SmiError.no_error
      then (if is_read req
          then Call.smi_cnf ref req.arg_block_len req.arg_block
          else (if is_write req then Call.smi_voidblock_cnf ref else Call.assert_failed))
      else Call.smi_joberror_ind req.exp_arg_block_id ref req.result in
    (emit answer p, Event.none)

unfoldable pub ode_wait : Port → Event → Port × Event
ode_wait p event = (p, Event.none)
