-- ===== src/Cm/Answers.antt =====
-- Which requests of a client are answered.
use iol_hat.Base.{ℕ, suc, ◌+◌, ◌≡◌, refl, true, false, Bool, List, [], ◌∷◌, arith}
use iol_hat.Base.{◌&&◌, not, ◌==◌}
use iol_hat.Fsm.{iteration, event_loop}
use iol_hat.Types.{ArgBlockId}
use iol_hat.Types.ArgBlock
use iol_hat.Cm.State.{State, SmiServiceReq, Block, Call, Port}
use iol_hat.Cm.Actions.{cm_startup, cm_dido, cm_check_mode, cm_comlost, cm_comlost_ignore}
use iol_hat.Cm.Actions.{cm_cfg_change_ignore, cm_ds_change, cm_start_ds, cm_ds_ready}
use iol_hat.Cm.Actions.{cm_ds_ready_ignore, cm_sm_operate, cm_port_fault, cm_deactivate}
use iol_hat.Cm.Actions.{mode_event, port_fault_of}
use iol_hat.Cm.Parameters.{set_port_config}
use iol_hat.Cm.Table.{iolink_cm_fsm, iolink_cm_event}
use iol_hat.Cm.Jobs.{Job, callback, run, check_arg_block, went_inactive}
use iol_hat.Cm.Jobs.{cm_smi_portconfiguration_cb, cm_smi_masterident_cb, cm_smi_portstatus_cb}
use iol_hat.Cm.Jobs.{cm_smi_readbackportconfiguration_cb, cm_sm_port_mode_ind_cb, cm_ds_ready_cb}
use iol_hat.Cm.Jobs.{cm_ds_change_cb, cm_ds_fault_cb}

-- The confirmations and error indications that reached the client; a port event is no answer.
abbrev pub answers : List Call → ℕ
answers [] = 0
answers (Call.smi_joberror_ind exp ref errortype ∷ cs) = suc (answers cs)
answers (Call.smi_voidblock_cnf ref ∷ cs) = suc (answers cs)
answers (Call.smi_cnf ref len (Block.port_event qualifier code) ∷ cs) = answers cs
answers (Call.smi_cnf ref len block ∷ cs) = suc (answers cs)
answers (_ ∷ cs) = answers cs

abbrev pub requests : Job → ℕ
requests (Job.smi_masterident req) = 1
requests (Job.smi_portconfiguration req) = 1
requests (Job.smi_readbackportconfiguration req) = 1
requests (Job.smi_portstatus req) = 1
requests _ = 0

abbrev one_if : Bool → ℕ
one_if true = 1
one_if false = 0

-- A request with a void block and another expected block than `cmp_exp`.
abbrev is_unexpected : SmiServiceReq → ArgBlockId → Bool
is_unexpected req cmp_exp =
    req.id == ArgBlock.void_block
    && req.arg_block_len == ArgBlock.sizeof_void
    && not (req.exp_arg_block_id == cmp_exp)

abbrev pub is_config : SmiServiceReq → Bool
is_config req =
    req.id == ArgBlock.port_cfg_list
    && req.arg_block_len == ArgBlock.sizeof_portconfiglist
    && req.exp_arg_block_id == ArgBlock.void_block

-- The requests that are passed over: an identification or a status with another expected block, and
-- a configuration while data storage is at work.
abbrev pub ignored : Job → State → ℕ
ignored (Job.smi_masterident req) s = one_if (is_unexpected req ArgBlock.masterident)
ignored (Job.smi_portstatus req) s = one_if (is_unexpected req ArgBlock.port_status_list)
ignored (Job.smi_portconfiguration req) State.ds_param_manager = one_if (is_config req)
ignored _ _ = 0

callback-answers :
    (p : Port) (j : Job) (s : State)
    → p.cm.state ≡ s
    → answers (callback j p).out + ignored j s ≡ answers p.out + requests j
unfolding callback cm_sm_port_mode_ind_cb cm_ds_ready_cb cm_ds_change_cb cm_ds_fault_cb
    cm_smi_masterident_cb cm_smi_portconfiguration_cb cm_smi_readbackportconfiguration_cb
    cm_smi_portstatus_cb check_arg_block went_inactive iolink_cm_event event_loop iteration
    iolink_cm_fsm cm_startup cm_dido cm_check_mode cm_comlost cm_comlost_ignore cm_cfg_change_ignore
    cm_ds_change cm_start_ds cm_ds_ready cm_ds_ready_ignore cm_sm_operate cm_port_fault
    cm_deactivate mode_event port_fault_of set_port_config
callback-answers p _ _ q = ground arith

abbrev pub all_requests : List Job → ℕ
all_requests [] = 0
all_requests (j ∷ js) = requests j + all_requests js

abbrev pub all_ignored : List Job → Port → ℕ
all_ignored [] p = 0
all_ignored (j ∷ js) p = ignored j p.cm.state + all_ignored js (callback j p)

-- Whatever jobs are worked off, the client gets one answer for each of its requests, but none for a
-- request for the master's identification or a port's status that expects another block, and none
-- for a configuration that comes while data storage is at work.
pub jobs-answers :
    (js : List Job) (p : Port)
    → answers (run js p).out + all_ignored js p ≡ answers p.out + all_requests js
unfolding run
jobs-answers [] p = omega arith
jobs-answers (j ∷ js) p =
    omega (arith, callback-answers p j p.cm.state refl, jobs-answers js (callback j p))
