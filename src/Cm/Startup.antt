-- ===== src/Cm/Startup.antt =====
-- The start of a port, and what may start or hold up its data exchange.
use iol_hat.Base.{ℕ, suc, ◌+◌, ◌≡◌, ◌≢◌, ◌∙◌, refl, true, false, Bool, List, [], ◌∷◌, arith}
use iol_hat.Base.{◌&&◌, not}
use iol_hat.Fsm.{iteration, event_loop}
use iol_hat.Types.{PortStatusInfo}
use iol_hat.Types.ArgBlock
use iol_hat.Types.Port.{SmPortmode}
use iol_hat.Cm.State.{State, Block, Call, Port}
use iol_hat.Cm.Actions.{cm_startup, cm_dido, cm_check_mode, cm_comlost, cm_comlost_ignore}
use iol_hat.Cm.Actions.{cm_cfg_change_ignore, cm_ds_change, cm_start_ds, cm_ds_ready}
use iol_hat.Cm.Actions.{cm_ds_ready_ignore, cm_sm_operate, cm_port_fault, cm_deactivate}
use iol_hat.Cm.Actions.{mode_event, port_fault_of}
use iol_hat.Cm.Parameters.{set_port_config}
use iol_hat.Cm.Actions.{init_port_info}
use iol_hat.Cm.Table.{iolink_cm_fsm, iolink_cm_event}
use iol_hat.Cm.Jobs.{Job, callback, run, check_arg_block, went_inactive}
use iol_hat.Cm.Jobs.{cm_smi_portconfiguration_cb, cm_smi_masterident_cb, cm_smi_portstatus_cb}
use iol_hat.Cm.Jobs.{cm_smi_readbackportconfiguration_cb, cm_sm_port_mode_ind_cb, cm_ds_ready_cb}
use iol_hat.Cm.Jobs.{cm_ds_change_cb, cm_ds_fault_cb}

abbrev pub start_jobs : List Job
start_jobs =
    Job.sm_port_mode_ind SmPortmode.comready
    ∷ Job.ds_ready
    ∷ Job.sm_port_mode_ind SmPortmode.operate
    ∷ []

abbrev pub started_event : Call
started_event =
    Call.smi_cnf ArgBlock.void_block ArgBlock.sizeof_portevent (Block.port_event 92 0xFF26)

-- A port that waits for its device goes through data storage to the exchange of data: it starts
-- data storage, then the operation of the device, then the on-request and the process data, tells
-- the client, and has the identity of the device and the status OP.
pub start_jobs-run :
    (p : Port)
    → p.cm.state ≡ State.sm_startup
    → let q = run start_jobs p in
      (q.cm.state ≡ State.port_active)
      × (q.out
          ≡ started_event ∷ Call.pd_start ∷ Call.od_start ∷ Call.sm_operate ∷ Call.ds_startup
            ∷ p.out)
      × (q.port_info.port_status_info ≡ PortStatusInfo.op)
      × (q.port_info.port_quality_info ≡ 0)
      × (q.port_info.vendorid ≡ p.real_paramlist.vendorid)
      × (q.port_info.deviceid ≡ p.real_paramlist.deviceid)
      × (q.port_info.cycletime ≡ p.real_paramlist.cycletime)
unfolding run callback cm_sm_port_mode_ind_cb cm_ds_ready_cb iolink_cm_event event_loop iteration
    iolink_cm_fsm cm_start_ds cm_ds_ready cm_sm_operate init_port_info
start_jobs-run p s = ground arith

-- The starts of the on-request data among calls.
abbrev pub starts : List Call → ℕ
starts [] = 0
starts (Call.od_start ∷ cs) = suc (starts cs)
starts (_ ∷ cs) = starts cs

-- Data storage is the only layer whose jobs these are.
abbrev pub is_ds_job : Job → Bool
is_ds_job Job.ds_ready = true
is_ds_job Job.ds_change = true
is_ds_job (Job.ds_fault fault) = true
is_ds_job _ = false

-- The starts that a job adds.
abbrev started : Job → State → ℕ
started (Job.sm_port_mode_ind SmPortmode.operate) State.waiting_on_operate = 1
started _ _ = 0

starts_at :
    (p : Port) (j : Job) (s : State)
    → p.cm.state ≡ s
    → starts (callback j p).out ≡ starts p.out + started j s
unfolding callback cm_sm_port_mode_ind_cb cm_ds_ready_cb cm_ds_change_cb cm_ds_fault_cb
    cm_smi_masterident_cb cm_smi_portconfiguration_cb cm_smi_readbackportconfiguration_cb
    cm_smi_portstatus_cb check_arg_block went_inactive iolink_cm_event event_loop iteration
    iolink_cm_fsm cm_startup cm_dido cm_check_mode cm_comlost cm_comlost_ignore cm_cfg_change_ignore
    cm_ds_change cm_start_ds cm_ds_ready cm_ds_ready_ignore cm_sm_operate cm_port_fault
    cm_deactivate mode_event port_fault_of set_port_config
starts_at p _ _ q = ground arith

activates :
    (p : Port) (j : Job)
    → started j p.cm.state ≢ 0
    → (j ≡ Job.sm_port_mode_ind SmPortmode.operate)
      × (p.cm.state ≡ State.waiting_on_operate)
      × ((callback j p).cm.state ≡ State.port_active)
      × (started j p.cm.state ≡ 1)
unfolding callback cm_sm_port_mode_ind_cb iolink_cm_event event_loop iteration iolink_cm_fsm
    cm_sm_operate
activates p (Job.sm_port_mode_ind SmPortmode.operate) h = ground arith
activates p _ h = absurd (h refl)

-- A job starts the exchange of on-request data only if it is the indication that the device
-- operates and the port waits for that, behind data storage; it is started once then, and the port
-- is active.
pub callback-starts :
    (p : Port) (j : Job)
    → starts (callback j p).out ≢ starts p.out
    → (j ≡ Job.sm_port_mode_ind SmPortmode.operate)
      × (p.cm.state ≡ State.waiting_on_operate)
      × ((callback j p).cm.state ≡ State.port_active)
      × (starts (callback j p).out ≡ starts p.out + 1)
callback-starts p j h =
    let n = starts_at p j p.cm.state refl in
    let a = activates p j (λ z. h (n ∙ omega (arith, z))) in (a.0, a.1, a.2, omega (arith, n, a.3))

held :
    (p : Port) (j : Job)
    → p.cm.state ≡ State.ds_param_manager
    → is_ds_job j ≡ false
    → ((callback j p).cm.state ≡ State.ds_param_manager)
      × ((callback j p).cm.cfg_list ≡ p.cm.cfg_list)
unfolding callback cm_sm_port_mode_ind_cb cm_ds_ready_cb cm_ds_change_cb cm_ds_fault_cb
    cm_smi_masterident_cb cm_smi_portconfiguration_cb cm_smi_readbackportconfiguration_cb
    cm_smi_portstatus_cb check_arg_block went_inactive iolink_cm_event event_loop iteration
    iolink_cm_fsm cm_startup cm_dido cm_check_mode cm_comlost cm_comlost_ignore cm_cfg_change_ignore
    cm_ds_change cm_start_ds cm_ds_ready cm_ds_ready_ignore cm_sm_operate cm_port_fault
    cm_deactivate mode_event port_fault_of set_port_config
held p _ s h = ground arith

abbrev pub no_ds_jobs : List Job → Bool
no_ds_jobs [] = true
no_ds_jobs (j ∷ js) = not (is_ds_job j) && no_ds_jobs js

-- While data storage is at work only its own jobs end the wait: whatever else comes, the loss of
-- the device and a client's new configuration included, the state and the configuration stay.
pub ds_param_manager_waits :
    (js : List Job) (p : Port)
    → p.cm.state ≡ State.ds_param_manager
    → no_ds_jobs js ≡ true
    → ((run js p).cm.state ≡ State.ds_param_manager) × ((run js p).cm.cfg_list ≡ p.cm.cfg_list)
unfolding run
ds_param_manager_waits [] p s h = (s, refl)
ds_param_manager_waits (j ∷ js) p s h =
    let k = held p j s (ground arith) in
    let r = ds_param_manager_waits js (callback j p) k.0 (ground arith) in (r.0, r.1 ∙ k.1)
