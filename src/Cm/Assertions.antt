-- ===== src/Cm/Assertions.antt =====
-- The configuration in force is always one whose mode and validation are known, so that the
-- assertions on them hold.
use iol_hat.Base.{ℕ, suc, ◌≡◌, ◌∙◌, refl, true, List, [], ◌∷◌, arith}
use iol_hat.Base.{leb}
use iol_hat.Fsm.Invariant.{event_loop_inv}
use iol_hat.Cm.Actions.{confirm_cfg}
use iol_hat.Fsm.{iteration}
use iol_hat.Types.SmiError
use iol_hat.Types.Port.{SmPortmode}
use iol_hat.Cm.State.{State, Event, SmiServiceReq, Call, Port, emit}
use iol_hat.Cm.Actions.{cm_startup, cm_dido, cm_check_mode, cm_comlost, cm_comlost_ignore}
use iol_hat.Cm.Actions.{cm_cfg_change_ignore, cm_ds_change, cm_start_ds, cm_ds_ready}
use iol_hat.Cm.Actions.{cm_ds_ready_ignore, cm_sm_operate, cm_port_fault, cm_deactivate}
use iol_hat.Cm.Actions.{mode_event, port_fault_of}
use iol_hat.Cm.Parameters.{set_port_config, v11_restore, do_cq}
use iol_hat.Cm.Actions.{init_port_info}
use iol_hat.Cm.Table.{iolink_cm_fsm, machine, iolink_cm_event}
use iol_hat.Cm.Jobs.{Job, callback, run, check_arg_block, went_inactive}
use iol_hat.Cm.Jobs.{cm_smi_portconfiguration_cb, cm_smi_masterident_cb, cm_smi_portstatus_cb}
use iol_hat.Cm.Jobs.{cm_smi_readbackportconfiguration_cb, cm_sm_port_mode_ind_cb, cm_ds_ready_cb}
use iol_hat.Cm.Jobs.{cm_ds_change_cb, cm_ds_fault_cb}

-- The failed assertions among calls.
abbrev pub assertions : List Call → ℕ
assertions [] = 0
assertions (Call.assert_failed ∷ cs) = suc (assertions cs)
assertions (_ ∷ cs) = assertions cs

pub record IsConfigured (p : Port) : Type 0 where
  pub portmode : leb p.cm.cfg_list.portmode do_cq ≡ true
  pub validation : leb p.cm.cfg_list.validation_backup v11_restore ≡ true

abbrev IsCalm : ℕ → Port → Type 0
IsCalm n p = IsConfigured p × (assertions p.out ≡ n)

taken-IsConfigured :
    (p : Port) → IsConfigured p → IsConfigured (confirm_cfg (mode_event p.cm.smi_req.configlist) p)
unfolding mode_event
taken-IsConfigured p c = ground arith

confirmed-assertions : (e : Event) (p : Port) → assertions (confirm_cfg e p).out ≡ assertions p.out
confirmed-assertions Event.unknown p = refl
confirmed-assertions _ p = refl

iteration-IsCalm :
    (n : ℕ) (p : Port) (s : State) (e : Event)
    → p.cm.state ≡ s
    → IsCalm n p
    → IsCalm n (iteration machine p e).0
unfolding iteration iolink_cm_fsm cm_startup cm_dido cm_check_mode cm_comlost cm_comlost_ignore
    cm_cfg_change_ignore cm_ds_change cm_start_ds cm_ds_ready cm_ds_ready_ignore cm_sm_operate
    cm_port_fault cm_deactivate port_fault_of set_port_config init_port_info
iteration-IsCalm n p State.ds_param_manager Event.cfg_change q c = ground arith
iteration-IsCalm n p s Event.cfg_change q c =
    let r =
      emit Call.od_stop
        (emit Call.pd_stop (record p { cm = record p.cm { state = State.check_port_mode } })) in
    let t =
      taken-IsConfigured r (record { portmode = c.0.portmode; validation = c.0.validation }) in
    rw q (t, confirmed-assertions (mode_event p.cm.smi_req.configlist) r ∙ c.1)
iteration-IsCalm n p _ _ q c = ground arith

event-IsCalm : (n : ℕ) (p : Port) (e : Event) → IsCalm n p → IsCalm n (iolink_cm_event p e)
unfolding iolink_cm_event
event-IsCalm n p e c =
    event_loop_inv machine (λ p e. IsCalm n p) (λ p. IsCalm n p)
      (λ p e c. iteration-IsCalm n p p.cm.state e refl c) (λ p e c. c) 2 p e c

portconfiguration-IsCalm :
    (n : ℕ) (p : Port) (req : SmiServiceReq)
    → IsCalm n p
    → IsCalm n (cm_smi_portconfiguration_cb req p)
unfolding cm_smi_portconfiguration_cb check_arg_block
portconfiguration-IsCalm n p req c =
    let req' = record req { result = SmiError.no_error } in
    ground (
      arith,
      event-IsCalm n (record p { cm = record p.cm { smi_req = req' } }) Event.cfg_change
          (record { portmode = c.0.portmode; validation = c.0.validation }, c.1),
    )

callback-IsCalm : (n : ℕ) (p : Port) (j : Job) → IsCalm n p → IsCalm n (callback j p)
unfolding callback cm_sm_port_mode_ind_cb cm_ds_ready_cb cm_ds_change_cb cm_ds_fault_cb
    cm_smi_masterident_cb cm_smi_readbackportconfiguration_cb cm_smi_portstatus_cb check_arg_block
    went_inactive
callback-IsCalm n p (Job.sm_port_mode_ind SmPortmode.inactive) c = ground arith
callback-IsCalm n p (Job.sm_port_mode_ind SmPortmode.di) c = c
callback-IsCalm n p (Job.sm_port_mode_ind SmPortmode.do_) c = c
callback-IsCalm n p (Job.sm_port_mode_ind SmPortmode.comready) c = event-IsCalm n p _ c
callback-IsCalm n p (Job.sm_port_mode_ind SmPortmode.operate) c = event-IsCalm n p _ c
callback-IsCalm n p (Job.sm_port_mode_ind SmPortmode.comlost) c = event-IsCalm n p _ c
callback-IsCalm n p (Job.sm_port_mode_ind _) c = event-IsCalm n p _ c
callback-IsCalm n p Job.ds_ready c = event-IsCalm n p Event.ds_ready c
callback-IsCalm n p Job.ds_change c = event-IsCalm n p Event.ds_change c
callback-IsCalm n p (Job.ds_fault fault) c =
    event-IsCalm n (record p { cm = record p.cm { ds_fault = fault } }) Event.ds_fault
      (record { portmode = c.0.portmode; validation = c.0.validation }, c.1)
callback-IsCalm n p (Job.smi_portconfiguration req) c = portconfiguration-IsCalm n p req c
callback-IsCalm n p _ c = ground arith

-- No assertion of the layer fails, whatever jobs are worked off, when the first configuration in
-- force has a known mode and a known validation; and so has the last one.
pub run-IsConfigured :
    (js : List Job) (p : Port)
    → IsConfigured p
    → IsConfigured (run js p) × (assertions (run js p).out ≡ assertions p.out)
unfolding run
run-IsConfigured [] p c = (c, refl)
run-IsConfigured (j ∷ js) p c =
    let k = callback-IsCalm (assertions p.out) p j (c, refl) in
    let r = run-IsConfigured js (callback j p) k.0 in (r.0, r.1 ∙ k.1)
