-- ===== src/Cm/Config.antt =====
-- What a client's configuration makes of a port.
use iol_hat.Base.{ℕ, ◌≡◌, ◌≢◌, ◌≤◌, ◌∙◌, ap, refl, true, false, Bool, List, [], ◌∷◌, arith}
use iol_hat.Base.{◌||◌, ◌&&◌, ◌==◌, if◌then◌else◌}
use iol_hat.Fsm.Rounds.{event_loop_two}
use iol_hat.Fsm.{is_none, iteration}
use iol_hat.Types.{PortStatusInfo}
use iol_hat.Types.ArgBlock
use iol_hat.Types.SmiError
use iol_hat.Types.Port.{PortConfigList, SmTargetMode}
use iol_hat.Cm.State.{State, Event, SmiServiceReq, Block, Call, Port, emit}
use iol_hat.Cm.Actions.{cm_startup, cm_dido, cm_check_mode}
use iol_hat.Cm.Actions.{cm_deactivate}
use iol_hat.Cm.Actions.{mode_event}
use iol_hat.Cm.Parameters.{set_port_config, power2, v11_restore, do_cq}
use iol_hat.Cm.Parameters.{portmode_to_target_mode, portconfiglist_to_parameterlist, no_parameters}
use iol_hat.Cm.Actions.{confirm_cfg, init_port_info}
use iol_hat.Cm.Parameters.{deactive, di_cq, iol_auto, iol_man}
use iol_hat.Cm.Table.{iolink_cm_fsm, machine, iolink_cm_event}
use iol_hat.Cm.Jobs.{Job, callback, run, check_arg_block}
use iol_hat.Cm.Jobs.{cm_smi_portconfiguration_cb}
use iol_hat.Cm.Jobs.{cm_smi_readbackportconfiguration_cb}
use iol_hat.Base.{Option, some, none}
use iol_hat.Types.Port.{ParameterList}
use iol_hat.Cm.Answers.{is_config}

-- A configuration whose three enumerations are known.
pub record IsValid (cfg : PortConfigList) : Type 0 where
  pub portmode : cfg.portmode ≤ do_cq
  pub validation : cfg.validation_backup ≤ v11_restore
  pub iq : cfg.iq_behavior ≤ power2

abbrev pub latest : List Call → Option Call
latest [] = none
latest (c ∷ cs) = some c

-- The state that a mode ends in.
abbrev pub state_of : ℕ → State
state_of m =
    if m == deactive
    then State.port_deactivated
    else (if m == di_cq || m == do_cq then State.port_dido else State.sm_startup)

-- The status that a mode gives at once, from the one before.
abbrev pub status_of : ℕ → PortStatusInfo → PortStatusInfo
status_of m old =
    if m == deactive
    then PortStatusInfo.deactivated
    else (if m == di_cq
        then PortStatusInfo.di
        else (if m == do_cq then PortStatusInfo.do_ else old))

-- What system management is told.
abbrev pub parameters_of : PortConfigList → ParameterList
parameters_of cfg =
    if cfg.portmode == deactive
    then record no_parameters { mode = SmTargetMode.inactive }
    else portconfiglist_to_parameterlist cfg

pub record IsInForce (p q : Port) (cfg : PortConfigList) : Type 0 where
  pub state : q.cm.state ≡ state_of cfg.portmode
  pub cfg_list : q.cm.cfg_list ≡ cfg
  pub status : q.port_info.port_status_info ≡ status_of cfg.portmode p.port_info.port_status_info
  pub told : latest q.out ≡ some (Call.sm_set_port_config_req (parameters_of cfg))

-- The port when `cm_check_mode` has told the client of the event.
abbrev pub told_client : Event → Port → Port
told_client e p = confirm_cfg e (
    emit Call.od_stop
      (emit Call.pd_stop (record p { cm = record p.cm { state = State.check_port_mode } })))

looked_up :
    (p : Port) (s : State)
    → p.cm.state ≡ s
    → s ≢ State.ds_param_manager
    → let e = mode_event p.cm.smi_req.configlist in
      iteration machine p Event.cfg_change ≡ (told_client e p, e)
unfolding iteration iolink_cm_fsm cm_check_mode
looked_up p State.ds_param_manager q n = absurd (n refl)
looked_up p _ q n = ground arith

is_some_event : (cfg : PortConfigList) → is_none machine (mode_event cfg) ≡ false
unfolding mode_event
is_some_event cfg = ground arith

abbrev pub requested : SmiServiceReq → Port → Port
requested req p = record p {
  cm = record p.cm { smi_req = record req { result = SmiError.no_error } };
}

taken_up :
    (p : Port) (req : SmiServiceReq)
    → is_config req ≡ true
    → callback (Job.smi_portconfiguration req) p
      ≡ iolink_cm_event (requested req p) Event.cfg_change
unfolding callback cm_smi_portconfiguration_cb check_arg_block
taken_up p req c = ground arith

-- A configuration takes two rounds: the look at its mode, and the transition of the mode's event.
pub two_rounds :
    (p : Port) (req : SmiServiceReq)
    → p.cm.state ≢ State.ds_param_manager
    → is_config req ≡ true
    → let e = mode_event req.configlist in
      callback (Job.smi_portconfiguration req) p
      ≡ (iteration machine (told_client e (requested req p)) e).0
unfolding iolink_cm_event
two_rounds p req n c =
    let q = requested req p in
    let first = looked_up q p.cm.state refl n in
    taken_up p req c
    ∙ event_loop_two machine q Event.cfg_change
        (ap (λ r. is_none machine r.1) first ∙ is_some_event req.configlist)
    ∙ ap (λ r. (iteration machine r.0 r.1).0) first

abbrev mode_of : Event → ℕ
mode_of Event.di_cq = di_cq
mode_of Event.do_cq = do_cq
mode_of Event.iol_autostart = iol_auto
mode_of Event.iol_manual = iol_man
mode_of _ = deactive

-- A valid configuration has the event of its mode.
mode_event-valid :
    (cfg : PortConfigList)
    → IsValid cfg
    → (mode_of (mode_event cfg) ≡ cfg.portmode) × (mode_event cfg ≢ Event.unknown)
unfolding mode_event
mode_event-valid cfg v = (
  ground (arith, v.portmode, v.validation, v.iq),
  λ h. absurd (ground (arith, v.portmode, v.validation, v.iq)),
)

second_round :
    (p : Port) (req : SmiServiceReq) (e : Event)
    → mode_event req.configlist ≡ e
    → IsValid req.configlist
    → IsInForce p (iteration machine (told_client e (requested req p)) e).0 req.configlist
unfolding iteration iolink_cm_fsm cm_startup cm_dido cm_deactivate set_port_config init_port_info
    portmode_to_target_mode mode_event
second_round p req Event.di_cq h v = ground (arith, v.portmode, v.validation, v.iq)
second_round p req _ h v = ground (arith, v.portmode, v.validation, v.iq)

-- A valid configuration that comes while data storage is not at work is in force at once: the port
-- is in the state and has the status of its mode, keeps the configuration, and has last told system
-- management the parameters that belong to it.
pub portconfiguration-IsInForce :
    (p : Port) (req : SmiServiceReq)
    → p.cm.state ≢ State.ds_param_manager
    → is_config req ≡ true
    → IsValid req.configlist
    → IsInForce p (callback (Job.smi_portconfiguration req) p) req.configlist
portconfiguration-IsInForce p req n c v =
    rw (two_rounds p req n c) (second_round p req (mode_event req.configlist) refl v)

-- A request that reads the configuration back.
abbrev pub is_readback : SmiServiceReq → Bool
is_readback req =
    req.id == ArgBlock.void_block
    && req.arg_block_len == ArgBlock.sizeof_void
    && req.exp_arg_block_id == ArgBlock.port_cfg_list

read_back :
    (p : Port) (req : SmiServiceReq)
    → is_readback req ≡ true
    → latest (callback (Job.smi_readbackportconfiguration req) p).out
      ≡ some (
          Call.smi_cnf ArgBlock.void_block ArgBlock.sizeof_portconfiglist
            (Block.port_cfg_list p.cm.cfg_list))
unfolding callback cm_smi_readbackportconfiguration_cb check_arg_block
read_back p req r = ground arith

-- A configuration that was taken is what the client reads back.
pub portconfiguration_readback :
    (p : Port) (req req' : SmiServiceReq)
    → p.cm.state ≢ State.ds_param_manager
    → is_config req ≡ true
    → IsValid req.configlist
    → is_readback req' ≡ true
    → let jobs = Job.smi_portconfiguration req ∷ Job.smi_readbackportconfiguration req' ∷ [] in
      latest (run jobs p).out
      ≡ some (
          Call.smi_cnf ArgBlock.void_block ArgBlock.sizeof_portconfiglist
            (Block.port_cfg_list req.configlist))
unfolding run
portconfiguration_readback p req req' n c v r =
    let f = portconfiguration-IsInForce p req n c v in
    read_back (callback (Job.smi_portconfiguration req) p) req' r
    ∙ ap
        (λ cfg. some (
          Call.smi_cnf ArgBlock.void_block ArgBlock.sizeof_portconfiglist
            (Block.port_cfg_list cfg)))
        f.cfg_list
