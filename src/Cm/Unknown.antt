-- ===== src/Cm/Unknown.antt =====
-- What a configuration with an unknown part makes of a port.
use iol_hat.Base.{◌≡◌, ◌≢◌, ◌≤◌, true, ◌∷◌, arith}
use iol_hat.Fsm.{iteration}
use iol_hat.Types.{PortStatusInfo}
use iol_hat.Types.SmiError
use iol_hat.Cm.State.{State, Event, SmiServiceReq, Call, Port}
use iol_hat.Cm.Actions.{cm_deactivate}
use iol_hat.Cm.Actions.{mode_event}
use iol_hat.Cm.Parameters.{do_cq}
use iol_hat.Cm.Parameters.{portmode_to_target_mode, no_parameters}
use iol_hat.Cm.Actions.{init_port_info}
use iol_hat.Cm.Table.{iolink_cm_fsm, machine}
use iol_hat.Cm.Jobs.{Job, callback}
use iol_hat.Base.{le→leb}
use iol_hat.Cm.Answers.{is_config}
use iol_hat.Cm.Config.{told_client, requested, two_rounds}

unknown_round :
    (p : Port) (req : SmiServiceReq) (e : Event)
    → e ≡ Event.unknown
    → p.cm.cfg_list.portmode ≤ do_cq
    → let q = (iteration machine (told_client e (requested req p)) e).0 in
      (q.cm.state ≡ State.port_deactivated)
      × (q.cm.cfg_list ≡ p.cm.cfg_list)
      × (q.port_info.port_status_info ≡ PortStatusInfo.deactivated)
      × (q.out
          ≡ Call.sm_set_port_config_req
              (record no_parameters { mode = portmode_to_target_mode p.cm.cfg_list.portmode })
            ∷ Call.ds_delete
            ∷ Call.smi_joberror_ind req.exp_arg_block_id req.id SmiError.argblock_inconsistent
            ∷ Call.od_stop
            ∷ Call.pd_stop
            ∷ p.out)
unfolding iteration iolink_cm_fsm cm_deactivate init_port_info portmode_to_target_mode
unknown_round p req Event.unknown h v = ground (arith, le→leb p.cm.cfg_list.portmode do_cq v)
unknown_round p req _ h v = absurd (ground arith)

-- A configuration with an unknown mode, validation or behaviour, that comes while data storage is
-- not at work and the configuration in force has a known mode, is refused by one error: the port is
-- deactivated and its stored data set deleted, the configuration in force stays, and system
-- management is told the mode of that one, with all other parameters 0.
pub portconfiguration_unknown :
    (p : Port) (req : SmiServiceReq)
    → p.cm.state ≢ State.ds_param_manager
    → is_config req ≡ true
    → mode_event req.configlist ≡ Event.unknown
    → p.cm.cfg_list.portmode ≤ do_cq
    → let q = callback (Job.smi_portconfiguration req) p in
      (q.cm.state ≡ State.port_deactivated)
      × (q.cm.cfg_list ≡ p.cm.cfg_list)
      × (q.port_info.port_status_info ≡ PortStatusInfo.deactivated)
      × (q.out
          ≡ Call.sm_set_port_config_req
              (record no_parameters { mode = portmode_to_target_mode p.cm.cfg_list.portmode })
            ∷ Call.ds_delete
            ∷ Call.smi_joberror_ind req.exp_arg_block_id req.id SmiError.argblock_inconsistent
            ∷ Call.od_stop
            ∷ Call.pd_stop
            ∷ p.out)
portconfiguration_unknown p req n c u v =
    rw (two_rounds p req n c) (unknown_round p req (mode_event req.configlist) u v)
