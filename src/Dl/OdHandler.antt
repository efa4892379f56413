-- ===== src/Dl/OdHandler.antt =====
-- The handler of on-request data of ilink/iolink_dl.c, which passes the triggers of the message
-- handler on to the handlers of commands, events and ISDUs, and the commands of the mode handler.
use iol_hat.Base.{Bool, true, false, ◌&&◌, if◌then◌else◌}
use iol_hat.Types.Dl.{Status, Controlcode}
use iol_hat.Dl.State.{Port, OdState, CommandState, Trigger, ChCmd, OhCmd, IhCmd, EhCmd}
use iol_hat.Dl.State.{set_od, set_command, set_isdu, set_event}
use iol_hat.Dl.Command.{iolink_dl_cmd_h_sm, write_master_command}
use iol_hat.Dl.Events.{iolink_dl_ev_h_sm}
use iol_hat.Dl.IsduHandler.{iolink_dl_isdu_h_sm}

abbrev pub set_state : OdState → Port → Port
set_state s p = set_od (record p.od_handler { state = s }) p

abbrev pub trigger : Trigger → Port → Port
trigger t p = set_od (record p.od_handler { trigger = t }) p

abbrev pub has_command : Controlcode → Bool
has_command Controlcode.none = false
has_command _ = true

abbrev pub is_master : Trigger → Bool
is_master Trigger.master_message = true
is_master _ = false

abbrev pub is_triggered : Trigger → Bool
is_triggered Trigger.none = false
is_triggered _ = true

-- A command is due.
abbrev pub commanded : Port → Bool
commanded p = has_command p.cmd_handler.control_code && is_master p.od_handler.trigger

unfoldable pub od_inactive0 : Port → Port
od_inactive0 p = elim p.od_handler.ohcmd [
  | OhCmd.active ↦ set_state OdState.isdu p
  | OhCmd.inactive ↦ p
]

unfoldable pub od_isdu1 : Port → Port
unfolding iolink_dl_cmd_h_sm iolink_dl_isdu_h_sm
od_isdu1 p = elim p.od_handler.ohcmd [
  | OhCmd.inactive ↦ set_state OdState.inactive p
  | OhCmd.active ↦
      if commanded p
      then set_state OdState.command (iolink_dl_cmd_h_sm p)
      else (if p.event_handler.event_flag
          then set_state OdState.event (iolink_dl_isdu_h_sm p)
          else (if is_triggered p.od_handler.trigger
              then trigger Trigger.none (iolink_dl_isdu_h_sm p)
              else p))
]

-- The inactive command sets the state of the command handler.
unfoldable pub od_command2 : Port → Port
unfolding write_master_command
od_command2 p = elim p.od_handler.ohcmd [
  | OhCmd.inactive ↦ set_command (record p.cmd_handler { state = CommandState.inactive }) p
  | OhCmd.active ↦
      if is_triggered p.od_handler.trigger
      then (let q = trigger Trigger.none p in
          let r = write_master_command Status.no_error q in
          if has_command q.cmd_handler.control_code
          then q
          else set_state (if r.event_handler.event_flag then OdState.event else OdState.isdu) r)
      else p
]

unfoldable pub od_event3 : Port → Port
unfolding iolink_dl_cmd_h_sm iolink_dl_ev_h_sm
od_event3 p = elim p.od_handler.ohcmd [
  | OhCmd.inactive ↦ set_state OdState.inactive p
  | OhCmd.active ↦
      if commanded p
      then set_state OdState.command (iolink_dl_cmd_h_sm p)
      else (if p.event_handler.event_flag
          then (if is_triggered p.od_handler.trigger
              then trigger Trigger.none (iolink_dl_ev_h_sm p)
              else p)
          else set_state OdState.isdu p)
]

unfoldable pub od_by_state : OdState → Port → Port
unfolding od_inactive0 od_isdu1 od_command2 od_event3
od_by_state OdState.inactive p = od_inactive0 p
od_by_state OdState.isdu p = od_isdu1 p
od_by_state OdState.command p = od_command2 p
od_by_state OdState.event p = od_event3 p

unfoldable pub iolink_dl_od_h_sm : Port → Port
unfolding od_by_state
iolink_dl_od_h_sm p = od_by_state p.od_handler.state p

unfoldable pub ch_conf : ChCmd → Port → Port
unfolding iolink_dl_cmd_h_sm
ch_conf cmd p = iolink_dl_cmd_h_sm (set_command (record p.cmd_handler { chcmd = cmd }) p)

unfoldable pub oh_conf : OhCmd → Port → Port
unfolding iolink_dl_od_h_sm
oh_conf cmd p = iolink_dl_od_h_sm (set_od (record p.od_handler { ohcmd = cmd }) p)

unfoldable pub ih_conf : IhCmd → Port → Port
unfolding iolink_dl_isdu_h_sm
ih_conf cmd p = iolink_dl_isdu_h_sm (set_isdu (record p.isdu_handler { ihcmd = cmd }) p)

unfoldable pub eh_conf : EhCmd → Port → Port
unfolding iolink_dl_ev_h_sm
eh_conf cmd p = iolink_dl_ev_h_sm (set_event (record p.event_handler { ehcmd = cmd }) p)

unfoldable pub set_oh_ih_eh_conf_active : Bool → Port → Port
unfolding oh_conf ih_conf eh_conf
set_oh_ih_eh_conf_active true p =
    eh_conf EhCmd.active (ih_conf IhCmd.active (oh_conf OhCmd.active p))
set_oh_ih_eh_conf_active false p =
    eh_conf EhCmd.inactive (ih_conf IhCmd.inactive (oh_conf OhCmd.inactive p))
