-- ===== src/Cm/Termination.antt =====
-- The event loop of ilink/iolink_cm.c ends.
use iol_hat.Base.{ℕ, ◌<◌, ◌≤◌, ◌≡◌, refl, false, arith}
use iol_hat.Fsm.{iteration, is_none}
use iol_hat.Fsm.Settles.{Settles, Falls, Positive, event_loop-Settles}
use iol_hat.Cm.State.{State, Event, Port}
use iol_hat.Cm.Actions.{cm_startup, cm_dido, cm_check_mode, cm_comlost, cm_comlost_ignore}
use iol_hat.Cm.Actions.{cm_cfg_change_ignore, cm_ds_change, cm_start_ds, cm_ds_ready}
use iol_hat.Cm.Actions.{cm_ds_ready_ignore, cm_sm_operate, cm_port_fault, cm_deactivate}
use iol_hat.Cm.Actions.{mode_event, port_fault_of}
use iol_hat.Cm.Table.{iolink_cm_fsm, machine, iolink_cm_event}

-- A configuration may be followed by the event of its mode, and a fault of data storage by the loss
-- of communication; nothing follows these.
abbrev rank : State → Event → ℕ
rank s Event.cfg_change = 2
rank s Event.ds_fault = 2
rank s _ = 1

rank-Positive : Positive machine rank
rank-Positive s Event.cfg_change = omega arith
rank-Positive s Event.ds_fault = omega arith
rank-Positive s _ = omega arith

rank-le : (s : State) (e : Event) → rank s e ≤ 2
rank-le s Event.cfg_change = omega arith
rank-le s Event.ds_fault = omega arith
rank-le s _ = omega arith

falls :
    (p : Port) (s : State) (e : Event)
    → p.cm.state ≡ s
    → is_none machine (iteration machine p e).1 ≡ false
    → rank (iteration machine p e).0.cm.state (iteration machine p e).1 < rank s e
unfolding iteration iolink_cm_fsm cm_startup cm_dido cm_check_mode cm_comlost cm_comlost_ignore
    cm_cfg_change_ignore cm_ds_change cm_start_ds cm_ds_ready cm_ds_ready_ignore cm_sm_operate
    cm_port_fault cm_deactivate mode_event port_fault_of
falls p _ _ q h = ground arith

rank-Falls : Falls machine rank
rank-Falls p e h = falls p p.cm.state e refl h

-- From every state and with every event the do-while loop of `iolink_cm_event` ends, and the two
-- rounds that the model takes reach its end.
pub iolink_cm_event-Settles : (p : Port) (e : Event) → Settles machine p e (iolink_cm_event p e)
unfolding iolink_cm_event
iolink_cm_event-Settles p e =
    event_loop-Settles machine rank rank-Positive rank-Falls 2 p e (rank-le p.cm.state e)
