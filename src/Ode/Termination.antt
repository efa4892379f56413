-- ===== src/Ode/Termination.antt =====
-- The event loop of ilink/iolink_ode.c ends.
use iol_hat.Base.{ℕ, ◌<◌, ◌≤◌, ◌≡◌, refl, false, arith}
use iol_hat.Fsm.{iteration, is_none}
use iol_hat.Fsm.Settles.{Settles, Falls, Positive, event_loop-Settles}
use iol_hat.Ode.State.{State, Event, Port}
use iol_hat.Ode.Actions.{ode_smi_od_err, ode_od_start, ode_od_stop, ode_smi_rw, ode_smi_done}
use iol_hat.Ode.Actions.{ode_wait}
use iol_hat.Ode.Table.{iolink_ode_fsm, machine, iolink_ode_event}

-- A request may be followed by the event that blocks the port; nothing follows that.
abbrev rank : State → Event → ℕ
rank s Event.smi_dev_rw_4 = 2
rank s _ = 1

rank-Positive : Positive machine rank
rank-Positive s Event.smi_dev_rw_4 = omega arith
rank-Positive s _ = omega arith

rank-le : (s : State) (e : Event) → rank s e ≤ 2
rank-le s Event.smi_dev_rw_4 = omega arith
rank-le s _ = omega arith

falls :
    (p : Port) (s : State) (e : Event)
    → p.ode.state ≡ s
    → is_none machine (iteration machine p e).1 ≡ false
    → rank (iteration machine p e).0.ode.state (iteration machine p e).1 < rank s e
unfolding iteration iolink_ode_fsm ode_smi_od_err ode_od_start ode_od_stop ode_smi_rw ode_smi_done
    ode_wait
falls p State.inactive Event.none q h = ground arith
falls p State.od_active Event.none q h = ground arith
falls p _ _ q h = ground arith

rank-Falls : Falls machine rank
rank-Falls p e h = falls p p.ode.state e refl h

-- From every state and with every event the do-while loop of `iolink_ode_event` ends, and the
-- two rounds that the model takes reach its end.
pub iolink_ode_event-Settles : (p : Port) (e : Event) → Settles machine p e (iolink_ode_event p e)
unfolding iolink_ode_event
iolink_ode_event-Settles p e =
    event_loop-Settles machine rank rank-Positive rank-Falls 2 p e (rank-le p.ode.state e)
