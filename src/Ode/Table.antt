-- ===== src/Ode/Table.antt =====
-- The transition tables and the event loop.
use iol_hat.Base.{List, [], ◌∷◌}
use iol_hat.Fsm.{Transition, Machine, event_loop}
use iol_hat.Ode.State.{State, Event, value, Port}
use iol_hat.Ode.Actions.{ode_smi_od_err, ode_od_start, ode_od_stop, ode_smi_rw, ode_smi_done}
use iol_hat.Ode.Actions.{ode_wait}

abbrev OdeTransition : Type 0
OdeTransition = Transition State Event Port

abbrev row : Event → State → (Port → Event → Port × Event) → OdeTransition
row e s a = record { event = e; next_state = s; action = a }

abbrev ode_trans_s0 : List OdeTransition
ode_trans_s0 =
    row Event.od_start State.od_active ode_od_start
    ∷ row Event.smi_dev_rw_1 State.inactive ode_smi_od_err
    ∷ row Event.od_stop State.inactive ode_od_stop
    ∷ []

abbrev ode_trans_s1 : List OdeTransition
ode_trans_s1 =
    row Event.smi_dev_rw_4 State.od_active ode_smi_rw
    ∷ row Event.od_block State.od_blocked ode_wait
    ∷ row Event.od_stop State.inactive ode_od_stop
    ∷ []

abbrev ode_trans_s2 : List OdeTransition
ode_trans_s2 =
    row Event.od_unblock State.od_active ode_smi_done
    ∷ row Event.smi_dev_rw_6 State.od_blocked ode_smi_od_err
    ∷ row Event.od_stop State.inactive ode_od_stop
    ∷ []

unfoldable pub iolink_ode_fsm : State → List OdeTransition
iolink_ode_fsm State.inactive = ode_trans_s0
iolink_ode_fsm State.od_active = ode_trans_s1
iolink_ode_fsm State.od_blocked = ode_trans_s2

abbrev pub machine : Machine State Event Port
machine = record {
  fsm = iolink_ode_fsm;
  state = λ p. p.ode.state;
  set_state = λ s p. record p { ode = record p.ode { state = s } };
  value = value;
  no_event = Event.none;
}

-- Two rounds are enough: `Termination.iolink_ode_event-Settles`.
unfoldable pub iolink_ode_event : Port → Event → Port
iolink_ode_event = event_loop machine 2
