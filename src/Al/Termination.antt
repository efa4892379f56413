-- ===== src/Al/Termination.antt =====
-- The event loops of ilink/iolink_al.c end.
use iol_hat.Base.{ℕ, ◌<◌, ◌≤◌, ◌≡◌, refl, false, arith}
use iol_hat.Fsm.{iteration, is_none}
use iol_hat.Fsm.Settles.{Settles, Falls, Positive, event_loop-Settles}
use iol_hat.Al.State.{OdState, OdEvent, EventState, EventEvent, JobReq, Port}
use iol_hat.Al.Od.{al_od_busy, build, al_od_build_dl_service, al_od_send_al_cnf}
use iol_hat.Al.Od.{al_od_send_abort_al_cnf, al_od_isdu_read, al_od_isdu_write, al_od_param_read}
use iol_hat.Al.Od.{al_od_isdu_read_write, al_od_param_write, al_od_param_next_rw}
use iol_hat.Al.Od.{iolink_al_od_fsm, od_machine, iolink_al_od_event}
use iol_hat.Al.EventSet.{al_event_wait_read, al_event_du_handle, al_event_idle}
use iol_hat.Al.EventSet.{iolink_al_event_fsm, event_machine, iolink_al_event_event}

-- A service that is asked for may be followed by the event of its kind, and nothing follows that.
abbrev od_rank : OdState → OdEvent → ℕ
od_rank s OdEvent.service = 2
od_rank s _ = 1

od_rank-Positive : Positive od_machine od_rank
od_rank-Positive s OdEvent.service = omega arith
od_rank-Positive s _ = omega arith

od_rank-le : (s : OdState) (e : OdEvent) → od_rank s e ≤ 2
od_rank-le s OdEvent.service = omega arith
od_rank-le s _ = omega arith

od_falls :
    (p : Port) (s : OdState) (e : OdEvent) (r : JobReq)
    → p.al.od_state ≡ s
    → p.al.service.job_req ≡ r
    → is_none od_machine (iteration od_machine p e).1 ≡ false
    → od_rank (iteration od_machine p e).0.al.od_state (iteration od_machine p e).1 < od_rank s e
unfolding iteration iolink_al_od_fsm al_od_busy build al_od_build_dl_service al_od_send_al_cnf
    al_od_send_abort_al_cnf al_od_isdu_read al_od_isdu_write al_od_param_read al_od_isdu_read_write
    al_od_param_write al_od_param_next_rw
od_falls p _ _ _ q r h = ground arith

od_rank-Falls : Falls od_machine od_rank
od_rank-Falls p e h = od_falls p p.al.od_state e p.al.service.job_req refl refl h

-- From every state and with every event the do-while loop of `iolink_al_od_event` ends, and the two
-- rounds that the model takes reach its end.
pub iolink_al_od_event-Settles :
    (p : Port) (e : OdEvent) → Settles od_machine p e (iolink_al_od_event p e)
unfolding iolink_al_od_event
iolink_al_od_event-Settles p e =
    event_loop-Settles od_machine od_rank od_rank-Positive od_rank-Falls 2 p e
      (od_rank-le p.al.od_state e)

abbrev event_rank : EventState → EventEvent → ℕ
event_rank s e = 1

event_rank-Positive : Positive event_machine event_rank
event_rank-Positive s e = omega arith

event_falls :
    (p : Port) (s : EventState) (e : EventEvent)
    → p.al.event_state ≡ s
    → is_none event_machine (iteration event_machine p e).1 ≡ false
    → event_rank (iteration event_machine p e).0.al.event_state (iteration event_machine p e).1
      < event_rank s e
unfolding iteration iolink_al_event_fsm al_event_wait_read al_event_du_handle al_event_idle
event_falls p _ _ q h = ground arith

event_rank-Falls : Falls event_machine event_rank
event_rank-Falls p e h = event_falls p p.al.event_state e refl h

-- The do-while loop of `iolink_al_event_event` ends after one round, whatever the event.
pub iolink_al_event_event-Settles :
    (p : Port) (e : EventEvent) → Settles event_machine p e (iolink_al_event_event p e)
unfolding iolink_al_event_event
iolink_al_event_event-Settles p e =
    event_loop-Settles event_machine event_rank event_rank-Positive event_rank-Falls 1 p e
      (omega arith)
