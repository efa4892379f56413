-- ===== src/Sm/Termination.antt =====
-- The event loop of ilink/iolink_sm.c ends.
use iol_hat.Base.{ℕ, ◌<◌, ◌≡◌, refl, false, arith}
use iol_hat.Fsm.{iteration, is_none}
use iol_hat.Fsm.Settles.{Settles, Falls, Positive, event_loop-Settles}
use iol_hat.Sm.State.{State, Event, Port}
use iol_hat.Sm.Actions.{sm_readcomparameter, sm_portinactive, sm_dido, sm_smoperate_ignore}
use iol_hat.Sm.Actions.{sm_comlost_ignore, sm_check_ser_num, sm_comlost, sm_wait}
use iol_hat.Sm.Actions.{sm_inspect_fault, sm_fallback, sm_smoperate_ind, sm_wr_master_cycl}
use iol_hat.Sm.Actions.{sm_check_vxy, sm_check_comp_v10_21, sm_waiton_dl_op, sm_check_comp}
use iol_hat.Sm.Actions.{sm_restart_device, sm_write_mcmd_preop, sm_write_devmode}
use iol_hat.Sm.Table.{iolink_sm_fsm, machine, iolink_sm_event}

-- No event leads to another one.
abbrev rank : State → Event → ℕ
rank s e = 1

rank-Positive : Positive machine rank
rank-Positive s e = omega arith

falls :
    (p : Port) (s : State) (e : Event)
    → p.sm.state ≡ s
    → is_none machine (iteration machine p e).1 ≡ false
    → rank (iteration machine p e).0.sm.state (iteration machine p e).1 < rank s e
unfolding iteration iolink_sm_fsm sm_readcomparameter sm_portinactive sm_dido sm_smoperate_ignore
    sm_comlost_ignore sm_check_ser_num sm_comlost sm_wait sm_inspect_fault sm_fallback
    sm_smoperate_ind sm_wr_master_cycl sm_check_vxy sm_check_comp_v10_21 sm_waiton_dl_op
    sm_check_comp sm_restart_device sm_write_mcmd_preop sm_write_devmode
falls p _ _ q h = ground arith

rank-Falls : Falls machine rank
rank-Falls p e h = falls p p.sm.state e refl h

-- From every state and with every event the do-while loop of `iolink_sm_event` ends after one
-- round.
pub iolink_sm_event-Settles : (p : Port) (e : Event) → Settles machine p e (iolink_sm_event p e)
unfolding iolink_sm_event
iolink_sm_event-Settles p e =
    event_loop-Settles machine rank rank-Positive rank-Falls 1 p e (omega arith)
