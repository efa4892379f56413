-- ===== src/Ds/Termination.antt =====
-- The event loop of ilink/iolink_ds.c ends.
use iol_hat.Base.{ℕ, ◌<◌, ◌≤◌, ◌≡◌, refl, false, arith}
use iol_hat.Fsm.{iteration, is_none}
use iol_hat.Fsm.Settles.{Settles, Falls, Positive, event_loop-Settles}
use iol_hat.Ds.State.{State, Event, Port}
use iol_hat.Ds.Actions.{ds_delete, ds_todo, ds_ul_fault, ds_dl_fault, ds_fault, ds_off, ds_chk_id}
use iol_hat.Ds.Actions.{ds_chk_mem_size, ds_chk_upload, ds_upload, ds_chk_validity, ds_chk_csum}
use iol_hat.Ds.Actions.{ds_write_param, ds_wait_ds_act, ds_dl_done, ds_readparam, ds_store_data}
use iol_hat.Ds.Actions.{ds_ready, ds_decompose_set, ds_init_dl, ds_reinit}
use iol_hat.Ds.Table.{iolink_ds_fsm, machine, iolink_ds_event}

-- How many rounds an event can lead to: a fault is reported and then done, a check leads to a
-- fault or to the next check.
abbrev rank : State → Event → ℕ
rank State.ds_ready Event.ready = 1
rank s Event.ready = 2
rank s Event.init = 2
rank s Event.fault_id = 2
rank s Event.fault_size = 2
rank s Event.fault_lock = 2
rank s Event.fault_ul = 2
rank s Event.fault_dl = 2
rank s Event.do_upload = 2
rank s Event.read_done = 2
rank s Event.wr_done = 2
rank s Event.download = 2
rank s Event.startup = 3
rank s Event.upload = 3
rank s Event.passed = 3
rank s Event.com_err = 3
rank s Event.dev_err = 3
rank s Event.ul_done = 3
rank s Event.no_upload = 4
rank s _ = 1

rank-Positive : Positive machine rank
rank-Positive State.ds_ready Event.ready = omega arith
rank-Positive _ Event.ready = omega arith
rank-Positive _ _ = omega arith

rank-le : (s : State) (e : Event) → rank s e ≤ 4
rank-le State.ds_ready Event.ready = omega arith
rank-le _ Event.ready = omega arith
rank-le _ _ = omega arith

falls :
    (p : Port) (s : State) (e : Event)
    → p.ds.state ≡ s
    → is_none machine (iteration machine p e).1 ≡ false
    → rank (iteration machine p e).0.ds.state (iteration machine p e).1 < rank s e
unfolding iteration iolink_ds_fsm ds_delete ds_todo ds_ul_fault ds_dl_fault ds_fault ds_off
    ds_chk_id ds_chk_mem_size ds_chk_upload ds_upload ds_chk_validity ds_chk_csum ds_write_param
    ds_wait_ds_act ds_dl_done ds_readparam ds_store_data ds_ready ds_decompose_set ds_init_dl
    ds_reinit
falls p State.ds_ready Event.ready q h = ground arith
falls p _ Event.ready q h = ground arith
falls p _ _ q h = ground arith

rank-Falls : Falls machine rank
rank-Falls p e h = falls p p.ds.state e refl h

-- From every state and with every event the do-while loop of `iolink_ds_event` ends, and the
-- four rounds that the model takes reach its end.
pub iolink_ds_event-Settles : (p : Port) (e : Event) → Settles machine p e (iolink_ds_event p e)
unfolding iolink_ds_event
iolink_ds_event-Settles p e =
    event_loop-Settles machine rank rank-Positive rank-Falls 4 p e (rank-le p.ds.state e)
