-- ===== src/Ds/Assertions.antt =====
-- The assertion that stands for the transitions not written yet never fails.
use iol_hat.Base.{◌∙◌, ℕ, suc, ◌≡◌, refl, Bool, true, false, List, [], ◌∷◌, arith}
use iol_hat.Types.{SmiErrortype}
use iol_hat.Fsm.{iteration}
use iol_hat.Fsm.Invariant.{event_loop_inv}
use iol_hat.Ds.State.{State, Event, Call, Port, emit}
use iol_hat.Ds.Actions.{ds_delete, ds_todo, ds_ul_fault, ds_dl_fault, ds_fault, ds_off, ds_chk_id}
use iol_hat.Ds.Actions.{ds_chk_mem_size, ds_chk_upload, ds_upload, ds_chk_validity, ds_chk_csum}
use iol_hat.Ds.Actions.{ds_write_param, ds_wait_ds_act, ds_dl_done, ds_readparam, ds_store_data}
use iol_hat.Ds.Actions.{ds_ready, ds_decompose_set, ds_init_dl, ds_reinit}
use iol_hat.Ds.Table.{iolink_ds_fsm, machine, iolink_ds_event}
use iol_hat.Ds.Jobs.{Job, callback, run}
use iol_hat.Ds.Jobs.{on_read, on_write, short_checksum, set_cs}
use iol_hat.Ds.Jobs.{failed, commit, ds_init_cb, ds_read_cnf_cb, ds_write_cnf_cb}
use iol_hat.Ds.Jobs.{ds_startup_cb, ds_delete_cb, ds_upload_cb}
use iol_hat.Base.{◌||◌, not, ◌==◌, ltb, if◌then◌else◌}
use iol_hat.Types.SmiError

-- The failed assertions among calls.
abbrev pub assertions : List Call → ℕ
assertions [] = 0
assertions (Call.assert_failed ∷ cs) = suc (assertions cs)
assertions (_ ∷ cs) = assertions cs

-- The events of the transitions not written yet.
abbrev pub is_todo : Event → Bool
is_todo Event.clear = true
is_todo Event.disable = true
is_todo Event.enable_com = true
is_todo Event.enable_no_c = true
is_todo _ = false

iteration-assertions :
    (n : ℕ) (p : Port) (s : State) (e : Event)
    → p.ds.state ≡ s
    → (is_todo e ≡ false) × (assertions p.out ≡ n)
    → (is_todo (iteration machine p e).1 ≡ false) × (assertions (iteration machine p e).0.out ≡ n)
unfolding iteration iolink_ds_fsm ds_delete ds_todo ds_ul_fault ds_dl_fault ds_fault ds_off
    ds_chk_id ds_chk_mem_size ds_chk_upload ds_upload ds_chk_validity ds_chk_csum ds_write_param
    ds_wait_ds_act ds_dl_done ds_readparam ds_store_data ds_ready ds_decompose_set ds_init_dl
    ds_reinit
iteration-assertions n p State.ds_ready Event.none q h = ground arith
iteration-assertions n p State.off Event.none q h = ground arith
iteration-assertions n p _ _ q h = ground arith

pub event-assertions :
    (n : ℕ) (p : Port) (e : Event)
    → is_todo e ≡ false
    → assertions p.out ≡ n
    → assertions (iolink_ds_event p e).out ≡ n
unfolding iolink_ds_event
event-assertions n p e t h =
    event_loop_inv machine (λ p e. (is_todo e ≡ false) × (assertions p.out ≡ n))
      (λ p. assertions p.out ≡ n) (λ p e h. iteration-assertions n p p.ds.state e refl h)
      (λ p e h. h.1) 4 p e (t, h)

branches-assertions :
    (n : ℕ) (b : Bool) (p q : Port)
    → assertions p.out ≡ n
    → assertions q.out ≡ n
    → assertions (if b then p else q).out ≡ n
branches-assertions n true p q h k = h
branches-assertions n false p q h k = k

short_checksum-assertions :
    (n len : ℕ) (p : Port) → assertions p.out ≡ n → assertions (short_checksum len p).out ≡ n
short_checksum-assertions n len p h = ground (arith, event-assertions n p Event.com_err refl h)

on_read-assertions :
    (n : ℕ) (p : Port) (s : State) (len : ℕ) (bytes : List ℕ) (errortype : SmiErrortype)
    → assertions p.out ≡ n
    → assertions (on_read s len bytes errortype p).out ≡ n
unfolding on_read
on_read-assertions n p State.check_identity len bytes errortype h =
    branches-assertions n (failed errortype || ltb len 4) _ _
      (event-assertions n p Event.fault_id refl h) (event-assertions n _ Event.passed refl h)
on_read-assertions n p State.check_mem_size len bytes errortype h =
    branches-assertions n (failed errortype || not (len == 1)) _ _
      (event-assertions n p Event.fault_size refl h) (event-assertions n _ Event.passed refl h)
on_read-assertions n p State.read_parameter len bytes errortype h =
    branches-assertions n (failed errortype) _ _ (event-assertions n p Event.dev_err refl h)
      (event-assertions n _ Event.read_done refl h)
on_read-assertions n p State.check_upload len bytes errortype h =
    event-assertions n (set_cs bytes (short_checksum len p)) Event.no_upload refl
      (short_checksum-assertions n len p h)
on_read-assertions n p State.store_data_set len bytes errortype h =
    short_checksum-assertions n len p h
on_read-assertions n p State.download_done len bytes errortype h =
    event-assertions n (set_cs bytes (short_checksum len p)) Event.ready refl
      (short_checksum-assertions n len p h)
on_read-assertions n p _ len bytes errortype h = h

on_write-assertions :
    (n : ℕ) (p : Port) (s : State) → assertions p.out ≡ n → assertions (on_write s p).out ≡ n
unfolding on_write
on_write-assertions n p State.check_upload h = event-assertions n p Event.do_upload refl h
on_write-assertions n p State.check_ds_validity h = event-assertions n p Event.do_upload refl h
on_write-assertions n p State.write_parameter h = event-assertions n p Event.wr_done refl h
on_write-assertions n p State.store_data_set h = event-assertions n (commit p) Event.ul_done refl h
on_write-assertions n p State.decompose_set h = event-assertions n p Event.download refl h
on_write-assertions n p State.download_done h = h
on_write-assertions n p State.ds_fault h =
    event-assertions n (emit (Call.ds_fault p.ds.fault) p) Event.fault_done refl h
on_write-assertions n p _ h = h

callback-assertions :
    (n : ℕ) (j : Job) (p : Port) → assertions p.out ≡ n → assertions (callback j p).out ≡ n
unfolding callback ds_startup_cb ds_delete_cb ds_upload_cb ds_init_cb ds_read_cnf_cb ds_write_cnf_cb
callback-assertions n Job.startup p h = event-assertions n p Event.startup refl h
callback-assertions n Job.delete p h = event-assertions n p Event.delete refl h
callback-assertions n Job.upload p h = event-assertions n p Event.upload refl h
callback-assertions n (Job.init cfg) p h = event-assertions n _ Event.init refl h
callback-assertions n (Job.al_read_cnf len bytes errortype) p h =
    branches-assertions n (errortype == SmiError.com_err) _ _
      (event-assertions n p Event.com_err refl h)
      (on_read-assertions n p p.ds.state len bytes errortype h)
callback-assertions n (Job.al_write_cnf errortype) p h =
    branches-assertions n (failed errortype) _ _ (event-assertions n p Event.com_err refl h)
      (on_write-assertions n p p.ds.state h)

-- Whatever jobs the main thread works off, on whatever state, no assertion of data storage fails.
pub jobs-assertions : (js : List Job) (p : Port) → assertions (run js p).out ≡ assertions p.out
unfolding run
jobs-assertions [] p = refl
jobs-assertions (j ∷ js) p =
    jobs-assertions js (callback j p) ∙ callback-assertions (assertions p.out) j p refl
