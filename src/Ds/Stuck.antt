-- ===== src/Ds/Stuck.antt =====
-- What becomes of a communication error, by the state in which it is met.
use iol_hat.Ds.Requests.{param_index, subindex_cmd}
use iol_hat.Base.{◌==◌, ◌∙◌, ap, ℕ, ◌≡◌, refl, Bool, true, false, List, [], ◌∷◌, arith}
use iol_hat.Types.{SmiErrortype, DsFault}
use iol_hat.Fsm.{iteration, event_loop}
use iol_hat.Ds.State.{State, Event, Call, Port}
use iol_hat.Ds.Actions.{ds_ul_fault, ds_dl_fault, ds_fault}
use iol_hat.Ds.Actions.{ds_wait_ds_act}
use iol_hat.Ds.Table.{iolink_ds_fsm, iolink_ds_event}
use iol_hat.Ds.Jobs.{Job, callback, run}
use iol_hat.Ds.Jobs.{on_write}
use iol_hat.Ds.Jobs.{failed, ds_read_cnf_cb, ds_write_cnf_cb}
use iol_hat.Types.SmiError
use iol_hat.Ds.Requests.{param_index}

-- The states in which data storage waits for the device and has no transition for the error.
abbrev pub is_deaf : State → Bool
is_deaf State.check_identity = true
is_deaf State.check_mem_size = true
is_deaf State.check_upload = true
is_deaf State.check_ds_validity = true
is_deaf State.decompose_set = true
is_deaf _ = false

-- What data storage tells the device when an exchange with it broke off.
abbrev pub break_call : Call
break_call = Call.al_write_req param_index subindex_cmd 1 (5 ∷ [])

-- The fault that is to be reported, if the error came amid an upload or a download.
abbrev pub fault_of : State → DsFault
fault_of State.decompose_il = DsFault.up
fault_of State.read_parameter = DsFault.up
fault_of State.store_data_set = DsFault.up
fault_of _ = DsFault.down

abbrev pub is_transferring : State → Bool
is_transferring State.decompose_il = true
is_transferring State.read_parameter = true
is_transferring State.store_data_set = true
is_transferring State.write_parameter = true
is_transferring State.download_done = true
is_transferring _ = false

deaf :
    (p : Port) (s : State) → p.ds.state ≡ s → is_deaf s ≡ true → iolink_ds_event p Event.com_err ≡ p
unfolding iolink_ds_event event_loop iteration iolink_ds_fsm
deaf p _ q h = ground arith

-- While data storage waits for the device's identity, size, state or checksum, for the start of an
-- upload or for the start of a download, a read that ends with a communication error and a write
-- that ends with any error change nothing and call nothing: the port waits on.
pub com_err_ignored :
    (p : Port) (len : ℕ) (bytes : List ℕ) (errortype : SmiErrortype)
    → is_deaf p.ds.state ≡ true
    → failed errortype ≡ true
    → (callback (Job.al_read_cnf len bytes SmiError.com_err) p ≡ p)
      × (callback (Job.al_write_cnf errortype) p ≡ p)
unfolding callback ds_read_cnf_cb ds_write_cnf_cb
com_err_ignored p len bytes errortype h f = let d = deaf p p.ds.state refl h in (d, rw f d)

-- An answer of the device that breaks a transfer off: a read that ends with a communication error,
-- or a write that ends with any error.
abbrev pub is_broken : Job → Bool
is_broken (Job.al_read_cnf len bytes errortype) = errortype == SmiError.com_err
is_broken (Job.al_write_cnf errortype) = failed errortype
is_broken _ = false

broken : (j : Job) (p : Port) → is_broken j ≡ true → callback j p ≡ iolink_ds_event p Event.com_err
unfolding callback ds_read_cnf_cb ds_write_cnf_cb
broken j p b = ground (arith, b)

transfer_breaks :
    (p : Port) (s : State)
    → p.ds.state ≡ s
    → is_transferring s ≡ true
    → let q = iolink_ds_event p Event.com_err in
      (q.ds.state ≡ State.ds_fault)
      × (q.ds.fault ≡ fault_of s)
      × (q.ds.master_ds ≡ p.ds.master_ds)
      × (q.out ≡ break_call ∷ p.out)
unfolding iolink_ds_event event_loop iteration iolink_ds_fsm ds_ul_fault ds_dl_fault ds_fault
transfer_breaks p _ q h = ground arith

reported :
    (p : Port)
    → p.ds.state ≡ State.ds_fault
    → let q = callback (Job.al_write_cnf SmiError.no_error) p in
      (q.ds.state ≡ State.waiting_on_ds_activity)
      × (q.ds.master_ds ≡ p.ds.master_ds)
      × (q.out ≡ Call.ds_fault p.ds.fault ∷ p.out)
unfolding callback ds_write_cnf_cb on_write iolink_ds_event event_loop iteration iolink_ds_fsm
    ds_wait_ds_act
reported p q = ground arith

-- A read that ends with a communication error, or a write that ends with any error, amid an upload
-- or a download makes data storage break the transfer off; when the device confirms that, the fault
-- of its direction is reported once, the port waits for the next activity, and the stored data set
-- is as the error found it.
pub com_err_reported :
    (p : Port) (j : Job)
    → is_transferring p.ds.state ≡ true
    → is_broken j ≡ true
    → let q = run (j ∷ Job.al_write_cnf SmiError.no_error ∷ []) p in
      (q.ds.state ≡ State.waiting_on_ds_activity)
      × (q.ds.master_ds ≡ p.ds.master_ds)
      × (q.out ≡ Call.ds_fault (fault_of p.ds.state) ∷ break_call ∷ p.out)
unfolding run
com_err_reported p j h b =
    let q = iolink_ds_event p Event.com_err in
    let t = transfer_breaks p p.ds.state refl h in
    let r = reported q t.0 in
    rw (broken j p b) (
      r.0,
      r.1 ∙ t.2,
      r.2
          ∙ ap (λ f. Call.ds_fault f ∷ q.out) t.1
          ∙ ap (λ out. Call.ds_fault (fault_of p.ds.state) ∷ out) t.3,
    )
