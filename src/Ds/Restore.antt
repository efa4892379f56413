-- ===== src/Ds/Restore.antt =====
-- Backup and restore: what one session uploads from a device, a later one writes to a device.
use iol_hat.Base.{
  ℕ, ◌≤◌, ◌≡◌, ◌≢◌, ◌⊎◌, refl, ap, ◌∙◌, true, false, not, ◌==◌, ◌&&◌, bit_and, arith,
}
use iol_hat.Base.{List, [], ◌∷◌, ◌++◌, length}
use iol_hat.Types.SmiError
use iol_hat.Fsm.{iteration, event_loop}
use iol_hat.Ds.Requests.{ds_al_read_req, ds_al_write_ds_cmd_req}
use iol_hat.Ds.State.{State, Command, Call, Port, max_size}
use iol_hat.Ds.Actions.{ds_check_vid_did, ds_chk_id, ds_chk_mem_size, ds_chk_upload}
use iol_hat.Ds.Actions.{ds_chk_validity, ds_chk_csum, ds_init_dl}
use iol_hat.Ds.Table.{iolink_ds_fsm, iolink_ds_event}
use iol_hat.Ds.Jobs.{Job, callback, run}
use iol_hat.Ds.ReadDone.{be32}
use iol_hat.Ds.Store.{Param, IsParam, All, encode_all}
use iol_hat.Ds.Replay.{sent, dl_end_call}
use iol_hat.Ds.Download.{in_state, download_jobs, download_sends, run-append}
use iol_hat.Ds.Upload.{IsOther}
use iol_hat.Ds.Session.{IsListOf, IsSized, IsUploaded, upload_jobs, run-IsUploaded}

-- A device that data storage recognises, with a checksum that differs from the stored one.
pub record IsOutdated (p : Port) (size : List ℕ) (property : ℕ) (sum : List ℕ) : Type 0 where
  pub state : p.ds.state ≡ State.waiting_on_ds_activity
  pub known : ds_check_vid_did p ≡ true
  pub valid : p.ds.master_ds.valid ≡ true
  pub download : p.ds.ds_download ≡ true
  pub fits : be32 size ≤ p.ds.master_ds.size_max
  pub unlocked : (bit_and property 6 == 6) ≡ false
  pub quiet : (not (bit_and property 128 == 0) && p.ds.ds_upload) ≡ false
  pub differs : p.ds.master_ds.cs ≢ be32 sum

-- The start of a session that ends in a download.
abbrev pub check_jobs : List ℕ → ℕ → List ℕ → List Job
check_jobs size property sum =
    Job.startup
    ∷ Job.al_read_cnf 4 size SmiError.no_error
    ∷ Job.al_read_cnf 1 (property ∷ []) SmiError.no_error
    ∷ Job.al_read_cnf 4 sum SmiError.no_error
    ∷ []

abbrev pub check_calls : List Call → List Call
check_calls out =
    Call.al_write_req 3 1 1 (3 ∷ [])
    ∷ Call.al_read_req 3 4
    ∷ Call.al_read_req 3 2
    ∷ Call.al_read_req 3 3
    ∷ out

-- The requests of the four steps.
abbrev ask : State → ℕ → Port → Port
ask s subindex p = ds_al_read_req 3 subindex (in_state s p)

abbrev sized : List ℕ → Port → Port
sized size p = record p {
  ds = record p.ds { device_ds = record p.ds.device_ds { size_max = be32 size } };
}

abbrev described : ℕ → Port → Port
described property p = record p {
  ds = record p.ds { device_ds = record p.ds.device_ds { state_property = property } };
}

abbrev summed : List ℕ → Port → Port
summed sum p = record p { ds = record p.ds { device_ds = record p.ds.device_ds { cs = be32 sum } } }

step_startup :
    (p : Port)
    → p.ds.state ≡ State.waiting_on_ds_activity
    → ds_check_vid_did p ≡ true
    → callback Job.startup p ≡ ask State.check_identity 3 p
unfolding callback iolink_ds_event event_loop iteration iolink_ds_fsm ds_chk_id ds_check_vid_did
step_startup p s k = ground arith

step_size :
    (p : Port) (size : List ℕ)
    → p.ds.state ≡ State.check_identity
    → be32 size ≤ p.ds.master_ds.size_max
    → callback (Job.al_read_cnf 4 size SmiError.no_error) p
      ≡ ask State.check_mem_size 2 (sized size p)
unfolding callback iolink_ds_event event_loop iteration iolink_ds_fsm ds_chk_mem_size
step_size p size s k = ground arith

step_state :
    (p : Port) (property : ℕ)
    → p.ds.state ≡ State.check_mem_size
    → (bit_and property 6 == 6) ≡ false
    → (not (bit_and property 128 == 0) && p.ds.ds_upload) ≡ false
    → callback (Job.al_read_cnf 1 (property ∷ []) SmiError.no_error) p
      ≡ ask State.check_upload 4 (described property p)
unfolding callback iolink_ds_event event_loop iteration iolink_ds_fsm ds_chk_upload
step_state p property s k u = ground arith

step_sum :
    (p : Port) (sum : List ℕ)
    → p.ds.state ≡ State.check_upload
    → p.ds.master_ds.valid ≡ true
    → p.ds.ds_download ≡ true
    → p.ds.master_ds.cs ≢ be32 sum
    → callback (Job.al_read_cnf 4 sum SmiError.no_error) p
      ≡ ds_al_write_ds_cmd_req Command.dl_start (in_state State.decompose_set (summed sum p))
unfolding callback iolink_ds_event event_loop iteration iolink_ds_fsm ds_chk_validity ds_chk_csum
    ds_init_dl
step_sum p sum s v d n = ground arith

-- A known device whose checksum differs from the stored one is checked for its size, its state and
-- its checksum, and then a download of the stored data is started, which stay as they were.
pub check_starts :
    (p : Port) (size : List ℕ) (property : ℕ) (sum : List ℕ)
    → IsOutdated p size property sum
    → let q = run (check_jobs size property sum) p in
      (q.ds.state ≡ State.decompose_set)
      × (q.ds.master_ds ≡ p.ds.master_ds)
      × (q.out ≡ check_calls p.out)
unfolding run
check_starts p size property sum h =
    let p1 = ask State.check_identity 3 p in
    let p2 = ask State.check_mem_size 2 (sized size p1) in
    let p3 = ask State.check_upload 4 (described property p2) in
    let way : run (check_jobs size property sum) p
        ≡ ds_al_write_ds_cmd_req Command.dl_start (in_state State.decompose_set (summed sum p3)) =
      ap
        (λ q.
          run
            (Job.al_read_cnf 4 size 0
              ∷ Job.al_read_cnf 1 (property ∷ []) 0
              ∷ Job.al_read_cnf 4 sum 0
              ∷ [])
            q)
        (step_startup p h.state h.known)
      ∙ ap (λ q. run (Job.al_read_cnf 1 (property ∷ []) 0 ∷ Job.al_read_cnf 4 sum 0 ∷ []) q)
          (step_size p1 size refl h.fits)
      ∙ ap (λ q. callback (Job.al_read_cnf 4 sum 0) q)
          (step_state p2 property refl h.unlocked h.quiet)
      ∙ step_sum p3 sum refl h.valid h.download h.differs in
    rw way (refl, refl, refl)

-- The data set that an upload has stored from one device is written, parameter by parameter and in
-- its order, to the device that is connected when a later session finds another checksum there:
-- `rs` are the parameters that the first device gave, `q` is the port in the later session, which
-- still has the data set, and the requests of both sessions are answered.
pub restore_of_upload :
    (rs : List Param) (p q : Port) (len : ℕ) (bytes cs size sum cs' : List ℕ) (property : ℕ)
    → (p.ds.state ≡ State.check_upload) ⊎ (p.ds.state ≡ State.check_ds_validity)
    → IsSized p
    → IsListOf rs bytes
    → All IsParam rs
    → All IsOther rs
    → length (encode_all rs) ≤ max_size
    → q.ds.master_ds ≡ (run (upload_jobs rs len bytes cs) p).ds.master_ds
    → IsOutdated q size property sum
    → let done = run (check_jobs size property sum ++ download_jobs rs cs') q in
      (done.ds.state ≡ State.waiting_on_ds_activity)
      × (done.out
          ≡ Call.ds_ready ∷ Call.al_read_req 3 4 ∷ dl_end_call ∷ sent rs (check_calls q.out))
restore_of_upload rs p q len bytes cs size sum cs' property s a l v o room m out =
    let u : IsUploaded p (run (upload_jobs rs len bytes cs) p) rs cs =
      run-IsUploaded rs p len bytes cs s a l v o room in
    let c = check_starts q size property sum out in
    let d = run (check_jobs size property sum) q in
    let same : d.ds.master_ds ≡ (run (upload_jobs rs len bytes cs) p).ds.master_ds = c.1 ∙ m in
    let f =
      download_sends rs d cs' c.0 (rw same u.stored) (rw same u.size) (rw same (rw u.size room))
        v in
    rw (run-append (check_jobs size property sum) (download_jobs rs cs') q) (
      f.0,
      f.1 ∙ ap (λ calls. Call.ds_ready ∷ Call.al_read_req 3 4 ∷ dl_end_call ∷ sent rs calls) c.2,
    )
