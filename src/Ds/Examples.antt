-- ===== src/Ds/Examples.antt =====
-- Runs of data storage on small inputs, and the theorems at such inputs.
use iol_hat.Base.{ℕ, zero, suc, ◌+◌, ◌%◌, ◌≡◌, refl, inl, true, arith, List, [], ◌∷◌, ◌++◌}
use iol_hat.Base.{length, take, replicate, length-replicate}
use iol_hat.Types.{DsFault, IolinkError}
use iol_hat.Types.ArgBlock
use iol_hat.Types.SmiError
use iol_hat.Fsm.Settles.{Settles}
use iol_hat.Ds.State.{State, Event, Entry, Call, Port}
use iol_hat.Ds.State.{index_list_max_entries}
use iol_hat.Ds.Actions.{ds_check_vid_did}
use iol_hat.Ds.Table.{machine, iolink_ds_event}
use iol_hat.Ds.Jobs.{Job, callback, run}
use iol_hat.Ds.ReadDone.{read_index_list}
use iol_hat.Ds.Api.{ArgBlockDsData, ds_smi_par_serv_to_ds_req}
use iol_hat.Ds.Termination.{iolink_ds_event-Settles}
use iol_hat.Ds.Store.{All, encode_all}
use iol_hat.Ds.IndexList.{IsEntry, encode_entries, read_index_list-entries, read_index_list_full}
use iol_hat.Ds.Replay.{sent, dl_end_call}
use iol_hat.Ds.Download.{download_jobs, download_sends}
use iol_hat.Ds.Session.{IsUploaded, upload_jobs, run-IsUploaded}
use iol_hat.Ds.Restore.{IsOutdated, check_jobs, check_calls, restore_of_upload}
use iol_hat.Ds.Safety.{IsSafe}
use iol_hat.Ds.SafeJobs.{run-IsSafe}
use iol_hat.Ds.Stuck.{break_call, com_err_ignored, com_err_reported}
use iol_hat.Ds.ParServ.{par_serv_truncates}
use iol_hat.Ds.Samples.{
  fresh, port_in, params, list_bytes, sum, other_sum, size, params-IsParam, params-IsOther,
  params-IsListOf, port-IsSized,
}

iolink_ds_event-Settles_example :
    Settles machine (port_in State.off) Event.init (iolink_ds_event (port_in State.off) Event.init)
iolink_ds_event-Settles_example = iolink_ds_event-Settles (port_in State.off) Event.init

run-IsUploaded_example :
    IsUploaded
      (port_in State.check_upload)
      (run (upload_jobs params 8 list_bytes sum) (port_in State.check_upload))
      params
      sum
run-IsUploaded_example =
    run-IsUploaded params (port_in State.check_upload) 8 list_bytes sum (inl refl)
      (port-IsSized State.check_upload) params-IsListOf params-IsParam params-IsOther (omega arith)

abbrev name_entry : Entry
name_entry = record { index = 16; subindex = 0 }

name_entry-IsEntry : IsEntry name_entry
name_entry-IsEntry = record { not_end = omega arith; index_u16 = omega arith }

read_index_list-entries_example :
    let list' =
      read_index_list index_list_max_entries 0 0 (0 ∷ 16 ∷ 0 ∷ 0 ∷ 0 ∷ []) fresh.index_list in
    (list'.count ≡ 1)
    × (take 1 list'.entries ≡ name_entry ∷ [])
    × (length list'.entries ≡ index_list_max_entries)
    × (list'.pos ≡ 0)
read_index_list-entries_example =
    read_index_list-entries (name_entry ∷ []) (0 ∷ 16 ∷ 0 ∷ 0 ∷ 0 ∷ []) [] fresh.index_list refl
      (name_entry-IsEntry, tt) (omega arith) (port-IsSized State.off).entries

abbrev full_list : List Entry
full_list = replicate index_list_max_entries name_entry

replicate-All : (n : ℕ) → All IsEntry (replicate n name_entry)
replicate-All zero = tt
replicate-All (suc n) = (name_entry-IsEntry, replicate-All n)

read_index_list_full_example :
    (read_index_list index_list_max_entries 0 0
      (encode_entries full_list ++ 0 ∷ 0 ∷ [])
      fresh.index_list).count
    ≡ 0
read_index_list_full_example =
    read_index_list_full full_list (encode_entries full_list ++ 0 ∷ 0 ∷ []) (0 ∷ 0 ∷ [])
      fresh.index_list refl (replicate-All index_list_max_entries)
      (length-replicate index_list_max_entries name_entry)

-- The port whose array holds the two parameters, ready to write them.
abbrev loaded : State → Port
loaded s = record (port_in s) {
  ds = record (port_in s).ds {
    master_ds = record fresh.master_ds {
      cs = 9;
      vid = 1;
      did = 2;
      valid = true;
      size = 11;
      bytes = encode_all params;
    };
  };
}

download_sends_example :
    let q = run (download_jobs params sum) (loaded State.decompose_set) in
    (q.ds.state ≡ State.waiting_on_ds_activity)
    × (q.out ≡ Call.ds_ready ∷ Call.al_read_req 3 4 ∷ dl_end_call ∷ sent params [])
    × (q.ds.master_ds.bytes ≡ encode_all params)
download_sends_example =
    download_sends params (loaded State.decompose_set) sum refl refl refl (omega arith)
      params-IsParam

loaded-IsOutdated : IsOutdated (loaded State.waiting_on_ds_activity) size 0 other_sum
unfolding ds_check_vid_did
loaded-IsOutdated = record {
  state = refl;
  known = refl;
  valid = refl;
  download = refl;
  fits = omega arith;
  unlocked = refl;
  quiet = refl;
  differs = λ e. absurd (omega (arith, e));
}

-- A later session, in which the port has the data set that the upload left.
abbrev later : Port
later = record (port_in State.waiting_on_ds_activity) {
  ds = record (port_in State.waiting_on_ds_activity).ds {
    master_ds =
        (run (upload_jobs params 8 list_bytes sum) (port_in State.check_upload)).ds.master_ds;
  };
}

port-IsSafe : (s : State) → IsSafe (port_in s).ds
port-IsSafe s = record {
  bytes = (port-IsSized s).bytes;
  size_max = refl;
  size = omega arith;
  pos = λ h. omega arith;
  entries = (port-IsSized s).entries;
  count = omega arith;
}

run-IsSafe_example :
    IsSafe (run (upload_jobs params 8 list_bytes sum) (port_in State.check_upload)).ds
run-IsSafe_example =
    run-IsSafe (upload_jobs params 8 list_bytes sum) (port_in State.check_upload)
      (tt, (omega arith, (omega arith, (omega arith, (omega arith, (tt, tt))))))
      (port-IsSafe State.check_upload)

later-IsOutdated : IsOutdated later size 0 other_sum
unfolding ds_check_vid_did
later-IsOutdated =
    let u = run-IsUploaded_example in
    let safe = run-IsSafe_example in
    record {
      state = refl;
      known = rw (u.vid, u.did) refl;
      valid = u.valid;
      download = refl;
      fits = omega (arith, safe.size_max);
      unlocked = refl;
      quiet = refl;
      differs = λ e. absurd (omega (arith, e, u.cs));
    }

restore_of_upload_example :
    let done = run (check_jobs size 0 other_sum ++ download_jobs params other_sum) later in
    (done.ds.state ≡ State.waiting_on_ds_activity)
    × (done.out ≡ Call.ds_ready ∷ Call.al_read_req 3 4 ∷ dl_end_call ∷ sent params (check_calls []))
restore_of_upload_example =
    restore_of_upload params (port_in State.check_upload) later 8 list_bytes sum size other_sum
      other_sum 0 (inl refl) (port-IsSized State.check_upload) params-IsListOf params-IsParam
      params-IsOther (omega arith) refl later-IsOutdated

com_err_ignored_example :
    (callback (Job.al_read_cnf 0 [] SmiError.com_err) (port_in State.check_upload)
      ≡ port_in State.check_upload)
    × (callback (Job.al_write_cnf SmiError.com_err) (port_in State.check_upload)
        ≡ port_in State.check_upload)
com_err_ignored_example =
    com_err_ignored (port_in State.check_upload) 0 [] SmiError.com_err refl refl

-- A write of a download fails with the error 0x8030.
com_err_reported_example :
    let jobs = Job.al_write_cnf 0x8030 ∷ Job.al_write_cnf SmiError.no_error ∷ [] in
    let q = run jobs (port_in State.write_parameter) in
    (q.ds.state ≡ State.waiting_on_ds_activity)
    × (q.ds.master_ds ≡ fresh.master_ds)
    × (q.out ≡ Call.ds_fault DsFault.down ∷ break_call ∷ [])
com_err_reported_example =
    com_err_reported (port_in State.write_parameter) (Job.al_write_cnf 0x8030) refl refl

abbrev data_set : ArgBlockDsData
data_set = record { id = ArgBlock.ds_data; vid = 1; did = 2; fid = 0; ds_data = encode_all params }

abbrev given : Port
given = (ds_smi_par_serv_to_ds_req ArgBlock.void_block 25 data_set (port_in State.off)).0

par_serv_truncates_example :
    let r = ds_smi_par_serv_to_ds_req ArgBlock.void_block 275 data_set (port_in State.off) in
    (r.1 ≡ IolinkError.none)
    × (r.0.ds.master_ds.size ≡ (275 + 242) % 256)
    × (r.0.ds.master_ds.valid ≡ true)
    × (r.0.out ≡ Call.smi_voidblock_cnf ArgBlock.ds_data ∷ [])
par_serv_truncates_example = par_serv_truncates (port_in State.off) 275 data_set refl refl

abbrev later_given : Port
later_given = record (port_in State.waiting_on_ds_activity) {
  ds = record (port_in State.waiting_on_ds_activity).ds { master_ds = given.ds.master_ds };
}
