-- ===== src/Ds/Session.antt =====
-- A whole upload session: the index list, the parameters that it names, the checksum, the end.
use mathlib.Core.Path.{subst}
use mathlib.Core.List.{append-nil, append_assoc}
use iol_hat.Base.{ℕ, suc, ◌+◌, ◌≤◌, ◌<◌, ◌≡◌, ◌⊎◌, refl, ap, ◌∙◌, sym, true, arith}
use iol_hat.Base.{List, [], ◌∷◌, ◌++◌, map, length, take, length-append}
use iol_hat.Types.SmiError
use iol_hat.Fsm.{iteration, event_loop}
use iol_hat.Ds.State.{State, Event, Entry, Call, Port, emit, max_size}
use iol_hat.Ds.State.{index_list_max_entries}
use iol_hat.Ds.Actions.{ds_upload, ds_readparam, ds_ready, ds_wait_ds_act}
use iol_hat.Ds.Table.{iolink_ds_fsm, iolink_ds_event}
use iol_hat.Ds.Jobs.{Job, callback, run}
use iol_hat.Ds.ReadDone.{be32, read_index_list}
use iol_hat.Ds.Store.{Param, IsParam, All, encode, encode_all}
use iol_hat.Ds.IndexList.{IsEntry, encode_entries, read_index_list-entries}
use iol_hat.Ds.Replay.{write_ok}
use iol_hat.Ds.Download.{run-append}
use iol_hat.Ds.Upload.{entry_of, read_ok, IsOther, IsReading, IsSame, IsComplete, IsReading-more}
use iol_hat.Ds.Upload.{reading_last, answer_more, answer_final, entry_at}

-- The read requests for the parameters, in their order, after the calls that were made before.
abbrev pub asked : List Param → List Call → List Call
asked [] out = out
asked (r ∷ rs) out = asked rs (Call.al_read_req r.index r.subindex ∷ out)

IsSame-trans : {p q r : Port} → IsSame p q → IsSame q r → IsSame p r
IsSame-trans a b = record { vendorid = b.vendorid ∙ a.vendorid; deviceid = b.deviceid ∙ a.deviceid }

run-IsComplete :
    (rs : List Param) (p : Port) (r : Param) (done : List ℕ)
    → All IsParam (r ∷ rs)
    → All IsOther (r ∷ rs)
    → length done + length (encode_all (r ∷ rs)) ≤ max_size
    → IsReading p r rs done
    → IsComplete p (run (map read_ok (r ∷ rs)) p) (asked rs p.out) (done ++ encode_all (r ∷ rs))
unfolding run
run-IsComplete [] p r done v o room a =
    let c = reading_last p r done o.0 v.0 (omega (arith, length-append (encode r) [])) a in
    subst (λ xs. IsComplete p (callback (read_ok r) p) p.out (done ++ xs))
      (sym (append-nil (encode r))) c
run-IsComplete (r' ∷ rs) p r done v o room a =
    let split = length-append (encode r) (encode_all (r' ∷ rs)) in
    let (b, out, same) = IsReading-more p r r' rs done o.0 v.0 (omega (arith, split)) a in
    let q = callback (read_ok r) p in
    let c =
      run-IsComplete rs q r' (done ++ encode r) v.1 o.1
        (omega (arith, split, length-append done (encode r))) b in
    let assoc = append_assoc done (encode r) (encode_all (r' ∷ rs)) in
    record {
      state = c.state;
      stored = c.stored ∙ assoc;
      size = c.size ∙ ap length assoc;
      out = c.out ∙ ap (λ out. Call.al_read_req 3 4 ∷ asked rs out) out;
      same = IsSame-trans same c.same;
    }

-- The port that waits for the index list.
abbrev wait_list : Port → Port
wait_list p = emit (Call.al_read_req 3 5) (record p {
  ds = record p.ds {
    state = State.read_parameter;
    master_ds = record p.ds.master_ds { pos = 0 };
    index_list = record p.ds.index_list { pos = 0 };
    current_index = 3;
    current_subindex = 5;
  };
})

start :
    (p : Port)
    → (p.ds.state ≡ State.check_upload) ⊎ (p.ds.state ≡ State.check_ds_validity)
    → callback write_ok p ≡ wait_list p
unfolding callback iolink_ds_event event_loop iteration iolink_ds_fsm ds_upload ds_readparam
start p h = ground arith

abbrev list_read : List ℕ → Port → Port
list_read bytes p = record p {
  ds = record p.ds {
    index_list = read_index_list index_list_max_entries 0 0 bytes p.ds.index_list;
  };
}

list_answer :
    (p : Port) (len : ℕ) (bytes : List ℕ)
    → callback (Job.al_read_cnf len bytes SmiError.no_error) (wait_list p)
      ≡ iolink_ds_event (list_read bytes (wait_list p)) Event.read_done
unfolding callback
list_answer p len bytes = refl

-- The checksum has been read, and the device has confirmed the end of the upload.
finish :
    (p : Port) (cs : List ℕ)
    → p.ds.state ≡ State.store_data_set
    → let q = run (Job.al_read_cnf 4 cs SmiError.no_error ∷ write_ok ∷ []) p in
      (q.ds.state ≡ State.waiting_on_ds_activity)
      × (q.out ≡ Call.ds_ready ∷ Call.al_write_req 3 1 1 (2 ∷ []) ∷ p.out)
      × (q.ds.master_ds ≡ record p.ds.master_ds {
        vid = p.ds.pending_vendorid;
        did = p.ds.pending_deviceid;
        cs = be32 cs;
        valid = true;
      })
unfolding run callback iolink_ds_event event_loop iteration iolink_ds_fsm ds_ready ds_wait_ds_act
finish p cs s = ground arith

-- The device's index list names the parameters, in their order, and fits the array.
pub record IsListOf (rs : List Param) (bytes : List ℕ) : Type 0 where
  pub rest : List ℕ
  pub encoded : bytes ≡ encode_entries (map entry_of rs) ++ 0 ∷ 0 ∷ rest
  pub entries : All IsEntry (map entry_of rs)
  pub few : length rs < index_list_max_entries

-- The arrays have their sizes.
pub record IsSized (p : Port) : Type 0 where
  pub bytes : length p.ds.master_ds.bytes ≡ max_size
  pub entries : length p.ds.index_list.entries ≡ index_list_max_entries

length-map-entry_of : (rs : List Param) → length (map entry_of rs) ≡ length rs
length-map-entry_of [] = refl
length-map-entry_of (r ∷ rs) = ap suc (length-map-entry_of rs)

after_list :
    (rs : List Param) (p : Port) (bytes : List ℕ)
    → IsListOf rs bytes
    → IsSized p
    → All IsParam rs
    → All IsOther rs
    → length (encode_all rs) ≤ max_size
    → IsComplete p
        (run (map read_ok rs) (iolink_ds_event (list_read bytes (wait_list p)) Event.read_done))
        (asked rs (Call.al_read_req 3 5 ∷ p.out))
        (encode_all rs)
unfolding run
after_list [] p bytes l s v o room =
    let mid = list_read bytes (wait_list p) in
    let (count, entries, kept, pos) =
      read_index_list-entries [] bytes l.rest (wait_list p).ds.index_list l.encoded l.entries l.few
        s.entries in
    let n = answer_final mid refl (omega (arith, count)) in
    record {
      state = n.state;
      stored = rw n.master refl;
      size = rw n.master refl;
      out = n.out;
      same = record { vendorid = n.same.vendorid; deviceid = n.same.deviceid };
    }
after_list (r ∷ rs) p bytes l s v o room =
    let mid = list_read bytes (wait_list p) in
    let len = length-map-entry_of rs in
    let (count, entries, kept, pos) =
      read_index_list-entries (map entry_of (r ∷ rs)) bytes l.rest (wait_list p).ds.index_list
        l.encoded l.entries (omega (arith, l.few, len)) s.entries in
    let d : Entry = record { index = 0; subindex = 0 } in
    let next =
      entry_at mid.ds.index_list.entries 0 (length rs) (entry_of r) (map entry_of rs) d
        (ap (λ k. take (suc k) mid.ds.index_list.entries) (sym len) ∙ entries) in
    let n =
      answer_more mid (entry_of r) refl (omega (arith, count, pos))
        (omega (arith, count, len, l.few)) (rw pos next.0) in
    let q = iolink_ds_event mid Event.read_done in
    let c = run-IsComplete rs q r [] v o (omega arith) (record {
      state = n.state;
      current_index = n.current_index;
      current_subindex = n.current_subindex;
      entries = rw (n.list_pos, n.list_entries, pos) next.1;
      count = omega (arith, n.list_count, n.list_pos, count, pos, len);
      few = omega (arith, n.list_count, count, len, l.few);
      kept = rw n.master s.bytes;
      stored = rw n.master refl;
      pos = rw n.master refl;
    }) in
    record {
      state = c.state;
      stored = c.stored;
      size = c.size;
      out = c.out ∙ ap (λ out. Call.al_read_req 3 4 ∷ asked rs out) n.out;
      same =
          IsSame-trans (record { vendorid = n.same.vendorid; deviceid = n.same.deviceid }) c.same;
    }

-- The device confirms the start, answers with its index list, with every parameter of it and with
-- the checksum, and confirms the end.
abbrev pub upload_jobs : List Param → ℕ → List ℕ → List ℕ → List Job
upload_jobs rs len bytes cs =
    write_ok
    ∷ Job.al_read_cnf len bytes SmiError.no_error
    ∷ (map read_ok rs ++ Job.al_read_cnf 4 cs SmiError.no_error ∷ write_ok ∷ [])

-- What a complete upload leaves: the encoded parameters as the valid data set of the configured
-- device, and the calls that were made on the way.
pub record IsUploaded (p q : Port) (rs : List Param) (sum : List ℕ) : Type 0 where
  pub state : q.ds.state ≡ State.waiting_on_ds_activity
  pub stored : take q.ds.master_ds.size q.ds.master_ds.bytes ≡ encode_all rs
  pub size : q.ds.master_ds.size ≡ length (encode_all rs)
  pub valid : q.ds.master_ds.valid ≡ true
  pub vid : q.ds.master_ds.vid ≡ p.ds.pending_vendorid
  pub did : q.ds.master_ds.did ≡ p.ds.pending_deviceid
  pub cs : q.ds.master_ds.cs ≡ be32 sum
  pub out :
      q.out
      ≡ Call.ds_ready
        ∷ Call.al_write_req 3 1 1 (2 ∷ [])
        ∷ Call.al_read_req 3 4
        ∷ asked rs (Call.al_read_req 3 5 ∷ p.out)

-- An upload that has been started, and whose requests the device answers, asks for every parameter
-- of the device's index list in its order, ends the upload, reports that data storage is ready, and
-- leaves the parameters, encoded one behind the other, as the valid data set of the configured
-- device, provided that the list has fewer than 70 entries and the encoding fits the array.
pub run-IsUploaded :
    (rs : List Param) (p : Port) (len : ℕ) (bytes cs : List ℕ)
    → (p.ds.state ≡ State.check_upload) ⊎ (p.ds.state ≡ State.check_ds_validity)
    → IsSized p
    → IsListOf rs bytes
    → All IsParam rs
    → All IsOther rs
    → length (encode_all rs) ≤ max_size
    → IsUploaded p (run (upload_jobs rs len bytes cs) p) rs cs
unfolding run
run-IsUploaded rs p len bytes cs s a l v o room =
    let q0 = iolink_ds_event (list_read bytes (wait_list p)) Event.read_done in
    let ends = Job.al_read_cnf 4 cs SmiError.no_error ∷ write_ok ∷ [] in
    let q1 = run (map read_ok rs) q0 in
    let c : IsComplete p q1 (asked rs (Call.al_read_req 3 5 ∷ p.out)) (encode_all rs) =
      after_list rs p bytes l a v o room in
    let f = finish q1 cs c.state in
    let tail = map read_ok rs ++ ends in
    let way : run (upload_jobs rs len bytes cs) p ≡ run ends q1 =
      ap (λ q. run tail (callback (Job.al_read_cnf len bytes SmiError.no_error) q)) (start p s)
      ∙ ap (λ q. run tail q) (list_answer p len bytes)
      ∙ run-append (map read_ok rs) ends q0 in
    subst (λ q. IsUploaded p q rs cs) (sym way)
      (record {
        state = f.0;
        stored = rw f.2 c.stored;
        size = rw f.2 c.size;
        valid = rw f.2 refl;
        vid = rw f.2 c.same.vendorid;
        did = rw f.2 c.same.deviceid;
        cs = rw f.2 refl;
        out = f.1 ∙ ap (λ out. Call.ds_ready ∷ Call.al_write_req 3 1 1 (2 ∷ []) ∷ out) c.out;
      })
