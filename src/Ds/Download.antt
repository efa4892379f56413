-- ===== src/Ds/Download.antt =====
-- A download session: the stored parameters go to the device, one by one.
use iol_hat.Base.{ℕ, suc, ◌+◌, ◌≤◌, ◌<◌, ◌≡◌, refl, ap, ◌∙◌, sym, arith, length-append}
use mathlib.Core.Path.{subst}
use iol_hat.Base.{List, [], ◌∷◌, ◌++◌, length, take, drop, replicate}
use mathlib.Core.List.{append_assoc}
use iol_hat.Base.Slices.{drop-drop, drop-append, take-drop_split}
use iol_hat.Types.SmiError
use iol_hat.Fsm.{iteration, event_loop}
use iol_hat.Ds.State.{State, Event, Command, Call, Port, MasterDs, max_size}
use iol_hat.Ds.Requests.{ds_al_write_ds_cmd_req}
use iol_hat.Ds.Actions.{ds_write_param, ds_decompose_set, ds_dl_done, ds_ready, ds_wait_ds_act}
use iol_hat.Ds.Table.{iolink_ds_fsm, iolink_ds_event}
use iol_hat.Ds.Jobs.{Job, callback, run}
use iol_hat.Ds.Store.{Param, IsParam, All, encode, encode_all}
use iol_hat.Ds.Replay.{write_ok, sent, dl_end_call, ds_write_param-IsSent}

abbrev pub in_state : State → Port → Port
in_state s p = record p { ds = record p.ds { state = s } }

abbrev rewound : Port → Port
rewound p = record p { ds = record p.ds { master_ds = record p.ds.master_ds { pos = 0 } } }

-- What a confirmed write leads to, while parameters are left and after the last.
step_more :
    (p : Port)
    → p.ds.state ≡ State.write_parameter
    → p.ds.master_ds.pos < p.ds.master_ds.size
    → callback write_ok p ≡ (ds_write_param p Event.more_data).0
unfolding callback iolink_ds_event event_loop iteration iolink_ds_fsm ds_decompose_set
    ds_write_param
step_more p s h = ground arith

step_done :
    (p : Port)
    → p.ds.state ≡ State.write_parameter
    → p.ds.master_ds.size ≤ p.ds.master_ds.pos
    → callback write_ok p ≡ ds_al_write_ds_cmd_req Command.dl_end (in_state State.download_done p)
unfolding callback iolink_ds_event event_loop iteration iolink_ds_fsm ds_decompose_set ds_dl_done
step_done p s h = ground arith

-- What the confirmed start of the download leads to.
start_more :
    (p : Port)
    → p.ds.state ≡ State.decompose_set
    → 0 < p.ds.master_ds.size
    → callback write_ok p
      ≡ (ds_write_param (in_state State.write_parameter (rewound p)) Event.more_data).0
unfolding callback iolink_ds_event event_loop iteration iolink_ds_fsm ds_decompose_set
    ds_write_param
start_more p s h = ground arith

start_done :
    (p : Port)
    → p.ds.state ≡ State.decompose_set
    → p.ds.master_ds.size ≡ 0
    → callback write_ok p
      ≡ ds_al_write_ds_cmd_req Command.dl_end (in_state State.download_done (rewound p))
unfolding callback iolink_ds_event event_loop iteration iolink_ds_fsm ds_decompose_set ds_dl_done
start_done p s h = ground arith

-- The parameters that are still to be sent stand from the position on.
record IsAt (p : Port) (rs : List Param) (rest : List ℕ) : Type 0 where
  state : p.ds.state ≡ State.write_parameter
  data_left : drop p.ds.master_ds.pos p.ds.master_ds.bytes ≡ encode_all rs ++ rest
  size : p.ds.master_ds.size ≡ p.ds.master_ds.pos + length (encode_all rs)
  inside : p.ds.master_ds.size ≤ max_size

record IsSentAll (p q : Port) (rs : List Param) : Type 0 where
  state : q.ds.state ≡ State.download_done
  out : q.out ≡ dl_end_call ∷ sent rs p.out
  bytes : q.ds.master_ds.bytes ≡ p.ds.master_ds.bytes

after_one :
    (p : Port) (r : Param) (rs : List Param) (rest : List ℕ) (e : Event)
    → IsParam r
    → IsAt p (r ∷ rs) rest
    → IsAt (ds_write_param p e).0 rs rest
after_one p r rs rest e v a =
    let m = p.ds.master_ds in
    let w =
      ds_write_param-IsSent p e r (encode_all rs ++ rest)
        (a.data_left ∙ append_assoc (encode r) (encode_all rs) rest) v
        (omega (arith, a.size, a.inside, length-append (encode r) (encode_all rs))) in
    record {
      state = w.state ∙ a.state;
      data_left =
          rw (w.bytes, w.pos)
            (drop-drop m.bytes m.pos (length (encode r)) refl
              ∙ ap (λ xs. drop (length (encode r)) xs)
                  (a.data_left ∙ append_assoc (encode r) (encode_all rs) rest)
              ∙ drop-append (encode r) (encode_all rs ++ rest) refl);
      size = omega (arith, w.size, w.pos, a.size, length-append (encode r) (encode_all rs));
      inside = omega (arith, w.size, a.inside);
    }

send_from :
    (rs : List Param) (p : Port) (rest : List ℕ)
    → All IsParam rs
    → IsAt p rs rest
    → IsSentAll p (run (replicate (suc (length rs)) write_ok) p) rs
unfolding run
send_from [] p rest v a =
    subst (λ q. IsSentAll p q []) (sym (step_done p a.state (omega (arith, a.size))))
      (record { state = refl; out = refl; bytes = refl })
send_from (r ∷ rs) p rest v a =
    let q = (ds_write_param p Event.more_data).0 in
    let w =
      ds_write_param-IsSent p Event.more_data r (encode_all rs ++ rest)
        (a.data_left ∙ append_assoc (encode r) (encode_all rs) rest) v.0
        (omega (arith, a.size, a.inside, length-append (encode r) (encode_all rs))) in
    let ih = send_from rs q rest v.1 (after_one p r rs rest Event.more_data v.0 a) in
    subst (λ z. IsSentAll p (run (replicate (suc (length rs)) write_ok) z) (r ∷ rs))
      (sym (step_more p a.state (omega (arith, a.size, length-append (encode r) (encode_all rs)))))
      (record {
        state = ih.state;
        out = ih.out ∙ ap (λ out. dl_end_call ∷ sent rs out) w.out;
        bytes = ih.bytes ∙ w.bytes;
      })

-- The whole array is the stored data and what stands behind them.
split_data :
    (bytes encoded : List ℕ) (n : ℕ) → take n bytes ≡ encoded → bytes ≡ encoded ++ drop n bytes
split_data bytes encoded n e = sym (take-drop_split bytes n) ∙ ap (λ xs. xs ++ drop n bytes) e

run-IsSentAll :
    (rs : List Param) (p : Port)
    → p.ds.state ≡ State.decompose_set
    → take p.ds.master_ds.size p.ds.master_ds.bytes ≡ encode_all rs
    → p.ds.master_ds.size ≡ length (encode_all rs)
    → p.ds.master_ds.size ≤ max_size
    → All IsParam rs
    → IsSentAll p (run (replicate (suc (length rs)) write_ok) p) rs
unfolding run
run-IsSentAll [] p s d n h v =
    subst (λ q. IsSentAll p q []) (sym (start_done p s n))
      (record { state = refl; out = refl; bytes = refl })
run-IsSentAll (r ∷ rs) p s d n h v =
    let m = p.ds.master_ds in
    let p0 = in_state State.write_parameter (rewound p) in
    let rest = drop m.size m.bytes in
    let at : IsAt p0 (r ∷ rs) rest = record {
      state = refl;
      data_left = split_data m.bytes (encode_all (r ∷ rs)) m.size d;
      size = n ∙ omega arith;
      inside = h;
    } in
    let q = (ds_write_param p0 Event.more_data).0 in
    let w =
      ds_write_param-IsSent p0 Event.more_data r (encode_all rs ++ rest)
        (at.data_left ∙ append_assoc (encode r) (encode_all rs) rest) v.0
        (omega (arith, at.size, h, length-append (encode r) (encode_all rs))) in
    let ih = send_from rs q rest v.1 (after_one p0 r rs rest Event.more_data v.0 at) in
    subst (λ z. IsSentAll p (run (replicate (suc (length rs)) write_ok) z) (r ∷ rs))
      (sym (start_more p s (omega (arith, n, length-append (encode r) (encode_all rs)))))
      (record {
        state = ih.state;
        out = ih.out ∙ ap (λ out. dl_end_call ∷ sent rs out) w.out;
        bytes = ih.bytes ∙ w.bytes;
      })

-- The device has confirmed the end of the download, and answers the read of its checksum.
finish :
    (p : Port) (cs : List ℕ)
    → p.ds.state ≡ State.download_done
    → let q = run (write_ok ∷ Job.al_read_cnf 4 cs SmiError.no_error ∷ []) p in
      (q.ds.state ≡ State.waiting_on_ds_activity)
      × (q.out ≡ Call.ds_ready ∷ Call.al_read_req 3 4 ∷ p.out)
      × (q.ds.master_ds ≡ p.ds.master_ds)
unfolding run callback iolink_ds_event event_loop iteration iolink_ds_fsm ds_ready ds_wait_ds_act
finish p cs s = ground arith

pub run-append : (js ks : List Job) (p : Port) → run (js ++ ks) p ≡ run ks (run js p)
unfolding run
run-append [] ks p = refl
run-append (j ∷ js) ks p = run-append js ks (callback j p)

-- The device confirms the start, every parameter and the end, and answers the checksum.
abbrev pub download_jobs : List Param → List ℕ → List Job
download_jobs rs cs =
    replicate (suc (length rs)) write_ok ++ write_ok ∷ Job.al_read_cnf 4 cs SmiError.no_error ∷ []

-- A download whose requests the device confirms asks the device to write exactly the stored
-- parameters, in the order in which they are stored, then ends the download, reads the checksum,
-- reports that data storage is ready, and waits for the next activity with the stored data kept.
pub download_sends :
    (rs : List Param) (p : Port) (cs : List ℕ)
    → p.ds.state ≡ State.decompose_set
    → take p.ds.master_ds.size p.ds.master_ds.bytes ≡ encode_all rs
    → p.ds.master_ds.size ≡ length (encode_all rs)
    → p.ds.master_ds.size ≤ max_size
    → All IsParam rs
    → let q = run (download_jobs rs cs) p in
      (q.ds.state ≡ State.waiting_on_ds_activity)
      × (q.out ≡ Call.ds_ready ∷ Call.al_read_req 3 4 ∷ dl_end_call ∷ sent rs p.out)
      × (q.ds.master_ds.bytes ≡ p.ds.master_ds.bytes)
download_sends rs p cs s d n h v =
    let a = run-IsSentAll rs p s d n h v in
    let mid = run (replicate (suc (length rs)) write_ok) p in
    let f = finish mid cs a.state in
    rw
      (run-append (replicate (suc (length rs)) write_ok)
        (write_ok ∷ Job.al_read_cnf 4 cs SmiError.no_error ∷ []) p)
      (
        f.0,
        f.1 ∙ ap (λ out. Call.ds_ready ∷ Call.al_read_req 3 4 ∷ out) a.out,
        ap (λ (m : MasterDs). m.bytes) f.2 ∙ a.bytes,
      )
