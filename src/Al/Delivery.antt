-- ===== src/Al/Delivery.antt =====
-- An application layer that waits for the device's answer to a service data unit.
use iol_hat.Base.{ℕ, ◌≤◌, ◌≡◌, Bool, true, false, ◌==◌, ◌&&◌, List, [], ◌∷◌}
use iol_hat.Base.{some, take_all, overwrite, length, le→leb, arith}
use iol_hat.Base.{and_left, and_right}
use iol_hat.Fsm.{iteration, event_loop}
use iol_hat.Types.Dl.{Status, Direction, Iservice, ValueList}
use iol_hat.Types.Dl.{write_response_neg}
use iol_hat.Al.State.{OdState, CnfCb, Call, Port}
use iol_hat.Al.Errors.{is_no_error}
use iol_hat.Al.Od.{al_od_busy, build, al_od_build_dl_service}
use iol_hat.Al.Od.{al_od_isdu_read, al_od_isdu_write, al_od_isdu_read_write}
use iol_hat.Al.Od.{iolink_al_od_fsm, iolink_al_od_event}
use iol_hat.Al.EventSet.{al_event_wait_read, al_event_du_handle, al_event_idle, al_event_ind}
use iol_hat.Al.EventSet.{iolink_al_event_fsm, iolink_al_event_event}
use iol_hat.Al.Jobs.{Job, callback, run, al_read_write_cb, al_dl_event_ind_cb, dl_control_ind_cb}
use iol_hat.Al.Jobs.{al_event_rsp_cb, al_event_req_cb}
use iol_hat.Al.Api.{keep_response, take_response, dl_isdu_transport_cnf}

-- The jobs that may come while the device works: further requests, the device's events and its
-- control codes.
abbrev pub bystander : Job → Bool
bystander (Job.al_read_req index subindex client) = true
bystander (Job.al_write_req index subindex len bytes client) = true
bystander (Job.dl_event_ind event eventsleft) = true
bystander (Job.dl_control_ind controlcode) = true
bystander Job.al_event_rsp = true
bystander Job.al_event_req = true
bystander _ = false

abbrev pub bystanders : List Job → Bool
bystanders [] = true
bystanders (j ∷ js) = bystander j && bystanders js

-- A port that waits for the answer to a service data unit of a client.
pub record IsAwaiting (d : Direction) (cb : CnfCb) (bytes : List ℕ) (len : ℕ) (p : Port)
    : Type 0 where
  pub od_state : p.al.od_state ≡ OdState.await_dl_isdu_cnf
  pub direction : p.al.service.direction ≡ d
  pub cnf_cb : p.al.service.cnf_cb ≡ cb
  pub data_read : p.al.service.data_read ≡ bytes
  pub data_len : p.al.service.data_len ≡ len

module _ {d : Direction} {cb : CnfCb} {bytes : List ℕ} {len : ℕ} where
  bystander-IsAwaiting :
      (p : Port) (j : Job)
      → bystander j ≡ true
      → IsAwaiting d cb bytes len p
      → IsAwaiting d cb bytes len (callback j p)
  unfolding callback al_read_write_cb al_dl_event_ind_cb dl_control_ind_cb al_event_rsp_cb
      al_event_req_cb iolink_al_od_event iolink_al_event_event event_loop iteration iolink_al_od_fsm
      iolink_al_event_fsm al_od_busy al_event_wait_read al_event_du_handle al_event_idle
      al_event_ind
  bystander-IsAwaiting p _ b h =
      let q = h.od_state in ground (arith, h.direction, h.cnf_cb, h.data_read, h.data_len)

  pub run-IsAwaiting :
      (js : List Job) (p : Port)
      → bystanders js ≡ true
      → IsAwaiting d cb bytes len p
      → IsAwaiting d cb bytes len (run js p)
  unfolding run
  run-IsAwaiting [] p b h = h
  run-IsAwaiting (j ∷ js) p b h =
      run-IsAwaiting js (callback j p) (and_right _ _ b)
        (bystander-IsAwaiting p j (and_left _ _ b) h)

abbrev pub read_request : ℕ → ℕ → List ℕ → ValueList
read_request index subindex bytes = record {
  index = index;
  subindex = subindex;
  bytes = bytes;
  length = 0;
  readwrite = Direction.read;
}

abbrev pub write_request : ℕ → ℕ → List ℕ → ℕ → ValueList
write_request index subindex bytes len = record {
  index = index;
  subindex = subindex;
  bytes = bytes;
  length = len;
  readwrite = Direction.write;
}

pub read-IsAwaiting :
    (p : Port) (index subindex client : ℕ)
    → p.al.od_state ≡ OdState.onreq_idle
    → 2 ≤ index
    → let q = callback (Job.al_read_req index subindex client) p in
      IsAwaiting Direction.read (CnfCb.al_read_cnf_cb client) p.al.service.data_read 0 q
      × (q.out
          ≡ Call.dl_isdu_transport_req (read_request index subindex p.al.service.data_read) ∷ p.out)
unfolding callback al_read_write_cb iolink_al_od_event event_loop iteration iolink_al_od_fsm build
    al_od_build_dl_service al_od_isdu_read al_od_isdu_read_write
read-IsAwaiting p index subindex client h i = ground arith

pub write-IsAwaiting :
    (p : Port) (index subindex len client : ℕ) (bytes : List ℕ)
    → p.al.od_state ≡ OdState.onreq_idle
    → 2 ≤ index
    → let q = callback (Job.al_write_req index subindex len bytes client) p in
      IsAwaiting Direction.write (CnfCb.al_write_cnf_cb client) p.al.service.data_read len q
      × (q.out ≡ Call.dl_isdu_transport_req (write_request index subindex bytes len) ∷ p.out)
unfolding callback al_read_write_cb iolink_al_od_event event_loop iteration iolink_al_od_fsm build
    al_od_build_dl_service al_od_isdu_write al_od_isdu_read_write
write-IsAwaiting p index subindex len client bytes h i = ground arith

abbrev keeps : Direction → Iservice → Status → Bool
keeps Direction.read qualifier stat = is_no_error stat
keeps Direction.write qualifier stat = qualifier == write_response_neg

-- What the layer makes of the device's answer: the response is kept when it is announced, and the
-- client is told when its job is worked off.
module _ (p : Port) {d : Direction} {cb : CnfCb} {old : List ℕ} {old_len : ℕ} where
  pub response-IsAwaiting :
      (bytes : List ℕ) (qualifier : ℕ) (stat : Status)
      → IsAwaiting d cb old old_len p
      → length bytes ≤ 241
      → keeps d qualifier stat ≡ true
      → IsAwaiting d cb
          (overwrite old 0 bytes)
          (length bytes)
          (dl_isdu_transport_cnf (some bytes) (length bytes) qualifier stat p).0
  unfolding dl_isdu_transport_cnf take_response keep_response
  response-IsAwaiting bytes qualifier stat h l e =
      let f = le→leb (length bytes) 241 l in
      let t = take_all (length bytes) bytes (omega arith) in
      ground (arith, h.od_state, h.direction, h.cnf_cb, h.data_read, h.data_len)
