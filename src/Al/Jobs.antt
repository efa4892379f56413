-- ===== src/Al/Jobs.antt =====
-- The callbacks that the main thread runs for the layer's jobs.
use iol_hat.Base.{ℕ, ◌+◌, ◌==◌, ltb, if◌then◌else◌, List, [], ◌∷◌, set, u8}
use iol_hat.Base.{replicate}
use iol_hat.Types.Dl.{Status, Direction, Iservice, Controlcode}
use iol_hat.Al.State.{OdState, OdEvent, EventState, EventEvent, JobReq, CnfCb, DiagEntry, Al}
use iol_hat.Al.State.{Call, Port, emit, assert, set_service}
use iol_hat.Al.Od.{iolink_al_od_event}
use iol_hat.Al.EventSet.{iolink_al_event_event}

-- What a posted job carries, by its callback.
pub data Job : Type 0 where
  al_read_req : (index subindex client : ℕ) → Job
  al_write_req : (index subindex len : ℕ) (bytes : List ℕ) (client : ℕ) → Job
  dl_event_ind : (event : DiagEntry) (eventsleft : ℕ) → Job
  dl_control_ind : (controlcode : Controlcode) → Job
  dl_readparam_cnf : (val : ℕ) (stat : Status) → Job
  dl_writeparam_cnf : (stat : Status) → Job
  dl_isdu_trans_cnf : (stat : Status) (qualifier : Iservice) → Job
  al_abort al_event_rsp al_event_req : Job

unfoldable pub al_read_write_cb : JobReq → Port → Port
al_read_write_cb req p =
    iolink_al_od_event (set_service (record p.al.service { job_req = req }) p) OdEvent.service

-- An entry that would stand behind the array's end is not kept.
unfoldable pub al_dl_event_ind_cb : DiagEntry → ℕ → Port → Port
al_dl_event_ind_cb event eventsleft p =
    let q = assert (ltb p.al.event_cnt 6) p in
    let r = record q {
      al = record q.al {
        events = set q.al.events q.al.event_cnt event;
        event_cnt = u8 (q.al.event_cnt + 1);
      };
    } in
    iolink_al_event_event r
      (if eventsleft == 0 then EventEvent.dl_event_ind_done else EventEvent.dl_event_ind_more)

unfoldable pub dl_control_ind_cb : Controlcode → Port → Port
dl_control_ind_cb controlcode p = emit (Call.al_control_ind controlcode) p

unfoldable pub al_dl_readparam_cnf_cb : ℕ → Status → Port → Port
al_dl_readparam_cnf_cb val stat p =
    let s = p.al.service in
    iolink_al_od_event
      (set_service
        (record s {
          data_read = set s.data_read s.data_len val;
          data_len = u8 (s.data_len + 1);
          errinfo = stat;
        })
        p)
      OdEvent.readparam_cnf

-- `octets_left` is always false.
unfoldable pub al_dl_writeparam_cnf_cb : Status → Port → Port
al_dl_writeparam_cnf_cb stat p =
    iolink_al_od_event (set_service (record p.al.service { errinfo = stat }) p)
      OdEvent.writeparam_cnf

unfoldable pub al_dl_isdu_transport_cnf_cb : Status → Iservice → Port → Port
al_dl_isdu_transport_cnf_cb stat qualifier p =
    iolink_al_od_event
      (set_service (record p.al.service { errinfo = stat; qualifier = qualifier }) p)
      OdEvent.isdutransport_cnf

abbrev abort_event : OdState → OdEvent
abort_event OdState.onreq_idle = OdEvent.abort_port
abort_event _ = OdEvent.abort

unfoldable pub al_abort_cb : Port → Port
al_abort_cb p =
    iolink_al_od_event
      (set_service (record p.al.service { errinfo = Status.isdu_abort; data_len = 0 }) p)
      (abort_event p.al.od_state)

unfoldable pub al_event_rsp_cb : Port → Port
al_event_rsp_cb p = iolink_al_event_event p EventEvent.al_event_rsp

unfoldable pub al_event_req_cb : Port → Port
al_event_req_cb p = iolink_al_event_event p EventEvent.al_event_req

unfoldable pub callback : Job → Port → Port
unfolding al_read_write_cb al_dl_event_ind_cb dl_control_ind_cb al_dl_readparam_cnf_cb
    al_dl_writeparam_cnf_cb al_dl_isdu_transport_cnf_cb al_abort_cb al_event_rsp_cb al_event_req_cb
callback (Job.al_read_req index subindex client) p =
    al_read_write_cb (JobReq.al_read_req index subindex client) p
callback (Job.al_write_req index subindex len bytes client) p =
    al_read_write_cb (JobReq.al_write_req index subindex len bytes client) p
callback (Job.dl_event_ind event eventsleft) p = al_dl_event_ind_cb event eventsleft p
callback (Job.dl_control_ind controlcode) p = dl_control_ind_cb controlcode p
callback (Job.dl_readparam_cnf val stat) p = al_dl_readparam_cnf_cb val stat p
callback (Job.dl_writeparam_cnf stat) p = al_dl_writeparam_cnf_cb stat p
callback (Job.dl_isdu_trans_cnf stat qualifier) p = al_dl_isdu_transport_cnf_cb stat qualifier p
callback Job.al_abort p = al_abort_cb p
callback Job.al_event_rsp p = al_event_rsp_cb p
callback Job.al_event_req p = al_event_req_cb p

unfoldable pub run : List Job → Port → Port
run [] p = p
run (j ∷ js) p = run js (callback j p)

-- `memset` leaves the direction WRITE, which is 0.
abbrev pub init_al : Al
init_al = record {
  od_state = OdState.onreq_idle;
  event_state = EventState.event_idle;
  pdin_data = replicate 32 0;
  pdin_data_len = 0;
  service = record {
    index = 0;
    subindex = 0;
    direction = Direction.write;
    data_read = replicate 241 0;
    data_write = [];
    data_len = 0;
    errinfo = Status.no_error;
    qualifier = 0;
    job_req = JobReq.other_req;
    cnf_cb = CnfCb.no_cb;
  };
  event_cnt = 0;
  events = replicate 6 (record { event_qualifier = 0; event_code = 0 });
}

unfoldable pub iolink_al_init : Port → Port
iolink_al_init p = record p { al = init_al }
