-- ===== src/Al/Api.antt =====
-- The functions that other layers call: each posts one job.
use iol_hat.Base.{ℕ, leb, if◌then◌else◌, List, overwrite, take, Option, none, some}
use iol_hat.Base.{◌==◌}
use iol_hat.Types.{IolinkError, JobType}
use iol_hat.Types.Dl.{Status, Direction, Iservice, Controlcode, write_response_neg}
use iol_hat.Al.State.{DiagEntry, Port, set_service}
use iol_hat.Al.Jobs.{Job}
use iol_hat.Al.Errors.{is_no_error}

-- A posted job: its type, and what its callback reads.
pub record Posted : Type 0 where
  pub type : JobType
  pub job : Job

unfoldable pub al_read_req : ℕ → ℕ → ℕ → IolinkError × Posted
al_read_req index subindex client = (
  IolinkError.none,
  record { type = JobType.al_read_req; job = Job.al_read_req index subindex client },
)

unfoldable pub al_write_req : ℕ → ℕ → ℕ → List ℕ → ℕ → IolinkError × Posted
al_write_req index subindex len bytes client = (
  IolinkError.none,
  record { type = JobType.al_write_req; job = Job.al_write_req index subindex len bytes client },
)

unfoldable pub dl_event_ind : ℕ → ℕ → ℕ → Posted
dl_event_ind eventcode event_qualifier eventsleft =
    let event : DiagEntry = record { event_qualifier = event_qualifier; event_code = eventcode } in
    record { type = JobType.dl_event_ind; job = Job.dl_event_ind event eventsleft }

unfoldable pub dl_control_ind : Controlcode → Posted
dl_control_ind controlcode = record {
  type = JobType.dl_control_ind;
  job = Job.dl_control_ind controlcode;
}

unfoldable pub dl_read_param_cnf : ℕ → Status → Posted
dl_read_param_cnf value errinfo = record {
  type = JobType.dl_readparam_cnf;
  job = Job.dl_readparam_cnf value errinfo;
}

unfoldable pub dl_write_param_cnf : Status → Posted
dl_write_param_cnf errinfo = record {
  type = JobType.dl_writeparam_cnf;
  job = Job.dl_writeparam_cnf errinfo;
}

-- The response that is kept, where it fits: `data_read` has 241 bytes.
unfoldable pub keep_response : Option (List ℕ) → ℕ → Port → Port
keep_response none length p = p
keep_response (some bytes) length p =
    let s = p.al.service in
    if leb length 241
    then set_service
        (record s { data_read = overwrite s.data_read 0 (take length bytes); data_len = length }) p
    else p

-- Which responses are to be kept.
unfoldable pub take_response : Direction → Option (List ℕ) → ℕ → Iservice → Status → Port → Port
unfolding keep_response
take_response Direction.read bytes length qualifier errinfo p =
    if is_no_error errinfo then keep_response bytes length p else p
take_response Direction.write bytes length qualifier errinfo p =
    if qualifier == write_response_neg then keep_response bytes length p else p

unfoldable pub dl_isdu_transport_cnf :
    Option (List ℕ) → ℕ → Iservice → Status → Port → Port × Posted
unfolding take_response
dl_isdu_transport_cnf bytes length qualifier errinfo p = (
  take_response p.al.service.direction bytes length qualifier errinfo p,
  record { type = JobType.dl_isdu_trans_cnf; job = Job.dl_isdu_trans_cnf errinfo qualifier },
)

unfoldable pub al_abort : IolinkError × Posted
al_abort = (IolinkError.none, record { type = JobType.al_abort; job = Job.al_abort })

unfoldable pub al_event_rsp : IolinkError × Posted
al_event_rsp = (IolinkError.none, record { type = JobType.al_event_rsp; job = Job.al_event_rsp })

unfoldable pub al_event_req : IolinkError × Posted
al_event_req = (IolinkError.none, record { type = JobType.al_event_req; job = Job.al_event_req })
