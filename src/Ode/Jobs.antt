-- ===== src/Ode/Jobs.antt =====
-- The callbacks that the main thread runs for the layer's jobs.
use iol_hat.Base.{ℕ, ◌+◌, List, ◌==◌, leb, if◌then◌else◌, u8, sub8, take, replicate, overwrite}
use iol_hat.Types.{SmiErrortype}
use iol_hat.Types.ArgBlock
use iol_hat.Types.SmiError
use iol_hat.Ode.State.{State, Event, SmiServiceReq, Port}
use iol_hat.Ode.Table.{iolink_ode_event}

-- What a posted job carries, by its callback.
pub data Job : Type 0 where
  od_start : Job
  od_stop : Job
  smi_rw_req : SmiServiceReq → Job
  al_read_cnf : (data_len : ℕ) (bytes : List ℕ) (errortype : SmiErrortype) → Job
  al_write_cnf : SmiErrortype → Job

-- What `ode_read_cnf_cb` makes of the stored request when the read succeeded. A write past the end
-- of the client's block changes nothing here.
unfoldable pub store_read : ℕ → List ℕ → SmiServiceReq → SmiServiceReq
store_read len bytes req =
    let block = req.arg_block in
    let room = sub8 (u8 req.arg_block_len) ArgBlock.sizeof_od in
    let cleared = overwrite block.bytes 0 (replicate room 0) in
    if leb len room
    then record req {
      arg_block = record block { bytes = overwrite cleared 0 (take len bytes) };
      arg_block_len = u8 (len + ArgBlock.sizeof_od);
    }
    else record req { result = SmiError.argblock_length_invalid }

unfoldable pub ode_read_cnf_cb : ℕ → List ℕ → SmiErrortype → Port → Port
ode_read_cnf_cb len bytes errortype p =
    let req = record p.ode.smi_req { result = errortype } in
    let req' = if errortype == SmiError.no_error then store_read len bytes req else req in
    iolink_ode_event (record p { ode = record p.ode { smi_req = req' } }) Event.od_unblock

unfoldable pub ode_write_cnf_cb : SmiErrortype → Port → Port
ode_write_cnf_cb errortype p =
    let req = p.ode.smi_req in
    let req' = if errortype == SmiError.no_error then req else record req { result = errortype } in
    iolink_ode_event (record p { ode = record p.ode { smi_req = req' } }) Event.od_unblock

unfoldable pub od_start_cb : Port → Port
od_start_cb p = iolink_ode_event p Event.od_start

unfoldable pub od_stop_cb : Port → Port
od_stop_cb p = iolink_ode_event p Event.od_stop

-- The `switch` on the state.
accept_rw : State → SmiServiceReq → Port → Port
accept_rw State.od_active req p =
    let req' = record req { result = SmiError.no_error } in
    iolink_ode_event (record p { ode = record p.ode { smi_req = req' } }) Event.smi_dev_rw_4
accept_rw State.inactive req p =
    iolink_ode_event (record p { ode = record p.ode { job_smi_req_busy = req } }) Event.smi_dev_rw_1
accept_rw State.od_blocked req p =
    iolink_ode_event (record p { ode = record p.ode { job_smi_req_busy = req } }) Event.smi_dev_rw_6

unfoldable pub smi_rw_req_cb : SmiServiceReq → Port → Port
unfolding accept_rw
smi_rw_req_cb req p = accept_rw p.ode.state req p

unfoldable pub callback : Job → Port → Port
unfolding od_start_cb od_stop_cb smi_rw_req_cb ode_read_cnf_cb ode_write_cnf_cb
callback Job.od_start p = od_start_cb p
callback Job.od_stop p = od_stop_cb p
callback (Job.smi_rw_req req) p = smi_rw_req_cb req p
callback (Job.al_read_cnf len bytes errortype) p = ode_read_cnf_cb len bytes errortype p
callback (Job.al_write_cnf errortype) p = ode_write_cnf_cb errortype p

unfoldable pub run : List Job → Port → Port
run List.[] p = p
run (List.◌∷◌ j js) p = run js (callback j p)

-- `iolink_ode_init`: only the state is written.
unfoldable pub iolink_ode_init : Port → Port
iolink_ode_init p = record p { ode = record p.ode { state = State.inactive } }
