-- ===== src/Ode/Examples.antt =====
-- Runs of the on-request data layer on small inputs, and the theorems at such inputs.
use iol_hat.Base.{◌+◌, ◌≡◌, ◌≢◌, refl, List, [], ◌∷◌, length, arith}
use iol_hat.Types.ArgBlock
use iol_hat.Types.SmiError
use iol_hat.Fsm.{iteration, event_loop}
use iol_hat.Ode.State.{State, ArgBlockOd, SmiServiceReq, Call, Port}
use iol_hat.Ode.Table.{iolink_ode_fsm, iolink_ode_event}
use iol_hat.Ode.Actions.{ode_smi_od_err, ode_smi_rw, ode_smi_done, ode_wait, ode_od_start}
use iol_hat.Ode.Jobs.{Job, callback, run, ode_read_cnf_cb, store_read}
use iol_hat.Ode.Answers.{answers, owed, services, all_dropped}
use iol_hat.Ode.Answers.{run-answers}
use iol_hat.Ode.ReadCnf.{IsStored, IsSized}
use iol_hat.Ode.ReadCnf.{ode_read_cnf_cb_short, ode_read_cnf_cb-IsStored}

abbrev read_block : ArgBlockOd
read_block = record { id = ArgBlock.od_rd; index = 16; subindex = 0; bytes = 9 ∷ 9 ∷ 9 ∷ [] }

abbrev read_req : SmiServiceReq
read_req = record {
  exp_arg_block_id = ArgBlock.od_rd;
  arg_block_len = 8;
  arg_block = read_block;
  result = 0;
}

abbrev short_req : SmiServiceReq
short_req = record read_req { arg_block_len = 2 }

abbrev port_in : State → Port
port_in s = record {
  ode = record { state = s; smi_req = read_req; job_smi_req_busy = read_req };
  out = [];
}

-- Start, a read, a second read while the first is worked on, and the device's answer.
abbrev script : List Job
script =
    Job.od_start
    ∷ Job.smi_rw_req read_req
    ∷ Job.smi_rw_req read_req
    ∷ Job.al_read_cnf 2 (7 ∷ 8 ∷ []) SmiError.no_error
    ∷ []

script_runs :
    (run script (port_in State.inactive)).out
    ≡ Call.smi_cnf ArgBlock.od_rd 7 (record read_block { bytes = 7 ∷ 8 ∷ 0 ∷ [] })
      ∷ Call.smi_joberror_ind ArgBlock.od_rd ArgBlock.od_rd SmiError.service_temp_unavailable
      ∷ Call.al_read_req 16 0
      ∷ []
unfolding run callback store_read iolink_ode_event event_loop iteration iolink_ode_fsm
    ode_smi_od_err ode_smi_rw ode_smi_done ode_wait ode_od_start
script_runs = refl

run-answers_example :
    answers (run script (port_in State.inactive)).out
      + owed (run script (port_in State.inactive)).ode.state
      + all_dropped script (port_in State.inactive)
    ≡ 2
run-answers_example = run-answers script (port_in State.inactive) (λ e. absurd (ground arith))

asks : services (callback (Job.smi_rw_req read_req) (port_in State.od_active)).out ≢ 0
unfolding callback iolink_ode_event event_loop iteration iolink_ode_fsm ode_smi_rw ode_wait
asks e = ground arith

read_req-IsSized : IsSized read_req
read_req-IsSized = omega arith

-- Four bytes of an answer, for a block of three.
abbrev short_port : Port
short_port =
    let p = port_in State.od_blocked in record p { ode = record p.ode { smi_req = short_req } }

ode_read_cnf_cb_short_example :
    let q = ode_read_cnf_cb 4 (6 ∷ 7 ∷ 8 ∷ 9 ∷ []) 0 short_port in
    (q.ode.state ≡ State.od_active)
    × (q.out ≡ Call.smi_cnf ArgBlock.od_rd (4 + 5) q.ode.smi_req.arg_block ∷ [])
    × (length q.ode.smi_req.arg_block.bytes ≡ 3)
ode_read_cnf_cb_short_example =
    ode_read_cnf_cb_short short_port 4 (6 ∷ 7 ∷ 8 ∷ 9 ∷ []) refl refl (omega arith) (omega arith)

ode_read_cnf_cb-IsStored_example :
    let q = ode_read_cnf_cb 2 (7 ∷ 8 ∷ []) 0 (port_in State.od_blocked) in
    (q.ode.state ≡ State.od_active)
    × (q.out ≡ Call.smi_cnf ArgBlock.od_rd (2 + 5) q.ode.smi_req.arg_block ∷ [])
    × IsStored 2 (7 ∷ 8 ∷ []) read_req (record q.ode.smi_req { result = 0 })
ode_read_cnf_cb-IsStored_example =
    ode_read_cnf_cb-IsStored (port_in State.od_blocked) 2 (7 ∷ 8 ∷ []) refl refl read_req-IsSized
      (omega arith) (omega arith)
