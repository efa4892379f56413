-- ===== src/Al/Examples.antt =====
-- Runs of the application layer on small inputs, and the theorems at such inputs.
use iol_hat.Base.{ℕ, ◌≡◌, refl, List, [], ◌∷◌, none, arith, take, overwrite, replicate}
use iol_hat.Types.ArgBlock
use iol_hat.Types.SmiError
use iol_hat.Types.Dl.{Status, Direction, read_response_pos, write_response_neg}
use iol_hat.Al.State.{OdState, DiagEntry, Call, Port}
use iol_hat.Al.EventSet.{has_upload_req}
use iol_hat.Al.Jobs.{Job, callback, run, init_al}
use iol_hat.Al.Server.{serve_all}
use iol_hat.Al.Serving.{view, answered, run-serve_all}
use iol_hat.Al.Delivery.{read_request, write_request}
use iol_hat.Al.Told.{responded, read-delivered, write_error-told}
use iol_hat.Al.Collecting.{event_jobs}
use iol_hat.Al.Reporting.{
  IsReady, IsHolding, run_sets, uploads, events-reported, stale_upload-again,
}

abbrev start : Port
start = record { al = init_al; out = [] }

-- A read by client 1, one by client 2 that meets a busy layer, and the device's answer.
abbrev two_reads : List Job
two_reads =
    Job.al_read_req 16 0 1
    ∷ Job.al_read_req 17 0 2
    ∷ Job.dl_isdu_trans_cnf Status.no_error read_response_pos
    ∷ []

run-serve_all_example :
    (view (run two_reads start), answered (run two_reads start).out) ≡ serve_all two_reads none []
run-serve_all_example = run-serve_all two_reads start refl refl

-- The second client is answered first.
two_reads_answered : serve_all two_reads none [] ≡ (
  none,
  record { direction = Direction.read; client = 1 }
      ∷ (record { direction = Direction.read; client = 2 } ∷ []),
)
two_reads_answered = refl

abbrev others : List Job
others = Job.al_write_req 12 0 1 (2 ∷ []) 7 ∷ Job.al_event_req ∷ []

abbrev read_16 : Job
read_16 = Job.al_read_req 16 0 1

read-delivered_example :
    let q = run others (responded others (65 ∷ (66 ∷ [])) read_response_pos read_16 start) in
    let r = callback (Job.dl_isdu_trans_cnf Status.no_error read_response_pos) q in
    let told : List ℕ = overwrite (replicate 241 0) 0 (65 ∷ (66 ∷ [])) in
    ((callback read_16 start).out
      ≡ Call.dl_isdu_transport_req (read_request 16 0 (replicate 241 0)) ∷ [])
    × (r.al.od_state ≡ OdState.onreq_idle)
    × (r.out ≡ Call.al_read_cnf 1 2 told SmiError.no_error ∷ q.out)
    × (take 2 told ≡ 65 ∷ (66 ∷ []))
read-delivered_example =
    read-delivered start 16 0 1 (65 ∷ (66 ∷ [])) others others refl refl (omega arith) (omega arith)
      refl refl

abbrev write_24 : Job
write_24 = Job.al_write_req 24 0 1 (9 ∷ []) 1

write_error-told_example :
    let q = run others (responded others (0x80 ∷ (0x30 ∷ [])) write_response_neg write_24 start) in
    let r = callback (Job.dl_isdu_trans_cnf Status.no_error write_response_neg) q in
    ((callback write_24 start).out
      ≡ Call.dl_isdu_transport_req (write_request 24 0 (9 ∷ []) 1) ∷ [])
    × (r.al.od_state ≡ OdState.onreq_idle)
    × (r.out ≡ Call.al_write_cnf 1 0x8030 ∷ q.out)
write_error-told_example =
    write_error-told start 24 0 1 1 0x80 0x30 (9 ∷ []) others others refl refl (omega arith)
      (omega arith) refl refl

abbrev warning : DiagEntry
warning = record { event_qualifier = 0xE4; event_code = 0x4210 }

abbrev upload : DiagEntry
upload = record { event_qualifier = 0x54; event_code = 0xFF91 }

start-IsReady : IsReady start
start-IsReady = record { event_state = refl; event_cnt = refl; events = refl }

events-reported_example :
    let q = run (event_jobs (warning ∷ (warning ∷ []))) start in
    (q.out
      ≡ Call.smi_cnf_devevent ArgBlock.void_block ArgBlock.sizeof_devevent 2
          (warning ∷ (warning ∷ []))
        ∷ (Call.al_event_rsp ∷ []))
    × IsReady (callback Job.al_event_rsp q)
unfolding has_upload_req
events-reported_example =
    events-reported warning (warning ∷ []) start start-IsReady (omega arith) refl

stale_upload-again_example :
    let sets = (warning ∷ (upload ∷ [])) ∷ ((warning ∷ []) ∷ ((warning ∷ []) ∷ [])) in
    let q = run_sets sets start in IsHolding 1 upload q × (q.out ≡ uploads 3 [])
stale_upload-again_example =
    stale_upload-again warning (upload ∷ []) ((warning ∷ []) ∷ ((warning ∷ []) ∷ [])) start 1
      start-IsReady (omega arith) refl (omega arith, omega arith, (omega arith, omega arith, tt))
