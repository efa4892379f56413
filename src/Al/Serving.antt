-- ===== src/Al/Serving.antt =====
-- The jobs of ilink/iolink_al.c make the application layer the server of `Al.Server`.
use iol_hat.Base.{ℕ, ◌≡◌, refl, List, [], ◌∷◌, ◌++◌, Bool, true, false, not, ◌&&◌, ◌∙◌, suc, arith}
use iol_hat.Base.{none, some, and_left, and_right}
use iol_hat.Fsm.{iteration, event_loop}
use iol_hat.Types.Dl.{Direction}
use iol_hat.Al.State.{OdState, CnfCb, Service, Call, Port}
use iol_hat.Al.Od.{al_od_busy, build, al_od_build_dl_service, al_od_send_al_cnf}
use iol_hat.Al.Od.{al_od_send_abort_al_cnf, al_od_isdu_read, al_od_isdu_write, al_od_param_read}
use iol_hat.Al.Od.{al_od_isdu_read_write, al_od_param_write, al_od_param_next_rw}
use iol_hat.Al.Od.{call_read_cnf, call_write_cnf, confirm}
use iol_hat.Al.Od.{iolink_al_od_fsm, iolink_al_od_event}
use iol_hat.Al.EventSet.{al_event_wait_read, al_event_du_handle, al_event_idle, al_event_ind}
use iol_hat.Al.EventSet.{iolink_al_event_fsm, iolink_al_event_event}
use iol_hat.Al.Jobs.{Job, callback, run, al_read_write_cb, al_dl_event_ind_cb, dl_control_ind_cb}
use iol_hat.Al.Jobs.{al_dl_readparam_cnf_cb, al_dl_writeparam_cnf_cb, al_dl_isdu_transport_cnf_cb}
use iol_hat.Al.Jobs.{al_abort_cb, al_event_rsp_cb, al_event_req_cb}
use iol_hat.Al.Server.{Channel, Request, Answer, Server, serve, serve_all}

abbrev client_of : CnfCb → ℕ
client_of CnfCb.no_cb = 0
client_of (CnfCb.al_read_cnf_cb client) = client
client_of (CnfCb.al_write_cnf_cb client) = client

abbrev request : Channel → Service → Request
request c s = record { channel = c; direction = s.direction; client = client_of s.cnf_cb }

abbrev view_at : OdState → Service → Server
view_at OdState.await_dl_param_cnf s = some (request Channel.param s)
view_at OdState.await_dl_isdu_cnf s = some (request Channel.isdu s)
view_at _ s = none

-- The server that a port is.
abbrev pub view : Port → Server
view p = view_at p.al.od_state p.al.service

-- The answers that the clients got, the latest first.
abbrev pub answered : List Call → List Answer
answered [] = []
answered (Call.al_read_cnf client len bytes errortype ∷ cs) =
    record { direction = Direction.read; client = client } ∷ answered cs
answered (Call.al_write_cnf client errortype ∷ cs) =
    record { direction = Direction.write; client = client } ∷ answered cs
answered (_ ∷ cs) = answered cs

abbrev pub wrong_calls : List Call → ℕ
wrong_calls [] = 0
wrong_calls (Call.wrong_cnf ∷ cs) = suc (wrong_calls cs)
wrong_calls (_ ∷ cs) = wrong_calls cs

abbrev fits : Direction → CnfCb → Bool
fits Direction.read (CnfCb.al_read_cnf_cb client) = true
fits Direction.write (CnfCb.al_write_cnf_cb client) = true
fits _ _ = false

-- Between two jobs no service is being built, and while one is worked on the callback is that of
-- its direction.
abbrev serving : OdState → Service → Bool
serving OdState.onreq_idle s = true
serving OdState.build_dl_service s = false
serving _ s = fits s.direction s.cnf_cb

abbrev pub IsServing : Port → Type 0
IsServing p = serving p.al.od_state p.al.service ≡ true

abbrev is_read : Direction → Bool
is_read Direction.read = true
is_read Direction.write = false

abbrev confirms : Job → OdState → Direction → Bool
confirms (Job.dl_readparam_cnf val stat) OdState.await_dl_param_cnf d = is_read d
confirms (Job.dl_writeparam_cnf stat) OdState.await_dl_param_cnf d = not (is_read d)
confirms _ _ d = true

-- The data link layer confirms a direct parameter that was read as read, and one that was written
-- as written.
abbrev pub Confirms : Job → Port → Type 0
Confirms j p = confirms j p.al.od_state p.al.service.direction ≡ true

pub record Refined (p : Port) (j : Job) : Type 0 where
  pub serving : IsServing (callback j p)
  pub state : view (callback j p) ≡ (serve j (view p)).0
  pub answers : answered (callback j p).out ≡ (serve j (view p)).1 ++ answered p.out
  pub calls : wrong_calls (callback j p).out ≡ wrong_calls p.out

callback-Refined :
    (p : Port) (j : Job) (s : OdState) (d : Direction) (cb : CnfCb)
    → p.al.od_state ≡ s
    → p.al.service.direction ≡ d
    → p.al.service.cnf_cb ≡ cb
    → IsServing p
    → Confirms j p
    → Refined p j
unfolding callback al_read_write_cb al_dl_event_ind_cb dl_control_ind_cb al_dl_readparam_cnf_cb
    al_dl_writeparam_cnf_cb al_dl_isdu_transport_cnf_cb al_abort_cb al_event_rsp_cb al_event_req_cb
    iolink_al_od_event iolink_al_event_event event_loop iteration iolink_al_od_fsm
    iolink_al_event_fsm al_od_busy build al_od_build_dl_service al_od_send_al_cnf
    al_od_send_abort_al_cnf al_od_isdu_read al_od_isdu_write al_od_param_read al_od_isdu_read_write
    al_od_param_write al_od_param_next_rw call_read_cnf call_write_cnf confirm al_event_wait_read
    al_event_du_handle al_event_idle al_event_ind
callback-Refined p _ _ _ _ q r t h c = ground arith

abbrev pub all_confirm : List Job → Port → Bool
all_confirm [] p = true
all_confirm (j ∷ js) p =
    confirms j p.al.od_state p.al.service.direction && all_confirm js (callback j p)

-- Each confirmation of a direct parameter that comes while one is awaited is of the kind of the
-- request.
abbrev pub AllConfirm : List Job → Port → Type 0
AllConfirm js p = all_confirm js p ≡ true

one-Refined : (p : Port) (j : Job) → IsServing p → Confirms j p → Refined p j
one-Refined p j h c =
    callback-Refined p j p.al.od_state p.al.service.direction p.al.service.cnf_cb refl refl refl h c

-- Whatever jobs are worked off, the application layer is a server that works on one request at a
-- time, where the data link layer confirms what was asked: a request that meets a free server is
-- taken, one that meets a busy one or writes index 0 is answered at once, and the answer of the
-- device on the request's channel, or an abort, answers the request that is being worked on; each
-- answer goes to the client that asked, and no client is answered otherwise.
pub run-serve_all :
    (js : List Job) (p : Port)
    → IsServing p
    → AllConfirm js p
    → (view (run js p), answered (run js p).out) ≡ serve_all js (view p) (answered p.out)
unfolding run
run-serve_all [] p h c = refl
run-serve_all (j ∷ js) p h c =
    let r = one-Refined p j h (and_left _ _ c) in
    run-serve_all js (callback j p) r.serving (and_right _ _ c) ∙ rw (r.state, r.answers) refl

-- Whatever jobs are worked off, where the data link layer confirms what was asked, no callback is
-- called as one of the other kind.
pub run-wrong_calls :
    (js : List Job) (p : Port)
    → IsServing p
    → AllConfirm js p
    → wrong_calls (run js p).out ≡ wrong_calls p.out
unfolding run
run-wrong_calls [] p h c = refl
run-wrong_calls (j ∷ js) p h c =
    let r = one-Refined p j h (and_left _ _ c) in
    run-wrong_calls js (callback j p) r.serving (and_right _ _ c) ∙ r.calls
