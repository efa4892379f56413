-- ===== src/Al/Od.antt =====
-- The state machine of on-request data: its actions, tables and event loop.
use iol_hat.Base.{ℕ, ◌==◌, leb, if◌then◌else◌, Bool, true, false, List, [], ◌∷◌, get_or}
use iol_hat.Fsm.{Transition, Machine, event_loop}
use iol_hat.Types.{SmiErrortype}
use iol_hat.Types.SmiError
use iol_hat.Types.Dl.{Status, Direction, ValueList}
use iol_hat.Al.State.{OdState, OdEvent, od_value, JobReq, CnfCb, Service, Call, Port}
use iol_hat.Al.State.{emit, assert, set_service}
use iol_hat.Al.Errors.{al_err_to_errortype}

unfoldable pub al_od_busy : Port → OdEvent → Port × OdEvent
al_od_busy p event = (
  elim p.al.service.job_req [
    | JobReq.al_read_req index subindex client ↦
        emit (Call.al_read_cnf client 0 [] SmiError.service_temp_unavailable) p
    | JobReq.al_write_req index subindex len bytes client ↦
        emit (Call.al_write_cnf client SmiError.service_temp_unavailable) p
    | JobReq.other_req ↦ emit Call.assert_failed p
  ],
  OdEvent.none,
)

abbrev read_event : ℕ → OdEvent
read_event index = if leb index 1 then OdEvent.param_read else OdEvent.isdu_read

-- `isdu_flag` is always true.
abbrev write_event : ℕ → OdEvent
write_event index =
    if index == 1
    then OdEvent.param_write_1
    else (if leb 2 index then OdEvent.isdu_write else OdEvent.arg_err)

abbrev is_arg_err : OdEvent → Bool
is_arg_err OdEvent.arg_err = true
is_arg_err _ = false

-- The end of `al_od_build_dl_service`.
abbrev with_errinfo : OdEvent → Service → Service
with_errinfo res s = if is_arg_err res then record s { errinfo = Status.parameter_conflict } else s

unfoldable pub build : JobReq → Port → Port × OdEvent
build (JobReq.al_read_req index subindex client) p =
    let s = record p.al.service {
      data_len = 0;
      index = index;
      subindex = subindex;
      direction = Direction.read;
      cnf_cb = CnfCb.al_read_cnf_cb client;
    } in
    (set_service (with_errinfo (read_event index) s) p, read_event index)
build (JobReq.al_write_req index subindex len bytes client) p =
    let s = record p.al.service {
      index = index;
      subindex = subindex;
      data_len = len;
      direction = Direction.write;
      data_write = bytes;
      cnf_cb = CnfCb.al_write_cnf_cb client;
    } in
    (set_service (with_errinfo (write_event index) s) p, write_event index)
build JobReq.other_req p = (
  set_service (with_errinfo OdEvent.arg_err p.al.service) (emit Call.assert_failed p),
  OdEvent.arg_err,
)

unfoldable pub al_od_build_dl_service : Port → OdEvent → Port × OdEvent
unfolding build
al_od_build_dl_service p event = build p.al.service.job_req p

-- The calls through the union of callbacks.
unfoldable pub call_read_cnf : ℕ → List ℕ → SmiErrortype → Port → Port
call_read_cnf len bytes errortype p = elim p.al.service.cnf_cb [
  | CnfCb.al_read_cnf_cb client ↦ emit (Call.al_read_cnf client len bytes errortype) p
  | CnfCb.al_write_cnf_cb client ↦ emit Call.wrong_cnf p
  | CnfCb.no_cb ↦ emit Call.wrong_cnf p
]

unfoldable pub call_write_cnf : SmiErrortype → Port → Port
call_write_cnf errortype p = elim p.al.service.cnf_cb [
  | CnfCb.al_read_cnf_cb client ↦ emit Call.wrong_cnf p
  | CnfCb.al_write_cnf_cb client ↦ emit (Call.al_write_cnf client errortype) p
  | CnfCb.no_cb ↦ emit Call.wrong_cnf p
]

-- A confirmation by the direction of the service.
unfoldable pub confirm : Direction → ℕ → List ℕ → SmiErrortype → Port → Port
unfolding call_read_cnf call_write_cnf
confirm Direction.read len bytes errortype p = call_read_cnf len bytes errortype p
confirm Direction.write len bytes errortype p = call_write_cnf errortype p

abbrev negative : Port → Port
unfolding confirm al_err_to_errortype
negative p = confirm p.al.service.direction 0 [] (al_err_to_errortype p.al.service false) p

unfoldable pub al_od_send_al_cnf : Port → OdEvent → Port × OdEvent
unfolding al_err_to_errortype call_read_cnf call_write_cnf confirm
al_od_send_al_cnf p OdEvent.abort = (negative p, OdEvent.none)
al_od_send_al_cnf p OdEvent.arg_err = (negative p, OdEvent.none)
al_od_send_al_cnf p OdEvent.readparam_cnf =
    let s = p.al.service in
    (call_read_cnf s.data_len s.data_read (al_err_to_errortype s false) p, OdEvent.none)
al_od_send_al_cnf p OdEvent.isdutransport_cnf =
    let s = p.al.service in
    (confirm s.direction s.data_len s.data_read (al_err_to_errortype s true) p, OdEvent.none)
al_od_send_al_cnf p OdEvent.writeparam_cnf =
    (call_write_cnf (al_err_to_errortype p.al.service false) p, OdEvent.none)
al_od_send_al_cnf p _ = (emit Call.assert_failed p, OdEvent.none)

unfoldable pub al_od_send_abort_al_cnf : Port → OdEvent → Port × OdEvent
al_od_send_abort_al_cnf p event = (p, OdEvent.none)

-- What the data link layer returns is only logged.
unfoldable pub al_od_isdu_read_write : Direction → Port → Port × OdEvent
al_od_isdu_read_write rwdirection p =
    let s = p.al.service in
    let valuelist : ValueList = record {
      index = s.index;
      subindex = s.subindex;
      bytes = elim rwdirection [ Direction.read ↦ s.data_read | Direction.write ↦ s.data_write ];
      length = s.data_len;
      readwrite = rwdirection;
    } in
    (emit (Call.dl_isdu_transport_req valuelist) p, OdEvent.none)

unfoldable pub al_od_isdu_read : Port → OdEvent → Port × OdEvent
unfolding al_od_isdu_read_write
al_od_isdu_read p event = al_od_isdu_read_write Direction.read p

unfoldable pub al_od_isdu_write : Port → OdEvent → Port × OdEvent
unfolding al_od_isdu_read_write
al_od_isdu_write p event = al_od_isdu_read_write Direction.write p

unfoldable pub al_od_param_read : Port → OdEvent → Port × OdEvent
al_od_param_read p event = (emit (Call.dl_read_param_req p.al.service.index) p, OdEvent.none)

abbrev is_param_event : OdEvent → ℕ → Bool
is_param_event OdEvent.param_write_1 index = index == 1
is_param_event OdEvent.param_write_2 index = index == 2
is_param_event _ index = false

unfoldable pub al_od_param_write : Port → OdEvent → Port × OdEvent
al_od_param_write p event =
    let s = p.al.service in
    (
      emit (Call.dl_write_param_req s.index (get_or s.data_write 0 0))
          (assert (is_param_event event s.index) p),
      OdEvent.none,
    )

unfoldable pub al_od_param_next_rw : Port → OdEvent → Port × OdEvent
al_od_param_next_rw p event = (p, OdEvent.none)

abbrev OdTransition : Type 0
OdTransition = Transition OdState OdEvent Port

abbrev row : OdEvent → OdState → (Port → OdEvent → Port × OdEvent) → OdTransition
row e s a = record { event = e; next_state = s; action = a }

abbrev al_od_trans_s0 : List OdTransition
al_od_trans_s0 =
    row OdEvent.service OdState.build_dl_service al_od_build_dl_service
    ∷ row OdEvent.abort_port OdState.onreq_idle al_od_send_abort_al_cnf
    ∷ []

abbrev al_od_trans_s1 : List OdTransition
al_od_trans_s1 =
    row OdEvent.arg_err OdState.onreq_idle al_od_send_al_cnf
    ∷ row OdEvent.param_read OdState.await_dl_param_cnf al_od_param_read
    ∷ row OdEvent.param_write_1 OdState.await_dl_param_cnf al_od_param_write
    ∷ row OdEvent.param_write_2 OdState.await_dl_param_cnf al_od_param_write
    ∷ row OdEvent.isdu_read OdState.await_dl_isdu_cnf al_od_isdu_read
    ∷ row OdEvent.isdu_write OdState.await_dl_isdu_cnf al_od_isdu_write
    ∷ []

abbrev al_od_trans_s2 : List OdTransition
al_od_trans_s2 =
    row OdEvent.service OdState.await_dl_param_cnf al_od_busy
    ∷ row OdEvent.abort OdState.onreq_idle al_od_send_al_cnf
    ∷ row OdEvent.rwparam OdState.await_dl_param_cnf al_od_param_next_rw
    ∷ row OdEvent.readparam_cnf OdState.onreq_idle al_od_send_al_cnf
    ∷ row OdEvent.writeparam_cnf OdState.onreq_idle al_od_send_al_cnf
    ∷ []

abbrev al_od_trans_s3 : List OdTransition
al_od_trans_s3 =
    row OdEvent.abort OdState.onreq_idle al_od_send_al_cnf
    ∷ row OdEvent.service OdState.await_dl_isdu_cnf al_od_busy
    ∷ row OdEvent.isdutransport_cnf OdState.onreq_idle al_od_send_al_cnf
    ∷ []

unfoldable pub iolink_al_od_fsm : OdState → List OdTransition
iolink_al_od_fsm OdState.onreq_idle = al_od_trans_s0
iolink_al_od_fsm OdState.build_dl_service = al_od_trans_s1
iolink_al_od_fsm OdState.await_dl_param_cnf = al_od_trans_s2
iolink_al_od_fsm OdState.await_dl_isdu_cnf = al_od_trans_s3

abbrev pub od_machine : Machine OdState OdEvent Port
od_machine = record {
  fsm = iolink_al_od_fsm;
  state = λ p. p.al.od_state;
  set_state = λ s p. record p { al = record p.al { od_state = s } };
  value = od_value;
  no_event = OdEvent.none;
}

-- Two rounds are enough: `Al.Termination.iolink_al_od_event-Settles`.
unfoldable pub iolink_al_od_event : Port → OdEvent → Port
iolink_al_od_event = event_loop od_machine 2
