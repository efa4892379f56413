-- ===== src/Dl/IsduAnswers.antt =====
-- What the ISDU handler of ilink/iolink_dl.c confirms: a complete response, and errors.
use iol_hat.Base.{ℕ, Bool, true, false}
use iol_hat.Base.{if◌then◌else◌, List, [], Option, none, some}
use iol_hat.Types.Dl.{Status, Direction, no_service}
use iol_hat.Dl.State.{Port, IsduState, IhCmd, RwCmd, Trigger, Mhinfo, Call}
use iol_hat.Dl.State.{emit, set_isdu, set_rwcmd, inside, isdu_max_size}
use iol_hat.Dl.Isdu.{get_isdu_data_length}
use iol_hat.Dl.Isdu.{get_isdu_response_data, get_isdu_iserv, valid_isdu_header}
use iol_hat.Dl.Isdu.{valid_isdu_checksum, isdu_timer_elapsed}
use iol_hat.Dl.Requests.{Comchannel, od_req, ignored, flowctrl_abort}

abbrev pub set_state : IsduState → Port → Port
set_state s p = set_isdu (record p.isdu_handler { state = s }) p

abbrev pub cnf : Option (List ℕ) → ℕ → ℕ → Status → Port → Port
cnf bytes length qualifier errinfo p =
    emit (Call.dl_isdu_transport_cnf bytes length qualifier errinfo) p

abbrev pub is_abort : RwCmd → Bool
is_abort RwCmd.isduabort = true
is_abort _ = false

abbrev pub is_comlost : Mhinfo → Bool
is_comlost Mhinfo.comlost = true
is_comlost _ = false

-- The qualifier and the status of the confirmation in `isdu_error4`.
abbrev pub error_of : Port → ℕ × Status
unfolding isdu_timer_elapsed valid_isdu_header get_isdu_iserv
error_of p =
    if isdu_timer_elapsed p
    then (no_service, Status.isdu_timeout)
    else (if is_comlost p.mode_handler.mhinfo
        then (no_service, Status.no_comm)
        else (if is_abort p.message_handler.rwcmd
            then (no_service, Status.isdu_abort)
            else (if valid_isdu_header p.isdu_handler
                then (no_service, Status.invalid)
                else (get_isdu_iserv p.isdu_handler, Status.isdu_illegal_service_primitive))))

abbrev pub abort_request : Port → Port
unfolding od_req
abort_request p =
    let q = set_isdu (record p.isdu_handler { total_isdu_seg = 0 }) p in
    ignored (od_req Direction.read Comchannel.isdu flowctrl_abort 0 [] q)

unfoldable pub isdu_error4 : Port → Port
isdu_error4 p = elim p.isdu_handler.ihcmd [
  | IhCmd.inactive ↦ set_state IsduState.inactive p
  | IhCmd.active ↦
      let q = abort_request p in
      let (qualifier, errinfo) = error_of q in
      set_state IsduState.idle (set_rwcmd RwCmd.none (cnf none 0 qualifier errinfo q))
]

unfoldable pub enter_isduerror4 : Port → Port
unfolding isdu_error4
enter_isduerror4 p = elim p.isdu_handler.ihcmd [
  | IhCmd.inactive ↦
      let q = set_isdu (record p.isdu_handler { total_isdu_seg = 0 }) p in
      set_state IsduState.inactive (cnf none 0 0 Status.no_comm q)
  | IhCmd.active ↦ elim p.od_handler.trigger [
    | Trigger.master_message ↦ isdu_error4 p
    | _ ↦ set_state IsduState.isduerror p
  ]
]

-- What is confirmed of a complete response.
unfoldable pub complete_cnf : Port → Port
unfolding get_isdu_data_length get_isdu_response_data get_isdu_iserv valid_isdu_checksum
complete_cnf p =
    let h = p.isdu_handler in
    let response = some (get_isdu_response_data h) in
    elim (get_isdu_data_length h) [
      | none ↦ cnf response 0 (get_isdu_iserv h) Status.invalid p
      | some len ↦
          let errinfo =
            if valid_isdu_checksum h then Status.no_error else Status.isdu_checksum_error in
          cnf response len (get_isdu_iserv h) errinfo (inside 0 h.total_isdu_len isdu_max_size p)
    ]

unfoldable pub reception_complete : Port → Port
unfolding complete_cnf
reception_complete p =
    let q = complete_cnf p in
    let h = record q.isdu_handler {
      current_isdu_seg = 0;
      total_isdu_seg = 0;
      state = IsduState.idle;
    } in
    set_rwcmd RwCmd.none (set_isdu h q)
