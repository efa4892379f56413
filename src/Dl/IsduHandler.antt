-- ===== src/Dl/IsduHandler.antt =====
-- The state machine of the ISDU handler of ilink/iolink_dl.c.
use iol_hat.Base.{ℕ, ◌+◌, ◌*◌, ◌%◌, Bool, not, ◌&&◌, ◌||◌, ◌==◌, leb}
use iol_hat.Base.{if◌then◌else◌, [], ◌∷◌, get_or, take, overwrite, Option, none, some, u8}
use iol_hat.Types.Dl.{Status, Direction}
use iol_hat.Dl.State.{Port, IsduState, IhCmd, RwCmd, Trigger, Call}
use iol_hat.Dl.State.{emit, set_isdu, set_rwcmd, inside, slice, isdu_max_size}
use iol_hat.Dl.Isdu.{get_isdu_total_len, get_isdu_total_segments}
use iol_hat.Dl.Isdu.{valid_isdu_header}
use iol_hat.Dl.Isdu.{isdu_timer_elapsed, isdu_timer_reset, isdu_timer_start}
use iol_hat.Dl.Requests.{Comchannel, od_req, ignored, flowctrl_start, flowctrl_idle_1}
use iol_hat.Dl.IsduAnswers.{
  set_state, cnf, is_abort, is_comlost, isdu_error4, enter_isduerror4, reception_complete,
}

unfoldable pub inactive0 : Port → Port
inactive0 p = elim p.isdu_handler.ihcmd [
  | IhCmd.active ↦
      let h = record p.isdu_handler {
        total_isdu_seg = 0;
        current_isdu_seg = 0;
        state = IsduState.idle;
      } in
      set_isdu h p
  | IhCmd.inactive ↦ p
]

-- A segment that is written at `at`, from which `od_len` bytes are read.
abbrev pub write_segment : ℕ → ℕ → Port → Port
unfolding od_req
write_segment flowctrl at p =
    let od_len = p.message_handler.od_len in
    let bytes = slice p.isdu_handler.isdu_data at od_len in
    ignored (
      od_req Direction.write Comchannel.isdu flowctrl od_len bytes
        (inside at od_len isdu_max_size p))

abbrev pub read_segment : ℕ → Port → Port
unfolding od_req
read_segment flowctrl p =
    ignored (od_req Direction.read Comchannel.isdu flowctrl p.message_handler.od_len [] p)

unfoldable pub idle_master : RwCmd → Port → Port
unfolding od_req
idle_master RwCmd.isdutransport p =
    let q = write_segment flowctrl_start 0 p in
    set_isdu (record q.isdu_handler { current_isdu_seg = 1; state = IsduState.isdurequest }) q
idle_master RwCmd.readparam p =
    ignored (od_req Direction.read Comchannel.page p.od_handler.data_addr 0 [] p)
idle_master RwCmd.writeparam p =
    let h = p.od_handler in
    ignored (od_req Direction.write Comchannel.page h.data_addr 1 (h.data_value ∷ []) p)
idle_master _ p = ignored (od_req Direction.read Comchannel.isdu flowctrl_idle_1 0 [] p)

abbrev pub idle_device : RwCmd → Port → Port
idle_device RwCmd.readparam p =
    set_rwcmd RwCmd.none (emit (Call.dl_read_param_cnf (get_or p.rxbuffer 0 0) Status.no_error) p)
idle_device RwCmd.writeparam p =
    set_rwcmd RwCmd.none (emit (Call.dl_write_param_cnf Status.no_error) p)
idle_device _ p = p

-- Deactivation in idle, with a request that has been accepted but not sent.
abbrev pub idle_inactive : Port → Port
idle_inactive p =
    let q =
      if p.isdu_handler.total_isdu_seg == 0
      then p
      else set_isdu (record p.isdu_handler { total_isdu_seg = 0 })
          (cnf none 0 0 Status.no_comm p) in
    set_state IsduState.inactive q

unfoldable pub idle1 : Port → Port
unfolding idle_master
idle1 p = elim p.isdu_handler.ihcmd [
  | IhCmd.inactive ↦ idle_inactive p
  | IhCmd.active ↦ elim p.od_handler.trigger [
    | Trigger.master_message ↦ idle_master p.message_handler.rwcmd p
    | Trigger.device_message ↦ idle_device p.message_handler.rwcmd p
    | Trigger.none ↦ p
  ]
]

abbrev pub is_stopped : Port → Bool
is_stopped p = is_abort p.message_handler.rwcmd || is_comlost p.mode_handler.mhinfo

unfoldable pub request_master : Port → Port
request_master p =
    let seg = p.isdu_handler.current_isdu_seg in
    let q = write_segment (seg % 16) (p.message_handler.od_len * seg) p in
    set_isdu (record q.isdu_handler { current_isdu_seg = u8 (seg + 1) }) q

unfoldable pub request_device : Port → Port
unfolding isdu_timer_start
request_device p =
    let h = p.isdu_handler in
    if leb h.total_isdu_seg h.current_isdu_seg
    then (let q = isdu_timer_start p in
        set_isdu (record q.isdu_handler { current_isdu_seg = 0; state = IsduState.isduwait }) q)
    else p

unfoldable pub isdu_request2 : Port → Port
unfolding enter_isduerror4 request_master request_device
isdu_request2 p = if is_stopped p then enter_isduerror4 p else elim p.od_handler.trigger [
  | Trigger.master_message ↦ request_master p
  | Trigger.device_message ↦ request_device p
  | Trigger.none ↦ p
]

-- `memcpy` of the received bytes to the place of the current segment.
abbrev pub store_segment : Port → Port
store_segment p =
    let h = p.isdu_handler in
    let od_len = p.message_handler.od_len in
    let at = h.current_isdu_seg * od_len in
    let filled = overwrite h.isdu_data at (take od_len p.rxbuffer) in
    set_isdu (record h { isdu_data = filled }) (inside at od_len isdu_max_size p)

abbrev pub or_zero : Option ℕ → ℕ
or_zero none = 0
or_zero (some n) = n

-- `total_isdu_len` from the header and `total_isdu_seg` from it.
unfoldable pub set_total : ℕ → Port → Port
unfolding get_isdu_total_len get_isdu_total_segments
set_total seg p =
    let h = p.isdu_handler in
    let len = or_zero (get_isdu_total_len h) in
    let q = set_isdu (record h { total_isdu_len = len; current_isdu_seg = seg }) p in
    let r = if p.message_handler.od_len == 0 then emit Call.zero_divided q else q in
    set_isdu (record r.isdu_handler { total_isdu_seg = get_isdu_total_segments r }) r

unfoldable pub first_segment : Port → Port
unfolding isdu_timer_reset reception_complete set_total
first_segment p =
    let q = isdu_timer_reset (set_total 1 p) in
    if leb q.isdu_handler.total_isdu_seg 1
    then reception_complete q
    else set_state IsduState.isduresponse q

-- What follows from the first byte of the response, once it is stored.
unfoldable pub by_first : Port → Port
unfolding valid_isdu_header isdu_timer_reset enter_isduerror4 first_segment
by_first q =
    let first = get_or q.isdu_handler.isdu_data 0 0 in
    if first == 1
    then q
    else (if not (first == 0) && valid_isdu_header q.isdu_handler
        then first_segment q
        else enter_isduerror4 (isdu_timer_reset q))

unfoldable pub wait_device : Port → Port
unfolding by_first
wait_device p = by_first (store_segment p)

unfoldable pub isdu_wait3 : Port → Port
unfolding isdu_timer_reset isdu_timer_elapsed enter_isduerror4 wait_device
isdu_wait3 p =
    if is_abort p.message_handler.rwcmd
    then enter_isduerror4 (isdu_timer_reset p)
    else (if isdu_timer_elapsed p || is_comlost p.mode_handler.mhinfo
        then enter_isduerror4 p
        else elim p.od_handler.trigger [
          | Trigger.master_message ↦ read_segment flowctrl_start p
          | Trigger.device_message ↦ wait_device p
          | Trigger.none ↦ p
        ])

-- The length is read from the header before the segment is stored.
unfoldable pub response_device : Port → Port
unfolding reception_complete set_total
response_device p =
    let seg = p.isdu_handler.current_isdu_seg in
    let q = store_segment (set_total seg p) in
    let r = set_isdu (record q.isdu_handler { current_isdu_seg = u8 (seg + 1) }) q in
    if leb r.isdu_handler.total_isdu_seg (u8 (seg + 1)) then reception_complete r else r

unfoldable pub isdu_response5 : Port → Port
unfolding enter_isduerror4 response_device
isdu_response5 p = if is_stopped p then enter_isduerror4 p else elim p.od_handler.trigger [
  | Trigger.master_message ↦ read_segment (p.isdu_handler.current_isdu_seg % 16) p
  | Trigger.device_message ↦ response_device p
  | Trigger.none ↦ p
]

unfoldable pub isdu_by_state : IsduState → Port → Port
unfolding inactive0 idle1 isdu_request2 isdu_wait3 isdu_error4 isdu_response5
isdu_by_state IsduState.inactive p = inactive0 p
isdu_by_state IsduState.idle p = idle1 p
isdu_by_state IsduState.isdurequest p = isdu_request2 p
isdu_by_state IsduState.isduwait p = isdu_wait3 p
isdu_by_state IsduState.isduerror p = isdu_error4 p
isdu_by_state IsduState.isduresponse p = isdu_response5 p

unfoldable pub iolink_dl_isdu_h_sm : Port → Port
unfolding isdu_by_state
iolink_dl_isdu_h_sm p = isdu_by_state p.isdu_handler.state p
