-- ===== src/Dl/Events.antt =====
-- The event handler of ilink/iolink_dl.c: it reads the event memory of the device and tells the
-- application layer each event.
use iol_hat.Base.{ℕ, zero, suc, ◌+◌, ◌-◌, ◌*◌, ◌/◌, ◌^◌, Bool, true, false, not, ◌==◌, ltb, leb}
use iol_hat.Base.{if◌then◌else◌, [], ◌∷◌, get_or, set, replicate, bit_and, u8}
use iol_hat.Types.Dl.{Direction}
use iol_hat.Dl.State.{Port, EventState, EhCmd, EventEntry, Trigger, Mhinfo, Call}
use iol_hat.Dl.State.{emit, set_event}
use iol_hat.Dl.Requests.{Comchannel, od_req, ignored}

-- `IOLINK_MAX_EVENTS`.
abbrev pub max_events : ℕ
max_events = 6

-- Whether bit `i` of the status code is set.
unfoldable pub bit : ℕ → ℕ → Bool
bit status_code i = not (bit_and status_code (2 ^ i) == 0)

abbrev pub set_state : EventState → Port → Port
set_state s p = set_event (record p.event_handler { state = s }) p

abbrev pub no_entry : EventEntry
no_entry = record { event_qualifier = 0; event_code_msb = 0; event_code_lsb = 0 }

-- The events of a status code with details, from entry `i` on; `left` of them are still to be told.
unfoldable pub tell_entries : ℕ → ℕ → Port → Port
tell_entries i zero p = p
tell_entries i (suc left) p =
    let event = get_or p.event_handler.events i no_entry in
    let code = event.event_code_lsb + event.event_code_msb * 256 in
    tell_entries (i + 1) left (emit (Call.dl_event_ind code event.event_qualifier left) p)

-- `event_info`, and the qualifier 4 | 0 << 3 | type << 4 | 1 << 6.
abbrev pub event_code : ℕ → ℕ
event_code i = get_or (65408 ∷ 65408 ∷ 25376 ∷ 65408 ∷ 65296 ∷ []) i 0

abbrev pub event_qualifier : ℕ → ℕ
event_qualifier i = 4 + get_or (1 ∷ 2 ∷ 3 ∷ 3 ∷ 3 ∷ []) i 0 * 16 + 64

-- The events of a status code without details, from bit `i` on; `bits` of them are still to be read.
unfoldable pub tell_bits : ℕ → ℕ → Port → Port
unfolding bit
tell_bits i zero p = p
tell_bits i (suc bits) p =
    let h = p.event_handler in
    let left = u8 (h.num_entries + 255) in
    let told =
      emit (Call.dl_event_ind (event_code i) (event_qualifier i) left)
        (set_event (record h { num_entries = left }) p) in
    tell_bits (i + 1) bits (if bit h.status_code i then told else p)

unfoldable pub signal_event3 : Port → Port
unfolding tell_entries tell_bits bit
signal_event3 p =
    let h = p.event_handler in
    let told =
      if bit h.status_code 7
      then set_event (record h { ev_current = h.num_entries }) (tell_entries 0 h.num_entries p)
      else tell_bits 0 5 p in
    let t = told.event_handler in
    set_event (record t { event_confirmation = true; state = EventState.idle }) told

-- The loops over the bits of the status code count its events, and find the first one.
unfoldable pub count_bits : ℕ → ℕ → ℕ → ℕ
unfolding bit
count_bits status_code i zero = 0
count_bits status_code i (suc bits) =
    let rest = count_bits status_code (i + 1) bits in if bit status_code i then suc rest else rest

-- The first set bit from `i` on, or the bit behind the last one.
unfoldable pub next_bit : ℕ → ℕ → ℕ → ℕ
unfolding bit
next_bit status_code i zero = i
next_bit status_code i (suc bits) =
    let later = next_bit status_code (i + 1) bits in if bit status_code i then i else later

-- A status code with details. Without a set bit the address stays 0, and the quotient of -1 and 3
-- is 0.
unfoldable pub start_details : Port → Port
unfolding count_bits next_bit
start_details p =
    let h = p.event_handler in
    let first = next_bit h.status_code 0 max_events in
    let n = count_bits h.status_code 0 max_events in
    let addr = if ltb first max_events then 1 + first * 3 else 0 in
    set_event
      (record h { num_entries = u8 (h.num_entries + n); ev_addr = addr; ev_cnt = (addr - 1) / 3 }) p

unfoldable pub read_status_code : Port → Port
unfolding start_details count_bits signal_event3 bit
read_status_code p =
    let status_code = get_or p.rxbuffer 0 0 in
    let h = record p.event_handler { status_code = status_code } in
    if bit status_code 7
    then start_details (set_event h p)
    else (let n = u8 (h.num_entries + count_bits status_code 0 5) in
        let q = record p {
          pd_handler = record p.pd_handler { pd_valid = not (bit status_code 6) };
        } in
        signal_event3 (set_event (record h { num_entries = n }) q))

abbrev pub set_entry : (EventEntry → EventEntry) → Port → Port
set_entry f p =
    let h = p.event_handler in
    let entry = f (get_or h.events h.ev_current no_entry) in
    let bounded = if ltb h.ev_current max_events then p else emit Call.out_of_bounds p in
    set_event (record h { events = set h.events h.ev_current entry }) bounded

abbrev pub next_addr : Port → Port
next_addr p = set_event (record p.event_handler { ev_addr = u8 (p.event_handler.ev_addr + 1) }) p

-- The loop that looks for the next set bit behind `cnt`, with the address of its event; it also
-- looks at bit 6, so `6 - cnt` rounds are enough.
unfoldable pub seek : ℕ → ℕ → ℕ → ℕ → ℕ × ℕ
unfolding bit
seek status_code zero cnt addr = (cnt, addr)
seek status_code (suc rounds) cnt addr =
    let later = seek status_code rounds (cnt + 1) addr in
    if bit status_code (cnt + 1) then (cnt + 1, 1 + (cnt + 1) * 3) else later

-- After the last byte of an event.
unfoldable pub next_event : Port → Port
unfolding seek signal_event3
next_event p =
    let h = p.event_handler in
    let (cnt, addr) = seek h.status_code (max_events - h.ev_cnt) h.ev_cnt h.ev_addr in
    let moved = record h { ev_cnt = cnt; ev_addr = addr; ev_current = u8 (h.ev_current + 1) } in
    if leb max_events cnt
    then signal_event3 (set_event (record moved { ev_current = 0 }) p)
    else set_event moved p

-- The three bytes of an event.
abbrev pub memory_byte : ℕ → ℕ → Port → Port
unfolding next_event
memory_byte (suc zero) byte p = next_addr (set_entry (λ e. record e { event_qualifier = byte }) p)
memory_byte (suc (suc zero)) byte p =
    next_addr (set_entry (λ e. record e { event_code_msb = byte }) p)
memory_byte (suc (suc (suc zero))) byte p =
    next_event (set_entry (λ e. record e { event_code_lsb = byte }) p)
memory_byte _ byte p = p

unfoldable pub read_memory_byte : Port → Port
unfolding next_event
read_memory_byte p =
    let h = p.event_handler in memory_byte (h.ev_addr - h.ev_cnt * 3) (get_or p.rxbuffer 0 0) p

abbrev pub read_at : ℕ → Port → Port
unfolding od_req
read_at addr p = ignored (od_req Direction.read Comchannel.diagnosis addr 0 [] p)

-- The confirmation writes the byte that stands first in `txbuffer`.
abbrev pub confirm : Mhinfo → Port → Port
unfolding od_req
confirm Mhinfo.comlost p = set_state EventState.inactive p
confirm _ p =
    let bytes = get_or p.txbuffer 0 0 ∷ [] in
    let q = ignored (od_req Direction.write Comchannel.diagnosis 0 1 bytes p) in
    set_event (record q.event_handler { event_confirmation = false; state = EventState.idle }) q

unfoldable pub start_reading : Port → Port
unfolding od_req
start_reading p =
    let h = record p.event_handler {
      ev_addr = 0;
      num_entries = 0;
      ev_current = 0;
      events = replicate max_events no_entry;
    } in
    set_state EventState.readevent (read_at 0 (set_event h p))

unfoldable pub event_idle1 : Port → Port
unfolding start_reading od_req
event_idle1 p = elim p.event_handler.ehcmd [
  | EhCmd.inactive ↦ set_state EventState.inactive p
  | EhCmd.active ↦ elim p.od_handler.trigger [
    | Trigger.master_message ↦
        if p.event_handler.event_confirmation
        then confirm p.mode_handler.mhinfo p
        else start_reading p
    | _ ↦ p
  ]
]

abbrev pub read_by_trigger : Trigger → Port → Port
unfolding od_req read_status_code read_memory_byte
read_by_trigger Trigger.master_message p = read_at p.event_handler.ev_addr p
read_by_trigger Trigger.device_message p =
    if p.event_handler.ev_addr == 0 then read_status_code p else read_memory_byte p
read_by_trigger Trigger.none p = p

unfoldable pub read_event2 : Port → Port
unfolding od_req read_status_code read_memory_byte
read_event2 p = elim p.mode_handler.mhinfo [
  | Mhinfo.comlost ↦ set_state EventState.inactive p
  | _ ↦ read_by_trigger p.od_handler.trigger p
]

unfoldable pub event_inactive0 : Port → Port
event_inactive0 p = elim p.event_handler.ehcmd [
  | EhCmd.active ↦ set_state EventState.idle p
  | EhCmd.inactive ↦ p
]

unfoldable pub event_by_state : EventState → Port → Port
unfolding event_inactive0 event_idle1 read_event2
event_by_state EventState.inactive p = event_inactive0 p
event_by_state EventState.idle p = event_idle1 p
event_by_state EventState.readevent p = read_event2 p
event_by_state EventState.signalevent p = p
event_by_state EventState.eventconfirmation p = p

unfoldable pub iolink_dl_ev_h_sm : Port → Port
unfolding event_by_state
iolink_dl_ev_h_sm p = event_by_state p.event_handler.state p
