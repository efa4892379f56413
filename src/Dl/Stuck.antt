-- ===== src/Dl/Stuck.antt =====
-- Where the data link layer of ilink/iolink_dl.c does less than it means to.
use mathlib.Core.Path.{ap₂, subst}
use iol_hat.Base.{ℕ, ◌+◌, ◌*◌, ◌/◌, ◌≤◌, ◌<◌, ◌≡◌, ◌≢◌, refl, ap, sym, ◌∙◌, arith}
use iol_hat.Base.{◌==◌, if◌then◌else◌}
use native.Mathlib.Decide.{ℕ_discrete}
use iol_hat.Base.{true, none, some, List, [], ◌∷◌, length, take, get_or, overwrite}
use iol_hat.Base.Slices.{get_or-overwrite, get_or-overwrite_in, get_or-take}
use iol_hat.Types.Dl.{Status, ValueList}
use iol_hat.Dl.State.{Port, IsduH, IsduState, Trigger, OdState, OhCmd, Call, isdu_max_size}
use iol_hat.Dl.Isdu.{get_isdu_total_len, get_isdu_len, get_isdu_iserv, get_isdu_data_length}
use iol_hat.Dl.Isdu.{get_isdu_response_data, get_isdu_total_segments, valid_isdu_header}
use iol_hat.Dl.Isdu.{isdu_timer_reset}
use iol_hat.Dl.IsduHandler.{first_segment, set_total, by_first}
use iol_hat.Dl.IsduAnswers.{reception_complete, complete_cnf}
use iol_hat.Dl.OdHandler.{oh_conf, iolink_dl_od_h_sm, od_by_state, od_inactive0, od_isdu1}
use iol_hat.Dl.OdHandler.{od_command2, od_event3}
use iol_hat.Dl.OdHandler.{trigger}
use iol_hat.Dl.Isdu.{is_read_response, checksum}
use iol_hat.Dl.Api.{encode, body, overhead_of}
use iol_hat.Dl.Encoding.{IsRequest, encode_prefix}
use iol_hat.Dl.Sending.{Reply, IsSilent, device_message}
use iol_hat.Dl.Reception.{total_of}
use iol_hat.Dl.Received.{device_quiet, wait_receives, replied}
use iol_hat.Dl.Response.{IsAwaiting}
use iol_hat.Dl.FirstSegment.{put, store_lem, wait_lem, by_first_lem, replied_in_time, is_not}

abbrev pub deactivated : OdState → OdState
deactivated OdState.command = OdState.command
deactivated _ = OdState.inactive

deactivate_by_state :
    (s : OdState) (p : Port)
    → p.od_handler.ohcmd ≡ OhCmd.inactive
    → p.od_handler.state ≡ s
    → (od_by_state s p).od_handler.state ≡ deactivated s
unfolding od_by_state od_inactive0 od_isdu1 od_command2 od_event3
deactivate_by_state OdState.inactive p h e = ground (arith, h, e)
deactivate_by_state OdState.isdu p h e = ground (arith, h)
deactivate_by_state OdState.command p h e = ground (arith, h, e)
deactivate_by_state OdState.event p h e = ground (arith, h)

-- Deactivation makes the handler of on-request data inactive in each state but that of a command,
-- which it stays in.
pub deactivate-state :
    (p : Port) → (oh_conf OhCmd.inactive p).od_handler.state ≡ deactivated p.od_handler.state
unfolding oh_conf iolink_dl_od_h_sm
deactivate-state p =
    deactivate_by_state p.od_handler.state
      (record p { od_handler = record p.od_handler { ohcmd = OhCmd.inactive } }) refl refl

-- What is held of a read request of an index that fits a byte has the index as its second octet.
second_octet :
    (v : ValueList) (buf : List ℕ)
    → IsRequest v
    → v.length ≡ 0
    → v.index < 256
    → length buf ≡ isdu_max_size
    → get_or (encode v buf) 1 0 ≡ v.index
unfolding body
second_octet v buf r e h l =
    let n = v.length + overhead_of v in
    let c = checksum (body v) in
    sym (get_or-take (encode v buf) 1 n 0 (ground (arith, e)))
    ∙ ap (λ xs. get_or xs 1 0) (encode_prefix v buf r l)
    ∙ ground (arith, e, h)

-- A response of the service `iserv` whose length is taken to be `index`, which is refused at 16.
pub record IsMisread (index iserv : ℕ) (response : List ℕ) (before : List Call) (q : Port)
    : Type 0 where
  pub state :
      q.isdu_handler.state ≡ (if index == 16 then IsduState.idle else IsduState.isduresponse)
  pub total : q.isdu_handler.total_isdu_len ≡ (if index == 16 then 0 else index)
  pub segments : q.isdu_handler.total_isdu_seg ≡ (if index == 16 then 0 else index)
  pub out : q.out ≡ (
      if index == 16
      then Call.dl_isdu_transport_cnf (some response) 0 iserv Status.invalid ∷ before
      else before)

unmeasured : (h : IsduH) → get_isdu_total_len h ≡ none → get_isdu_data_length h ≡ none
unfolding get_isdu_data_length
unmeasured h e = ground (arith, e)

module _ (q : Port) (index : ℕ) (two : 2 ≤ index) (byte : index < 256)
    (m : q.message_handler.od_len ≡ 1) where
  abbrev IsMisreadHere : Type 0
  IsMisreadHere =
      IsMisread index (get_isdu_iserv q.isdu_handler) (get_isdu_response_data q.isdu_handler) q.out
        (first_segment q)

  unnamed_segment : index ≡ 16 → get_isdu_total_len q.isdu_handler ≡ none → IsMisreadHere
  unfolding first_segment set_total get_isdu_total_segments isdu_timer_reset reception_complete
      complete_cnf
  unnamed_segment i e = ground (arith, i, e, unmeasured q.isdu_handler e, m)

  named_segment : index ≢ 16 → get_isdu_total_len q.isdu_handler ≡ some index → IsMisreadHere
  unfolding first_segment set_total get_isdu_total_segments isdu_timer_reset
  named_segment i e = ground (arith, i, e, m, two, byte)

  stale_segment : get_isdu_total_len q.isdu_handler ≡ total_of 1 index → IsMisreadHere
  stale_segment e = elim (ℕ_discrete index 16) [
    | yes i ↦ unnamed_segment i (e ∙ ground (arith, i))
    | no i ↦ named_segment i (e ∙ ground (arith, i, two))
  ]

some_octet : (rx : List ℕ) (a : ℕ) → get_or rx 0 0 ≡ a → 0 < a → length (take 1 rx) ≡ 1
some_octet [] a e h = absurd (omega (arith, e))
some_octet (x ∷ rx) a e h = refl

-- The array still holds the read of an index that fits a byte.
pub record IsRead (v : ValueList) (buf : List ℕ) (p : Port) : Type 0 where
  pub request : IsRequest v
  pub empty : v.length ≡ 0
  pub two : 2 ≤ v.index
  pub byte : v.index < 256
  pub array : length buf ≡ isdu_max_size
  pub held : p.isdu_handler.isdu_data ≡ encode v buf

module _ (v : ValueList) (buf : List ℕ) (p : Port) (rx : Reply) (before : List Call)
    (h : IsAwaiting true 1 before p) (asked : IsRead v buf p) (iserv : ℕ)
    (serves : is_read_response iserv ≡ true) (a : get_or rx.octets 0 0 ≡ iserv * 16 + 1) where
  abbrev held : IsduH
  held = (put (replied rx p)).isdu_handler

  abbrev bytes : List ℕ
  bytes = p.isdu_handler.isdu_data

  at_start : (i : ℕ) → get_or held.isdu_data i 0 ≡ get_or (overwrite bytes 0 (take 1 rx.octets)) i 0
  at_start i =
      ap₂ (λ k m. get_or (overwrite bytes (k * m) (take m rx.octets)) i 0) h.waiting.segment
        h.waiting.od_len

  sized : length (take 1 rx.octets) ≡ 1
  sized = some_octet rx.octets (iserv * 16 + 1) a (omega arith)

  first : get_or held.isdu_data 0 0 ≡ iserv * 16 + 1
  first =
      at_start 0
      ∙ get_or-overwrite_in bytes 0 (take 1 rx.octets) 0 (omega (arith, sized))
          (omega (arith, sized, h.array))
      ∙ get_or-take rx.octets 0 1 0 (omega arith)
      ∙ a

  second : get_or held.isdu_data 1 0 ≡ v.index
  second =
      at_start 1
      ∙ get_or-overwrite bytes 0 1 (take 1 rx.octets) 0 (omega (arith, sized))
      ∙ ap (λ xs. get_or xs 1 0) asked.held
      ∙ second_octet v buf asked.request asked.empty asked.byte asked.array

  extended : total_of (iserv * 16 + 1) v.index ≡ total_of 1 v.index
  extended = ground arith

  measured : get_isdu_total_len held ≡ total_of 1 v.index
  unfolding get_isdu_total_len get_isdu_len
  measured = ap₂ total_of first second ∙ extended

  valid : valid_isdu_header held ≡ true
  unfolding valid_isdu_header get_isdu_iserv get_isdu_len
  valid = ground (arith, first, h.asked, serves)

  served : get_isdu_iserv held ≡ iserv
  unfolding get_isdu_iserv
  served = ap (λ o. o / 16) first ∙ omega arith

  no_service : 2 ≤ get_or held.isdu_data 0 0
  no_service = ground (arith, first, serves)

  goes_on :
      IsSilent rx → device_message rx p ≡ trigger Trigger.none (first_segment (put (replied rx p)))
  goes_on s =
      let q = replied rx p in
      let w = h.waiting in
      let inner : p.isdu_handler.current_isdu_seg * p.message_handler.od_len
            + p.message_handler.od_len
          ≤ isdu_max_size =
        omega (arith, ap₂ (λ k m. k * m) w.segment w.od_len, w.od_len) in
      device_quiet rx p s w.quiet
      ∙ ap (λ r. trigger Trigger.none r)
          (wait_receives q w.waiting w.live (replied_in_time rx p h.in_time) refl
            ∙ wait_lem q
            ∙ ap by_first (store_lem q inner)
            ∙ by_first_lem (put q) (is_not _ 1 (omega arith) no_service)
                (is_not _ 0 (omega arith) no_service) valid)

  -- With one octet in a message, the length of a response that has an extended one is taken from
  -- the request, which still stands in the array: after the first octet of the response to a read
  -- of an index from 2 to 255 its total length and its number of segments are the index, and for
  -- the index 16 the response is refused with the status INVALID. The response comes in time, no
  -- command and no event is pending, and the reply reports none.
  pub extended_length_stale :
      IsSilent rx
      → IsMisread v.index iserv (get_isdu_response_data held) before (device_message rx p)
  extended_length_stale s =
      let r =
        stale_segment (put (replied rx p)) v.index asked.two asked.byte h.waiting.od_len measured in
      let stale : IsMisread v.index iserv (get_isdu_response_data held) before
          (trigger Trigger.none (first_segment (put (replied rx p)))) =
        record {
          state = r.state;
          total = r.total;
          segments = r.segments;
          out =
              r.out
              ∙ ap₂
                  (λ o calls.
                    if v.index == 16
                    then Call.dl_isdu_transport_cnf (some (get_isdu_response_data held)) 0 o
                        Status.invalid
                      ∷ calls
                    else calls)
                  served h.calls;
        } in
      subst (IsMisread v.index iserv (get_isdu_response_data held) before) (sym (goes_on s)) stale
