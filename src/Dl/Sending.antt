-- ===== src/Dl/Sending.antt =====
-- How the ISDU handler of ilink/iolink_dl.c sends a request, a segment with each message.
use iol_hat.Base.{ℕ, ◌+◌, ◌*◌, ◌%◌, ◌≤◌, ◌<◌, ◌≡◌, refl, ap, sym, ◌∙◌, arith, true, false}
use iol_hat.Base.{List, length}
use iol_hat.Base.{u8, leb}
use mathlib.Core.Path.{ap₂, subst}
use native.Mathlib.Nat.{mul-le-mul_left}
use iol_hat.Types.Dl.{Controlcode}
use iol_hat.Dl.State.{Port, OdState, OhCmd, IsduState, Trigger, slice}
use iol_hat.Dl.State.{isdu_max_size, set_isdu}
use iol_hat.Dl.IsduHandler.{iolink_dl_isdu_h_sm, isdu_by_state, isdu_request2, request_master}
use iol_hat.Dl.IsduHandler.{request_device, is_stopped}
use iol_hat.Dl.OdHandler.{
  iolink_dl_od_h_sm, od_by_state, od_isdu1, trigger, commanded, is_triggered,
}
use iol_hat.Dl.Api.{event_flag_ind, get_cks_ev_flag}
use iol_hat.Dl.Segments.{
  segment_put, segment_put_lem, octets, segment_put-octets, segment_put-length,
}

-- The handler of on-request data serves ISDUs only: no command and no event is pending.
pub record IsQuiet (p : Port) : Type 0 where
  pub od_state : p.od_handler.state ≡ OdState.isdu
  pub ohcmd : p.od_handler.ohcmd ≡ OhCmd.active
  pub control_code : p.cmd_handler.control_code ≡ Controlcode.none
  pub event_flag : p.event_handler.event_flag ≡ false

pub quiet_step :
    (q : Port)
    → q.od_handler.state ≡ OdState.isdu
    → q.od_handler.ohcmd ≡ OhCmd.active
    → commanded q ≡ false
    → q.event_handler.event_flag ≡ false
    → is_triggered q.od_handler.trigger ≡ true
    → iolink_dl_od_h_sm q ≡ trigger Trigger.none (iolink_dl_isdu_h_sm q)
unfolding iolink_dl_od_h_sm od_by_state od_isdu1
quiet_step q s o c e t = ground (arith, s, o, c, e, t)

-- `k` of `n` segments of `m` octets of a request have been put into messages.
pub record IsSending (request : List ℕ) (m n k : ℕ) (p : Port) : Type 0 where
  pub quiet : IsQuiet p
  pub sending : p.isdu_handler.state ≡ IsduState.isdurequest
  pub live : is_stopped p ≡ false
  pub bytes : p.isdu_handler.isdu_data ≡ request
  pub segment : p.isdu_handler.current_isdu_seg ≡ k
  pub segments : p.isdu_handler.total_isdu_seg ≡ n
  pub od_len : p.message_handler.od_len ≡ m
  pub buffer : p.od_handler.odout_buffer + m ≤ length p.txbuffer

request_step :
    (q : Port)
    → q.isdu_handler.state ≡ IsduState.isdurequest
    → is_stopped q ≡ false
    → q.od_handler.trigger ≡ Trigger.master_message
    → iolink_dl_isdu_h_sm q ≡ request_master q
unfolding iolink_dl_isdu_h_sm isdu_by_state isdu_request2
request_step q s l t = ground (arith, s, l, t)

response_step :
    (q : Port)
    → q.isdu_handler.state ≡ IsduState.isdurequest
    → is_stopped q ≡ false
    → q.od_handler.trigger ≡ Trigger.device_message
    → iolink_dl_isdu_h_sm q ≡ request_device q
unfolding iolink_dl_isdu_h_sm isdu_by_state isdu_request2
response_step q s l t = ground (arith, s, l, t)

-- The message handler asks for the next message.
abbrev pub master_message : Port → Port
master_message p = iolink_dl_od_h_sm (trigger Trigger.master_message p)

-- What the device sends in a message: its octets, and the one with the checksum and the event flag.
pub record Reply : Type 0 where
  pub octets : List ℕ
  pub cks : ℕ

-- The reply reports no event.
abbrev pub IsSilent : Reply → Type 0
IsSilent reply = leb 128 (reply.cks % 256) ≡ false

-- The message handler takes a reply in and indicates its event flag.
abbrev pub taken_in : Reply → Port → Port
taken_in reply p =
    let q = record p {
      rxbuffer = reply.octets;
      message_handler = record p.message_handler { cks = reply.cks };
    } in
    event_flag_ind (get_cks_ev_flag q) q

-- The reply of the device has come; that to a write has no octets that count.
abbrev pub device_message : Reply → Port → Port
device_message reply p = iolink_dl_od_h_sm (trigger Trigger.device_message (taken_in reply p))

-- A port that has taken a silent reply in.
abbrev pub silent : Reply → Port → Port
silent reply p = record p {
  rxbuffer = reply.octets;
  message_handler = record p.message_handler { cks = reply.cks };
  event_handler = record p.event_handler { event_flag = false };
}

pub taken_in-silent : (rx : Reply) (p : Port) → IsSilent rx → taken_in rx p ≡ silent rx p
unfolding event_flag_ind get_cks_ev_flag
taken_in-silent rx p e = rw e refl

abbrev pub replied : Reply → Port → Port
replied rx p = trigger Trigger.none (silent rx p)

abbrev pub next_segment : Port → Port
next_segment p =
    let q = trigger Trigger.master_message p in
    let seg = p.isdu_handler.current_isdu_seg in
    let r = segment_put (seg % 16) (p.message_handler.od_len * seg) q in
    trigger Trigger.none (set_isdu (record r.isdu_handler { current_isdu_seg = u8 (seg + 1) }) r)

pub quiet_uncommanded : (p : Port) (t : Trigger) → IsQuiet p → commanded (trigger t p) ≡ false
quiet_uncommanded p t h = ground (arith, h.control_code)

-- The octets of a segment are in the array.
pub multiples : (m n k : ℕ) → k < n → m * k + m ≤ m * n
multiples m n k h = omega (arith, mul-le-mul_left {m = k + 1} {n = n} m (omega arith))

module _ (request : List ℕ) (m n k : ℕ) (fits : m * n ≤ isdu_max_size) (small : m ≤ 32)
    (below : k < n) where
  pub master_message_lem :
      (p : Port) → IsSending request m n k p → master_message p ≡ next_segment p
  unfolding request_master
  master_message_lem p h =
      let q = trigger Trigger.master_message p in
      let at = p.message_handler.od_len * p.isdu_handler.current_isdu_seg in
      let inner : at + p.message_handler.od_len ≤ isdu_max_size =
        omega
          (arith, multiples m n k below, h.od_len, ap₂ (λ a b. a * b) h.od_len h.segment, fits) in
      let advance : Port → Port = λ r.
        set_isdu
          (record r.isdu_handler { current_isdu_seg = u8 (p.isdu_handler.current_isdu_seg + 1) })
          r in
      quiet_step q h.quiet.od_state h.quiet.ohcmd
        (quiet_uncommanded p Trigger.master_message h.quiet) h.quiet.event_flag refl
      ∙ ap (λ r. trigger Trigger.none r)
          (request_step q h.sending h.live refl
            ∙ ap advance (
                segment_put_lem (p.isdu_handler.current_isdu_seg % 16) at q (omega arith)
                  (omega (arith, h.od_len, small)) inner))

  pub next_segment-IsSending :
      (p : Port)
      → n < 256
      → IsSending request m n k p
      → IsSending request m n (k + 1) (next_segment p)
  next_segment-IsSending p small_n h = record {
    quiet = record {
      od_state = h.quiet.od_state;
      ohcmd = h.quiet.ohcmd;
      control_code = h.quiet.control_code;
      event_flag = h.quiet.event_flag;
    };
    sending = h.sending;
    live = h.live;
    bytes = h.bytes;
    segment = omega (arith, h.segment);
    segments = h.segments;
    od_len = h.od_len;
    buffer =
        let q = trigger Trigger.master_message p in
        let seg = p.isdu_handler.current_isdu_seg in
        omega (arith, h.buffer, segment_put-length (seg % 16) (p.message_handler.od_len * seg) q);
  }

  pub next_segment-octets :
      (p : Port)
      → IsSending request m n k p
      → length request ≡ isdu_max_size
      → octets (next_segment p) ≡ slice request (m * k) m
  next_segment-octets p h l =
      let q = trigger Trigger.master_message p in
      let seg = p.isdu_handler.current_isdu_seg in
      let od_len = p.message_handler.od_len in
      let at = ap₂ (λ a b. a * b) h.od_len h.segment in
      segment_put-octets (seg % 16) (od_len * seg) q
        (omega (arith, multiples m n k below, h.od_len, at, fits, l, ap length h.bytes))
        (omega (arith, h.buffer, h.od_len))
      ∙ ap (λ xs. slice xs (od_len * seg) od_len) h.bytes
      ∙ ap₂ (λ i j. slice request i j) at h.od_len

module _ (request : List ℕ) (m n k : ℕ) where
  same :
      (rx : Reply) (p : Port) → IsSending request m n k p → IsSending request m n k (replied rx p)
  same rx p h = record {
    quiet = record {
      od_state = h.quiet.od_state;
      ohcmd = h.quiet.ohcmd;
      control_code = h.quiet.control_code;
      event_flag = refl;
    };
    sending = h.sending;
    live = h.live;
    bytes = h.bytes;
    segment = h.segment;
    segments = h.segments;
    od_len = h.od_len;
    buffer = h.buffer;
  }

  pub device_step :
      (rx : Reply) (p : Port)
      → IsSilent rx
      → IsSending request m n k p
      → device_message rx p
        ≡ trigger Trigger.none (request_device (trigger Trigger.device_message (silent rx p)))
  device_step rx p s h =
      let q = trigger Trigger.device_message (silent rx p) in
      ap (λ x. iolink_dl_od_h_sm (trigger Trigger.device_message x)) (taken_in-silent rx p s)
      ∙ quiet_step q h.quiet.od_state h.quiet.ohcmd
          (quiet_uncommanded (silent rx p) Trigger.device_message record {
            od_state = h.quiet.od_state;
            ohcmd = h.quiet.ohcmd;
            control_code = h.quiet.control_code;
            event_flag = refl;
          })
          refl refl
      ∙ ap (λ r. trigger Trigger.none r) (response_step q h.sending h.live refl)

  reply_lem :
      (rx : Reply) (p : Port)
      → IsSilent rx
      → k < n
      → IsSending request m n k p
      → device_message rx p ≡ replied rx p
  unfolding request_device
  reply_lem rx p s b h = device_step rx p s h ∙ ground (arith, b, h.segment, h.segments)

  -- The device's reply to a segment that is not the last one changes nothing.
  pub reply_between :
      (rx : Reply) (p : Port)
      → IsSilent rx
      → k < n
      → IsSending request m n k p
      → IsSending request m n k (device_message rx p)
  reply_between rx p s b h =
      subst (IsSending request m n k) (sym (reply_lem rx p s b h)) (same rx p h)
