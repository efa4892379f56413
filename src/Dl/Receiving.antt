-- ===== src/Dl/Receiving.antt =====
-- How the ISDU handler of ilink/iolink_dl.c receives a response, a segment with each message.
use mathlib.Core.Path.{subst}
use iol_hat.Base.{ℕ, ◌+◌, ◌-◌, ◌*◌, ◌/◌, ◌%◌, ◌≤◌, ◌<◌, ◌≡◌, refl, ap, sym, ◌∙◌, arith}
use iol_hat.Base.{Bool, true, false, leb, if◌then◌else◌, some, u8}
use iol_hat.Base.{List, [], ◌∷◌, length, take, overwrite}
use iol_hat.Dl.State.{Port, IsduState, Trigger, Call, slice, set_isdu, isdu_max_size}
use iol_hat.Dl.Isdu.{get_isdu_total_len, get_isdu_total_segments, isdu_timer_elapsed}
use iol_hat.Dl.Isdu.{is_read_response, is_write_response}
use iol_hat.Dl.IsduHandler.{
  iolink_dl_isdu_h_sm, isdu_by_state, isdu_wait3, isdu_response5, is_stopped,
}
use iol_hat.Dl.IsduHandler.{response_device}
use iol_hat.Dl.IsduAnswers.{reception_complete}
use iol_hat.Dl.IsduHandler.{set_total, read_segment}
use iol_hat.Dl.Requests.{od_req, od_data, mc_ckt, Comchannel, flowctrl_start}
use iol_hat.Types.Dl.{Direction}
use iol_hat.Dl.OdHandler.{trigger}
use iol_hat.Dl.Sending.{
  IsQuiet, Reply, IsSilent, master_message, device_message, quiet_step, quiet_uncommanded,
}
use iol_hat.Dl.Reception.{total_of, start_of, a_of, b_of}

-- A response on the wire: `n` segments of `m` octets, of which the first `t` are the ISDU. The
-- first octet names a service of the direction that was asked for.
pub record IsResponse (read : Bool) (wire : List ℕ) (t m n : ℕ) : Type 0 where
  pub named : total_of (a_of wire) (b_of wire) ≡ some t
  pub proper : start_of (a_of wire) + 1 ≤ t
  pub serves :
      (if read then is_read_response (a_of wire / 16) else is_write_response (a_of wire / 16))
      ≡ true
  pub octet : a_of wire < 256
  pub segments : n ≡ (t + m - 1) / m
  pub whole : length wire ≡ m * n
  pub fits : m * n ≤ isdu_max_size

-- The replies from the `k`-th one on report no event and carry the segments of the wire.
abbrev pub Carries : List ℕ → ℕ → ℕ → List Reply → Type 0
Carries wire m k [] = length wire ≡ m * k
Carries wire m k (rx ∷ replies) =
    IsSilent rx × (take m rx.octets ≡ slice wire (m * k) m) × Carries wire m (k + 1) replies

-- All messages of a response, given the device's replies.
unfoldable pub receive : List Reply → Port → Port
receive [] p = p
receive (rx ∷ replies) p = receive replies (device_message rx (master_message p))

-- `k` segments of a response have been received, and there are more to come.
pub record IsReceiving (wire : List ℕ) (t m k : ℕ) (before : List Call) (p : Port) : Type 0 where
  pub quiet : IsQuiet p
  pub receiving : p.isdu_handler.state ≡ IsduState.isduresponse
  pub live : is_stopped p ≡ false
  pub segment : p.isdu_handler.current_isdu_seg ≡ k
  pub od_len : p.message_handler.od_len ≡ m
  pub array : length p.isdu_handler.isdu_data ≡ isdu_max_size
  pub stored : take (m * k) p.isdu_handler.isdu_data ≡ take (m * k) wire
  pub calls : p.out ≡ before

-- A read request in a message leaves all but the message as it is.
pub record IsAlike (p q : Port) : Type 0 where
  pub isdu : q.isdu_handler ≡ p.isdu_handler
  pub message : q.message_handler ≡ p.message_handler
  pub mode : q.mode_handler ≡ p.mode_handler
  pub quiet : IsQuiet q
  pub calls : q.out ≡ p.out
  pub now : q.now ≡ p.now

abbrev read_put : ℕ → Port → Port
read_put flowctrl p =
    od_data Direction.read p.message_handler.od_len []
      (mc_ckt Direction.read Comchannel.isdu flowctrl p)

pub read_segment_lem :
    (flowctrl : ℕ) (p : Port)
    → flowctrl ≤ 31
    → p.message_handler.od_len ≤ 32
    → read_segment flowctrl p ≡ read_put flowctrl p
unfolding od_req
read_segment_lem f p h m = ground (arith, h, m)

read_put-IsAlike :
    (flowctrl : ℕ) (p : Port)
    → IsQuiet p
    → IsAlike p (trigger Trigger.none (read_put flowctrl (trigger Trigger.master_message p)))
read_put-IsAlike f p h = record {
  isdu = refl;
  message = refl;
  mode = refl;
  quiet = record {
    od_state = h.od_state;
    ohcmd = h.ohcmd;
    control_code = h.control_code;
    event_flag = h.event_flag;
  };
  calls = refl;
  now = refl;
}

response_reads :
    (q : Port)
    → q.isdu_handler.state ≡ IsduState.isduresponse
    → is_stopped q ≡ false
    → q.od_handler.trigger ≡ Trigger.master_message
    → iolink_dl_isdu_h_sm q ≡ read_segment (q.isdu_handler.current_isdu_seg % 16) q
unfolding iolink_dl_isdu_h_sm isdu_by_state isdu_response5
response_reads q s l t = ground (arith, s, l, t)

wait_reads :
    (q : Port)
    → q.isdu_handler.state ≡ IsduState.isduwait
    → is_stopped q ≡ false
    → isdu_timer_elapsed q ≡ false
    → q.od_handler.trigger ≡ Trigger.master_message
    → iolink_dl_isdu_h_sm q ≡ read_segment flowctrl_start q
unfolding iolink_dl_isdu_h_sm isdu_by_state isdu_wait3
wait_reads q s l e t = ground (arith, s, l, e, t)

module _ (p : Port) (quiet : IsQuiet p) (small : p.message_handler.od_len ≤ 32)
    (live : is_stopped p ≡ false) where
  reading :
      (f : ℕ)
      → f ≤ 31
      → iolink_dl_isdu_h_sm (trigger Trigger.master_message p)
        ≡ read_segment f (trigger Trigger.master_message p)
      → IsAlike p (master_message p)
  reading f h e =
      let q = trigger Trigger.master_message p in
      subst (IsAlike p)
        (sym (
          quiet_step q quiet.od_state quiet.ohcmd (quiet_uncommanded p Trigger.master_message quiet)
            quiet.event_flag refl
          ∙ ap (λ r. trigger Trigger.none r) (e ∙ read_segment_lem f q h small)))
        (read_put-IsAlike f p quiet)

  pub master_receiving :
      p.isdu_handler.state ≡ IsduState.isduresponse → IsAlike p (master_message p)
  master_receiving s =
      reading (p.isdu_handler.current_isdu_seg % 16) (omega arith)
        (response_reads (trigger Trigger.master_message p) s live refl)

  not_elapsed :
      isdu_timer_elapsed p ≡ false → isdu_timer_elapsed (trigger Trigger.master_message p) ≡ false
  unfolding isdu_timer_elapsed
  not_elapsed e = e

  pub master_waiting :
      p.isdu_handler.state ≡ IsduState.isduwait
      → isdu_timer_elapsed p ≡ false
      → IsAlike p (master_message p)
  master_waiting s e =
      reading flowctrl_start (omega arith)
        (wait_reads (trigger Trigger.master_message p) s live (not_elapsed e) refl)

-- What a segment leaves behind.
abbrev pub stored_port : ℕ → ℕ → List ℕ → Port → Port
stored_port t n rx p =
    let h = p.isdu_handler in
    let m = p.message_handler.od_len in
    let kept = record h {
      total_isdu_len = t;
      total_isdu_seg = n;
      current_isdu_seg = h.current_isdu_seg + 1;
      isdu_data = overwrite h.isdu_data (h.current_isdu_seg * m) (take m rx);
    } in
    set_isdu kept p

pub response_device_lem :
    (t n : ℕ) (p : Port)
    → get_isdu_total_len p.isdu_handler ≡ some t
    → u8 ((t + p.message_handler.od_len - 1) / p.message_handler.od_len) ≡ n
    → p.isdu_handler.current_isdu_seg * p.message_handler.od_len + p.message_handler.od_len
      ≤ isdu_max_size
    → 0 < p.message_handler.od_len
    → p.isdu_handler.current_isdu_seg < 255
    → response_device p ≡ (
        if leb n (p.isdu_handler.current_isdu_seg + 1)
        then reception_complete (stored_port t n p.rxbuffer p)
        else stored_port t n p.rxbuffer p)
unfolding response_device set_total get_isdu_total_segments
response_device_lem t n p named seg inner some_m few =
    ground (arith, named, seg, inner, some_m, few)
