-- ===== src/Dl/Transfer.antt =====
-- A whole request of ilink/iolink_dl.c: the messages that carry it, and what a device reads.
use mathlib.Core.Path.{ap₂, subst}
use iol_hat.Base.{ℕ, ◌+◌, ◌-◌, ◌*◌, ◌≤◌, ◌<◌, ◌≡◌, refl, ap, sym, ◌∙◌, arith, false}
use iol_hat.Base.{List, [], ◌∷◌, ◌++◌, length, take, drop, zero, suc}
use iol_hat.Base.Slices.{take-slice, drop-drop}
use iol_hat.Dl.State.{Port, IsduState, IhCmd, Trigger, RwCmd, slice, set_isdu, isdu_max_size}
use iol_hat.Dl.Isdu.{isdu_timer_start}
use iol_hat.Dl.Requests.{flowctrl_start}
use iol_hat.Dl.IsduHandler.{
  iolink_dl_isdu_h_sm, isdu_by_state, idle1, idle_master, write_segment, is_stopped, request_device,
}
use iol_hat.Dl.OdHandler.{trigger}
use iol_hat.Dl.Sending.{IsQuiet, IsSending, Reply, IsSilent, silent, master_message, device_message}
use iol_hat.Dl.Segments.{octets}
use iol_hat.Dl.Segments.{segment_put, segment_put_lem, segment_put-octets, segment_put-length}
use iol_hat.Dl.Sending.{quiet_step, quiet_uncommanded, master_message_lem, next_segment-IsSending}
use iol_hat.Dl.Sending.{next_segment-octets, reply_between, device_step}

-- The request has been sent and its response is awaited, from its first segment on.
pub record IsWaiting (m : ℕ) (p : Port) : Type 0 where
  pub quiet : IsQuiet p
  pub waiting : p.isdu_handler.state ≡ IsduState.isduwait
  pub live : is_stopped p ≡ false
  pub segment : p.isdu_handler.current_isdu_seg ≡ 0
  pub od_len : p.message_handler.od_len ≡ m

-- A request has been accepted, of which no segment has been sent.
pub record IsAccepted (request : List ℕ) (m n : ℕ) (p : Port) : Type 0 where
  pub quiet : IsQuiet p
  pub idle : p.isdu_handler.state ≡ IsduState.idle
  pub ihcmd : p.isdu_handler.ihcmd ≡ IhCmd.active
  pub rwcmd : p.message_handler.rwcmd ≡ RwCmd.isdutransport
  pub live : is_stopped p ≡ false
  pub bytes : p.isdu_handler.isdu_data ≡ request
  pub segments : p.isdu_handler.total_isdu_seg ≡ n
  pub od_len : p.message_handler.od_len ≡ m
  pub buffer : p.od_handler.odout_buffer + m ≤ length p.txbuffer

-- None of the replies reports an event.
abbrev pub AreSilent : List Reply → Type 0
AreSilent [] = Unit {0}
AreSilent (rx ∷ replies) = IsSilent rx × AreSilent replies

-- The messages behind the first one, one for each reply but the last, and their octets.
abbrev send_rest : List Reply → Port → Port × List ℕ
send_rest [] p = (p, [])
send_rest (rx ∷ []) p = (device_message rx p, [])
send_rest (rx ∷ (ry ∷ replies)) p =
    let q = master_message (device_message rx p) in
    let (r, more) = send_rest (ry ∷ replies) q in (r, octets q ++ more)

-- All messages of a request, given the device's replies.
unfoldable pub transfer : List Reply → Port → Port × List ℕ
transfer replies p =
    let q = master_message p in let (r, more) = send_rest replies q in (r, octets q ++ more)

abbrev waits : Reply → Port → Port
unfolding isdu_timer_start
waits rx p =
    let q = isdu_timer_start (trigger Trigger.device_message (silent rx p)) in
    let h = record q.isdu_handler { current_isdu_seg = 0; state = IsduState.isduwait } in
    trigger Trigger.none (set_isdu h q)

reply_last_lem :
    (request : List ℕ) (m n : ℕ) (rx : Reply) (p : Port)
    → IsSilent rx
    → IsSending request m n n p
    → device_message rx p ≡ waits rx p
unfolding request_device isdu_timer_start waits
reply_last_lem request m n rx p s h =
    device_step request m n n rx p s h ∙ ground (arith, h.segment, h.segments)

waits-IsWaiting :
    (request : List ℕ) (m n : ℕ) (rx : Reply) (p : Port)
    → IsSending request m n n p
    → IsWaiting m (waits rx p)
unfolding isdu_timer_start waits
waits-IsWaiting request m n rx p h = record {
  quiet = record {
    od_state = h.quiet.od_state;
    ohcmd = h.quiet.ohcmd;
    control_code = h.quiet.control_code;
    event_flag = refl;
  };
  waiting = refl;
  live = h.live;
  segment = refl;
  od_len = h.od_len;
}

slice_more : (xs : List ℕ) (i a b : ℕ) → slice xs i (a + b) ≡ slice xs i a ++ slice xs (i + a) b
slice_more xs i a b =
    take-slice (drop i xs) a b refl
    ∙ ap (λ ys. take a (drop i xs) ++ take b ys) (sym (drop-drop xs i a refl))

module _ (request : List ℕ) (m n : ℕ) (fits : m * n ≤ isdu_max_size) (small : m ≤ 32)
    (sized : length request ≡ isdu_max_size) (few : n < 256) where
  abbrev IsSent : ℕ → ℕ → Port × List ℕ → Type 0
  IsSent k j (p, sent) = IsWaiting m p × (sent ≡ slice request (m * k) (m * j))

  -- A message of a request: its octets and what follows.
  message :
      (k : ℕ) (p : Port)
      → k < n
      → IsSending request m n k p
      → IsSending request m n (k + 1) (master_message p)
        × (octets (master_message p) ≡ slice request (m * k) m)
  message k p b h =
      let e = master_message_lem request m n k fits small b p h in
      (
        subst (IsSending request m n (k + 1)) (sym e)
            (next_segment-IsSending request m n k fits small b p few h),
        ap octets e ∙ next_segment-octets request m n k fits small b p h sized,
      )

  joined :
      (k j : ℕ)
      → slice request (m * k) m ++ slice request (m * (k + 1)) (m * j)
        ≡ slice request (m * k) (m * suc j)
  joined k j =
      ap (λ i. slice request (m * k) m ++ slice request i (m * j)) (omega arith)
      ∙ sym (slice_more request (m * k) m (m * j))
      ∙ ap (λ i. slice request (m * k) i) (omega arith)

  send_rest-IsSent :
      (replies : List Reply) (k j : ℕ) (p : Port)
      → length replies ≡ j + 1
      → k + j ≡ n
      → AreSilent replies
      → IsSending request m n k p
      → IsSent k j (send_rest replies p)
  send_rest-IsSent [] k j p l e s h = absurd (omega arith)
  send_rest-IsSent (rx ∷ []) k zero p l e (s, ss) h =
      let last : IsSending request m n n p =
        subst (λ i. IsSending request m n i p) (omega (arith, e)) h in
      (
        subst (IsWaiting m) (sym (reply_last_lem request m n rx p s last))
            (waits-IsWaiting request m n rx p last),
        ap (λ i. slice request (m * k) i) none_left,
      )
    where
      none_left : 0 ≡ m * 0
      none_left = omega arith
  send_rest-IsSent (rx ∷ []) k (suc j) p l e s h = absurd (omega arith)
  send_rest-IsSent (rx ∷ (ry ∷ replies)) k zero p l e s h = absurd (omega arith)
  send_rest-IsSent (rx ∷ (ry ∷ replies)) k (suc j) p l e (s, ss) h =
      let replied = reply_between request m n k rx p s (omega (arith, e)) h in
      let (next, out) = message k (device_message rx p) (omega (arith, e)) replied in
      let (rest, more) =
        send_rest-IsSent (ry ∷ replies) (k + 1) j (master_message (device_message rx p))
          (omega (arith, l)) (omega (arith, e)) ss next in
      (rest, ap₂ (λ xs ys. xs ++ ys) out more ∙ joined k j)

  abbrev started : Port → Port
  started r =
      set_isdu (record r.isdu_handler { current_isdu_seg = 1; state = IsduState.isdurequest }) r

  -- The first segment starts the transfer.
  idle_step :
      (q : Port)
      → q.isdu_handler.state ≡ IsduState.idle
      → q.isdu_handler.ihcmd ≡ IhCmd.active
      → q.od_handler.trigger ≡ Trigger.master_message
      → q.message_handler.rwcmd ≡ RwCmd.isdutransport
      → iolink_dl_isdu_h_sm q ≡ started (write_segment flowctrl_start 0 q)
  unfolding iolink_dl_isdu_h_sm isdu_by_state idle1 idle_master
  idle_step q s i t r = ground (arith, s, i, t, r)

  abbrev first : Port → Port
  first p =
      trigger Trigger.none
        (started (segment_put flowctrl_start 0 (trigger Trigger.master_message p)))

  first_lem : (p : Port) → IsAccepted request m n p → master_message p ≡ first p
  first_lem p h =
      let q = trigger Trigger.master_message p in
      let within : 0 + p.message_handler.od_len ≤ isdu_max_size = omega (arith, h.od_len, small) in
      quiet_step q h.quiet.od_state h.quiet.ohcmd
        (quiet_uncommanded p Trigger.master_message h.quiet) h.quiet.event_flag refl
      ∙ ap (λ r. trigger Trigger.none r)
          (idle_step q h.idle h.ihcmd refl h.rwcmd
            ∙ ap started (
                segment_put_lem flowctrl_start 0 q (omega arith) (omega (arith, h.od_len, small))
                  within))

  first-IsSending : (p : Port) → IsAccepted request m n p → IsSending request m n 1 (first p)
  first-IsSending p h = record {
    quiet = record {
      od_state = h.quiet.od_state;
      ohcmd = h.quiet.ohcmd;
      control_code = h.quiet.control_code;
      event_flag = h.quiet.event_flag;
    };
    sending = refl;
    live = h.live;
    bytes = h.bytes;
    segment = refl;
    segments = h.segments;
    od_len = h.od_len;
    buffer =
        omega
          (arith, h.buffer, segment_put-length flowctrl_start 0 (trigger Trigger.master_message p));
  }

  first-octets : (p : Port) → IsAccepted request m n p → octets (first p) ≡ slice request 0 m
  first-octets p h =
      segment_put-octets flowctrl_start 0 (trigger Trigger.master_message p)
        (omega (arith, h.od_len, small, sized, ap length h.bytes))
        (omega (arith, h.buffer, h.od_len))
      ∙ ap₂ (λ xs i. slice xs 0 i) h.bytes h.od_len

  pub transfer-sent :
      (replies : List Reply) (p : Port)
      → 0 < n
      → length replies ≡ n
      → AreSilent replies
      → IsAccepted request m n p
      → IsWaiting m (transfer replies p).0 × ((transfer replies p).1 ≡ take (m * n) request)
  unfolding transfer
  transfer-sent replies p k l s h =
      let e = first_lem p h in
      let sending = subst (IsSending request m n 1) (sym e) (first-IsSending p h) in
      let (waiting, more) =
        send_rest-IsSent replies 1 (n - 1) (master_message p) (omega arith) (omega arith) s
          sending in
      (
        waiting,
        ap₂ (λ xs ys. xs ++ ys) (ap octets e ∙ first-octets p h) more
            ∙ ap (λ i. slice request 0 m ++ slice request i (m * (n - 1))) from_m
            ∙ sym (slice_more request 0 m (m * (n - 1)))
            ∙ ap (λ i. take i request) whole,
      )
    where
      from_m : m * 1 ≡ 0 + m
      from_m = omega arith

      whole : m + m * (n - 1) ≡ m * n
      whole = omega (arith, ap (λ i. m * i) {x = n} {y = n - 1 + 1} (omega arith))
