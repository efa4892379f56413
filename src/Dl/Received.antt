-- ===== src/Dl/Received.antt =====
-- A whole response of ilink/iolink_dl.c: what has been confirmed when its last segment has come.
use mathlib.Core.Path.{ap₂, subst}
use iol_hat.Base.{ℕ, ◌+◌, ◌-◌, ◌*◌, ◌/◌, ◌≤◌, ◌<◌, ◌≡◌, refl, ap, sym, ◌∙◌, arith}
use iol_hat.Base.{Bool, true, false, leb, if◌then◌else◌, some, u8}
use iol_hat.Base.{List, ◌++◌, length, take, drop, overwrite}
use iol_hat.Base.{take-overwrite_block, length-overwrite, length-take, length-drop}
use iol_hat.Base.Slices.{take-slice, get_or_prefix, take_shorter}
use iol_hat.Dl.State.{Port, IsduState, IsduH, Trigger, Call, slice, isdu_max_size}
use iol_hat.Dl.Isdu.{get_isdu_total_len, get_isdu_len, isdu_timer_elapsed}
use iol_hat.Dl.IsduHandler.{
  iolink_dl_isdu_h_sm, isdu_by_state, isdu_wait3, isdu_response5, is_stopped,
}
use iol_hat.Dl.IsduHandler.{wait_device, response_device}
use iol_hat.Dl.IsduAnswers.{reception_complete}
use iol_hat.Dl.OdHandler.{iolink_dl_od_h_sm, trigger}
use iol_hat.Dl.Sending.{
  IsQuiet, Reply, IsSilent, silent, taken_in-silent, device_message, quiet_step,
}
use iol_hat.Dl.Sending.{multiples}
use native.Mathlib.Nat.{mul-le-mul_left}
use iol_hat.Dl.Delivered.{few_segments, segments_carry}
use iol_hat.Dl.Reception.{IsConfirmed, total_of, a_of, b_of}
use iol_hat.Dl.Reception.{reception_complete-IsConfirmed}
use iol_hat.Dl.Receiving.{IsResponse, IsReceiving, stored_port}
use iol_hat.Dl.Receiving.{response_device_lem}

-- The segment that comes next completes the prefix of the wire that has been stored.
prefix-grows :
    (wire stored rx : List ℕ) (m k : ℕ)
    → take (m * k) stored ≡ take (m * k) wire
    → take m rx ≡ slice wire (m * k) m
    → m * k + m ≤ length wire
    → m * k + m ≤ length stored
    → take (m * (k + 1)) (overwrite stored (k * m) (take m rx)) ≡ take (m * (k + 1)) wire
prefix-grows wire stored rx m k e c w h =
    let sized : length (take m rx) ≡ m =
      omega (arith, ap length c, length-take m (drop (m * k) wire), length-drop (m * k) wire, w) in
    take-overwrite_block stored (k * m) (m * (k + 1)) (take m rx) (omega (arith, sized))
      (omega arith)
    ∙ ap (λ i. take i stored ++ take m rx) {x = k * m} {y = m * k} (omega arith)
    ∙ ap₂ (λ xs ys. xs ++ ys) e c
    ∙ sym (take-slice wire (m * k) m (omega arith))

pub trigger-IsConfirmed :
    (wire : List ℕ) (t : ℕ) (before : List Call) (q : Port)
    → IsConfirmed wire t before q
    → IsConfirmed wire t before (trigger Trigger.none q)
trigger-IsConfirmed wire t before q h = record {
  response = h.response;
  idle = h.idle;
  rwcmd = h.rwcmd;
  confirmed = h.confirmed;
  same = h.same;
}

-- The length that stands in what has been stored.
pub total_len :
    (wire : List ℕ) (t n : ℕ) (h : IsduH)
    → 2 ≤ n
    → total_of (a_of wire) (b_of wire) ≡ some t
    → take n h.isdu_data ≡ take n wire
    → get_isdu_total_len h ≡ some t
unfolding get_isdu_total_len get_isdu_len
total_len wire t n h k named e =
    ap₂ total_of (get_or_prefix _ _ n 0 0 e (omega arith)) (get_or_prefix _ _ n 1 0 e (omega arith))
    ∙ named

response_receives :
    (q : Port)
    → q.isdu_handler.state ≡ IsduState.isduresponse
    → is_stopped q ≡ false
    → q.od_handler.trigger ≡ Trigger.device_message
    → iolink_dl_isdu_h_sm q ≡ response_device q
unfolding iolink_dl_isdu_h_sm isdu_by_state isdu_response5
response_receives q s l t = ground (arith, s, l, t)

pub wait_receives :
    (q : Port)
    → q.isdu_handler.state ≡ IsduState.isduwait
    → is_stopped q ≡ false
    → isdu_timer_elapsed q ≡ false
    → q.od_handler.trigger ≡ Trigger.device_message
    → iolink_dl_isdu_h_sm q ≡ wait_device q
unfolding iolink_dl_isdu_h_sm isdu_by_state isdu_wait3
wait_receives q s l e t = ground (arith, s, l, e, t)

abbrev pub replied : Reply → Port → Port
replied rx p = trigger Trigger.device_message (silent rx p)

pub device_quiet :
    (rx : Reply) (p : Port)
    → IsSilent rx
    → IsQuiet p
    → device_message rx p ≡ trigger Trigger.none (iolink_dl_isdu_h_sm (replied rx p))
device_quiet rx p s h =
    ap (λ x. iolink_dl_od_h_sm (trigger Trigger.device_message x)) (taken_in-silent rx p s)
    ∙ quiet_step (replied rx p) h.od_state h.ohcmd (ground (arith, h.control_code)) refl refl

module _ (wire : List ℕ) (t m n : ℕ) (read : Bool) (r : IsResponse read wire t m n)
    (octets : m ≤ 32) (two : 2 ≤ m) (before : List Call) where
  abbrev pub outcome : ℕ → Port → Port
  outcome k x = trigger Trigger.none (if leb n (k + 1) then reception_complete x else x)

  pub carried : t ≤ m * n
  carried = omega (arith, segments_carry t m (omega arith), ap (λ i. m * i) r.segments)

  pub few : n < 256
  few = omega (arith, few_segments m n (omega arith), r.fits)

  pub octet_count : (i : ℕ) → i ≡ m → u8 ((t + i - 1) / i) ≡ n
  octet_count i e =
      let count : (t + i - 1) / i ≡ n = ap (λ j. (t + j - 1) / j) e ∙ sym r.segments in
      omega (arith, count, few)

  pub header_in : (k : ℕ) → 0 < k → 2 ≤ m * k
  header_in k h = omega (arith, mul-le-mul_left {m = 1} {n = k} m (omega arith))

  pub room : (k : ℕ) → k < n → m * k + m ≤ isdu_max_size
  room k b = omega (arith, multiples m n k b, r.fits)

  receives :
      (k : ℕ) (p : Port) (rx : Reply)
      → 0 < k
      → k < n
      → IsSilent rx
      → IsReceiving wire t m k before p
      → device_message rx p ≡ outcome k (stored_port t n rx.octets (replied rx p))
  receives k p rx some_k b s h =
      let q = replied rx p in
      let named = total_len wire t (m * k) p.isdu_handler (header_in k some_k) r.named h.stored in
      let inner : p.isdu_handler.current_isdu_seg * p.message_handler.od_len
            + p.message_handler.od_len
          ≤ isdu_max_size =
        omega (arith, room k b, ap₂ (λ i j. i * j) h.segment h.od_len, h.od_len) in
      device_quiet rx p s h.quiet
      ∙ ap (λ x. trigger Trigger.none x)
          (response_receives q h.receiving h.live refl
            ∙ response_device_lem t n q named (octet_count p.message_handler.od_len h.od_len) inner
                (omega (arith, h.od_len, two)) (omega (arith, h.segment, b, few)))
      ∙ ap (λ i. outcome i (stored_port t n rx.octets q)) h.segment

  -- What has been stored after one more segment.
  pub grown :
      (k : ℕ) (p : Port) (rx : Reply)
      → k < n
      → take m rx.octets ≡ slice wire (m * k) m
      → p.message_handler.od_len ≡ m
      → p.isdu_handler.current_isdu_seg ≡ k
      → length p.isdu_handler.isdu_data ≡ isdu_max_size
      → take (m * k) p.isdu_handler.isdu_data ≡ take (m * k) wire
      → take (m * (k + 1)) (
          overwrite p.isdu_handler.isdu_data
            (p.isdu_handler.current_isdu_seg * p.message_handler.od_len)
            (take p.message_handler.od_len rx.octets))
        ≡ take (m * (k + 1)) wire
  grown k p rx b c om es l e =
      ap₂
        (λ i j. take (m * (k + 1)) (overwrite p.isdu_handler.isdu_data (i * j) (take j rx.octets)))
        es om
      ∙ prefix-grows wire p.isdu_handler.isdu_data rx.octets m k e c
          (omega (arith, multiples m n k b, r.whole)) (omega (arith, room k b, l))

  -- The last segment completes the response.
  pub completes :
      (x : Port) (k : ℕ)
      → n ≤ k + 1
      → k < n
      → x.isdu_handler.total_isdu_len ≡ t
      → take (m * (k + 1)) x.isdu_handler.isdu_data ≡ take (m * (k + 1)) wire
      → x.out ≡ before
      → IsConfirmed wire t before (outcome k x)
  completes x k b l total e o =
      let all : k + 1 ≡ n = omega arith in
      let within : t ≤ m * (k + 1) = omega (arith, carried, ap (λ i. m * i) all) in
      let done =
        reception_complete-IsConfirmed wire t r.named x total
          (take_shorter x.isdu_handler.isdu_data wire t (m * (k + 1)) within e)
          (omega (arith, carried, r.fits)) r.proper in
      let last : leb n (k + 1) ≡ true = ground (arith, b) in
      subst
        (λ c.
          IsConfirmed wire t before (trigger Trigger.none (if c then reception_complete x else x)))
        (sym last)
        (trigger-IsConfirmed wire t before (reception_complete x)
          (subst (λ o. IsConfirmed wire t o (reception_complete x)) o done))

  pub receives-next :
      (k : ℕ) (p : Port) (rx : Reply)
      → 0 < k
      → k + 1 < n
      → IsSilent rx
      → IsReceiving wire t m k before p
      → take m rx.octets ≡ slice wire (m * k) m
      → IsReceiving wire t m (k + 1) before (device_message rx p)
  receives-next k p rx some_k b s h c =
      let q = stored_port t n rx.octets (replied rx p) in
      let more : leb n (k + 1) ≡ false = ground (arith, b) in
      let e : device_message rx p ≡ trigger Trigger.none q =
        receives k p rx some_k (omega arith) s h
        ∙ ap (λ c. trigger Trigger.none (if c then reception_complete q else q)) more in
      subst (IsReceiving wire t m (k + 1) before) (sym e) record {
        quiet = record {
          od_state = h.quiet.od_state;
          ohcmd = h.quiet.ohcmd;
          control_code = h.quiet.control_code;
          event_flag = refl;
        };
        receiving = h.receiving;
        live = h.live;
        segment = ap (λ i. i + 1) h.segment;
        od_len = h.od_len;
        array =
            length-overwrite p.isdu_handler.isdu_data
              (p.isdu_handler.current_isdu_seg * p.message_handler.od_len)
              (take p.message_handler.od_len rx.octets)
            ∙ h.array;
        stored = grown k p rx (omega arith) c h.od_len h.segment h.array h.stored;
        calls = h.calls;
      }

  pub receives-last :
      (k : ℕ) (p : Port) (rx : Reply)
      → 0 < k
      → k + 1 ≡ n
      → IsSilent rx
      → IsReceiving wire t m k before p
      → take m rx.octets ≡ slice wire (m * k) m
      → IsConfirmed wire t before (device_message rx p)
  receives-last k p rx some_k b s h c =
      let q = stored_port t n rx.octets (replied rx p) in
      subst (IsConfirmed wire t before) (sym (receives k p rx some_k (omega arith) s h)) (
        completes q k (omega arith) (omega arith) refl
          (grown k p rx (omega arith) c h.od_len h.segment h.array h.stored) h.calls)
