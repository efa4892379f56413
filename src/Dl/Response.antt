-- ===== src/Dl/Response.antt =====
-- From the first segment of a response to its confirmation, in ilink/iolink_dl.c.
use mathlib.Core.Path.{ap₂, subst}
use iol_hat.Base.{ℕ, ◌+◌, ◌*◌, ◌≤◌, ◌<◌, ◌≡◌, refl, ap, sym, ◌∙◌, arith}
use iol_hat.Base.{Bool, true, false, ◌||◌, leb, if◌then◌else◌}
use iol_hat.Base.{List, [], ◌∷◌, length, take, get_or}
use iol_hat.Base.{length-overwrite}
use iol_hat.Base.Slices.{get_or_prefix}
use iol_hat.Dl.State.{Port, IsduState, IsduH, Trigger, Call, slice, isdu_max_size}
use iol_hat.Dl.Isdu.{isdu_timer_elapsed}
use iol_hat.Dl.IsduAnswers.{set_state, reception_complete}
use iol_hat.Dl.IsduHandler.{by_first}
use iol_hat.Dl.IsduAnswers.{is_abort, is_comlost}
use iol_hat.Dl.OdHandler.{trigger}
use iol_hat.Dl.Sending.{Reply, IsSilent, master_message, device_message}
use iol_hat.Dl.Transfer.{IsWaiting}
use iol_hat.Dl.Reception.{IsConfirmed, a_of}
use iol_hat.Dl.Receiving.{IsResponse, IsReceiving, IsAlike, Carries, receive}
use iol_hat.Dl.Receiving.{master_receiving, master_waiting}
use iol_hat.Dl.Received.{receives-next, receives-last, completes, grown, octet_count, room}
use iol_hat.Dl.Received.{total_len, device_quiet, wait_receives, replied, outcome}
use iol_hat.Dl.FirstSegment.{
  put, store_lem, by_first_lem, wait_lem, begun, first_segment_lem, valid_header, first_octet,
  is_not, no_octets, replied_in_time, elapsed_alike,
}

-- The response is awaited in time, and its segments find their place.
pub record IsAwaiting (read : Bool) (m : ℕ) (before : List Call) (p : Port) : Type 0 where
  pub waiting : IsWaiting m p
  pub in_time : isdu_timer_elapsed p ≡ false
  pub asked : p.isdu_handler.data_dir_read ≡ read
  pub array : length p.isdu_handler.isdu_data ≡ isdu_max_size
  pub calls : p.out ≡ before

module _ (wire : List ℕ) (t m n : ℕ) (read : Bool) (r : IsResponse read wire t m n)
    (octets : m ≤ 32) (two : 2 ≤ m) (some_segment : 0 < n) (before : List Call) where
  abbrev begun_or_done : Port → Port
  begun_or_done x =
      trigger Trigger.none
        (if leb n 1 then reception_complete x else set_state IsduState.isduresponse x)

  module _ (p : Port) (rx : Reply) (s : IsSilent rx) (h : IsAwaiting read m before p)
      (c : take m rx.octets ≡ slice wire (m * 0) m) where
    abbrev held : IsduH
    held = (put (replied rx p)).isdu_handler

    stored : take (m * 1) held.isdu_data ≡ take (m * 1) wire
    stored =
        grown wire t m n read r octets two before 0 p rx some_segment c h.waiting.od_len
          h.waiting.segment h.array (no_octets (m * 0) _ _ (omega arith))

    first_same : get_or held.isdu_data 0 0 ≡ a_of wire
    first_same = get_or_prefix held.isdu_data wire (m * 1) 0 0 stored (omega arith)

    receives_first : device_message rx p ≡ begun_or_done (begun t n (put (replied rx p)))
    receives_first =
        let q = replied rx p in
        let inner : p.isdu_handler.current_isdu_seg * p.message_handler.od_len
              + p.message_handler.od_len
            ≤ isdu_max_size =
          omega (
            arith,
            room wire t m n read r octets two before 0 some_segment,
            ap₂ (λ i j. i * j) h.waiting.segment h.waiting.od_len,
            h.waiting.od_len,
          ) in
        let big = first_octet read wire t m n (get_or held.isdu_data 0 0) r first_same in
        device_quiet rx p s h.waiting.quiet
        ∙ ap (λ x. trigger Trigger.none x)
            (wait_receives q h.waiting.waiting h.waiting.live (replied_in_time rx p h.in_time) refl
              ∙ wait_lem q
              ∙ ap by_first (store_lem q inner)
              ∙ by_first_lem (put q) (is_not _ 1 (omega arith) big) (is_not _ 0 (omega arith) big)
                  (valid_header read wire t m n held r first_same h.asked)
              ∙ first_segment_lem t n (put q)
                  (total_len wire t (m * 1) held (omega arith) r.named stored)
                  (octet_count wire t m n read r octets two before p.message_handler.od_len
                    h.waiting.od_len)
                  (omega (arith, h.waiting.od_len)))

    receives_first-more : 1 < n → IsReceiving wire t m 1 before (device_message rx p)
    receives_first-more b =
        let x = begun t n (put (replied rx p)) in
        let e : device_message rx p ≡ trigger Trigger.none (set_state IsduState.isduresponse x) =
          receives_first
          ∙ ap
              (λ c.
                trigger Trigger.none
                  (if c then reception_complete x else set_state IsduState.isduresponse x))
              {x = leb n 1} {y = false} (ground (arith, b)) in
        subst (IsReceiving wire t m 1 before) (sym e) record {
          quiet = record {
            od_state = h.waiting.quiet.od_state;
            ohcmd = h.waiting.quiet.ohcmd;
            control_code = h.waiting.quiet.control_code;
            event_flag = refl;
          };
          receiving = refl;
          live = h.waiting.live;
          segment = refl;
          od_len = h.waiting.od_len;
          array =
              length-overwrite p.isdu_handler.isdu_data
                (p.isdu_handler.current_isdu_seg * p.message_handler.od_len)
                (take p.message_handler.od_len rx.octets)
              ∙ h.array;
          stored = stored;
          calls = h.calls;
        }

    receives_first-all : n ≡ 1 → IsConfirmed wire t before (device_message rx p)
    receives_first-all b =
        let x = begun t n (put (replied rx p)) in
        let all : leb n 1 ≡ true = ground (arith, b) in
        let e : device_message rx p ≡ outcome wire t m n read r octets two before 0 x =
          receives_first
          ∙ ap
              (λ c.
                trigger Trigger.none
                  (if c then reception_complete x else set_state IsduState.isduresponse x))
              all
          ∙ sym (ap (λ c. trigger Trigger.none (if c then reception_complete x else x)) all) in
        subst (IsConfirmed wire t before) (sym e) (
          completes wire t m n read r octets two before x 0 (omega arith) some_segment refl stored
            h.calls)

  alike-IsReceiving :
      (k : ℕ) (p q : Port)
      → IsReceiving wire t m k before p
      → IsAlike p q
      → IsReceiving wire t m k before q
  alike-IsReceiving k p q h a = record {
    quiet = a.quiet;
    receiving = ap (λ i. i.state) a.isdu ∙ h.receiving;
    live = ap₂ (λ x y. is_abort x.rwcmd || is_comlost y.mhinfo) a.message a.mode ∙ h.live;
    segment = ap (λ i. i.current_isdu_seg) a.isdu ∙ h.segment;
    od_len = ap (λ i. i.od_len) a.message ∙ h.od_len;
    array = ap (λ i. length i.isdu_data) a.isdu ∙ h.array;
    stored = ap (λ i. take (m * k) i.isdu_data) a.isdu ∙ h.stored;
    calls = a.calls ∙ h.calls;
  }

  asked-IsReceiving :
      (k : ℕ) (p : Port)
      → IsReceiving wire t m k before p
      → IsReceiving wire t m k before (master_message p)
  asked-IsReceiving k p h =
      alike-IsReceiving k p (master_message p) h
        (master_receiving p h.quiet (omega (arith, h.od_len, octets)) h.live h.receiving)

  -- Segment after segment.
  receive-rest :
      (replies : List Reply) (k : ℕ) (p : Port)
      → 0 < k
      → k < n
      → k + length replies ≡ n
      → IsReceiving wire t m k before p
      → Carries wire m k replies
      → IsConfirmed wire t before (receive replies p)
  unfolding receive
  receive-rest [] k p s b l h c = absurd (omega (arith, l))
  receive-rest (rx ∷ []) k p s b l h (e, c, cs) =
      receives-last wire t m n read r octets two before k (master_message p) rx s (omega (arith, l))
        e (asked-IsReceiving k p h) c
  receive-rest (rx ∷ (ry ∷ replies)) k p s b l h (e, c, cs) =
      receive-rest (ry ∷ replies) (k + 1) (device_message rx (master_message p)) (omega arith)
        (omega (arith, l)) (omega (arith, l))
        (receives-next wire t m n read r octets two before k (master_message p) rx s
          (omega (arith, l)) e (asked-IsReceiving k p h) c)
        cs

  asked-IsAwaiting :
      (p : Port) → IsAwaiting read m before p → IsAwaiting read m before (master_message p)
  asked-IsAwaiting p h =
      let w = h.waiting in
      let a =
        master_waiting p w.quiet (omega (arith, w.od_len, octets)) w.live w.waiting h.in_time in
      record {
        waiting = record {
          quiet = a.quiet;
          waiting = ap (λ i. i.state) a.isdu ∙ w.waiting;
          live = ap₂ (λ x y. is_abort x.rwcmd || is_comlost y.mhinfo) a.message a.mode ∙ w.live;
          segment = ap (λ i. i.current_isdu_seg) a.isdu ∙ w.segment;
          od_len = ap (λ i. i.od_len) a.message ∙ w.od_len;
        };
        in_time = elapsed_alike p (master_message p) a ∙ h.in_time;
        asked = ap (λ i. i.data_dir_read) a.isdu ∙ h.asked;
        array = ap (λ i. length i.isdu_data) a.isdu ∙ h.array;
        calls = a.calls ∙ h.calls;
      }

  -- A response whose segments come in time is confirmed once, when the last one has come, with its
  -- service, its data and whether its checksum is right; the handler is idle again. No command and no
  -- event is pending and no reply reports one, messages have 2 to 32 octets of on-request data, the
  -- length in the response is more than its overhead, and all segments fit into `isdu_data`.
  pub response-IsConfirmed :
      (replies : List Reply) (p : Port)
      → IsAwaiting read m before p
      → length replies ≡ n
      → Carries wire m 0 replies
      → IsConfirmed wire t before (receive replies p)
  unfolding receive
  response-IsConfirmed [] p h l c = absurd (omega (arith, l, some_segment))
  response-IsConfirmed (rx ∷ []) p h l (e, c, cs) =
      receives_first-all (master_message p) rx e (asked-IsAwaiting p h) c (omega (arith, l))
  response-IsConfirmed (rx ∷ (ry ∷ replies)) p h l (e, c, cs) =
      receive-rest (ry ∷ replies) 1 (device_message rx (master_message p)) (omega arith)
        (omega (arith, l)) (omega (arith, l))
        (receives_first-more (master_message p) rx e (asked-IsAwaiting p h) c (omega (arith, l))) cs
