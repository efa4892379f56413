-- ===== src/Dl/FirstSegment.antt =====
-- The first segment of a response in ilink/iolink_dl.c.
use mathlib.Core.Path.{ap₂}
use iol_hat.Base.{ℕ, ◌+◌, ◌-◌, ◌*◌, ◌/◌, ◌≤◌, ◌<◌, ◌≡◌, refl, arith}
use iol_hat.Base.{
  Bool, true, false, not, ◌&&◌, ltb, u32, ◌==◌, leb, if◌then◌else◌, some, u8, zero, suc,
}
use iol_hat.Base.{List, take, overwrite, get_or}
use iol_hat.Dl.State.{Port, IsduState, IsduH, set_isdu, isdu_max_size}
use iol_hat.Dl.Isdu.{get_isdu_total_len, get_isdu_len, isdu_timer_elapsed, isdu_timer_reset}
use iol_hat.Dl.Isdu.{valid_isdu_header, get_isdu_iserv}
use iol_hat.Dl.Isdu.{get_isdu_total_segments}
use iol_hat.Dl.IsduHandler.{wait_device, first_segment}
use iol_hat.Dl.IsduAnswers.{set_state, reception_complete}
use iol_hat.Dl.IsduHandler.{set_total, store_segment, by_first}
use iol_hat.Dl.Reception.{a_of}
use iol_hat.Dl.Receiving.{IsResponse, IsAlike}
use iol_hat.Dl.Received.{replied}
use iol_hat.Dl.Sending.{Reply}

-- A segment that is stored inside of the array.
abbrev pub put : Port → Port
put p =
    let h = p.isdu_handler in
    let m = p.message_handler.od_len in
    let filled = overwrite h.isdu_data (h.current_isdu_seg * m) (take m p.rxbuffer) in
    set_isdu (record h { isdu_data = filled }) p

pub store_lem :
    (p : Port)
    → p.isdu_handler.current_isdu_seg * p.message_handler.od_len + p.message_handler.od_len
      ≤ isdu_max_size
    → store_segment p ≡ put p
store_lem p h = ground (arith, h)

pub by_first_lem :
    (q : Port)
    → (get_or q.isdu_handler.isdu_data 0 0 == 1) ≡ false
    → (get_or q.isdu_handler.isdu_data 0 0 == 0) ≡ false
    → valid_isdu_header q.isdu_handler ≡ true
    → by_first q ≡ first_segment q
unfolding by_first
by_first_lem q one none valid = ground (arith, one, none, valid)

pub wait_lem : (p : Port) → wait_device p ≡ by_first (store_segment p)
unfolding wait_device
wait_lem p = refl

-- What the first segment leaves behind.
abbrev pub begun : ℕ → ℕ → Port → Port
begun t n q =
    let kept = record q.isdu_handler {
      total_isdu_len = t;
      total_isdu_seg = n;
      current_isdu_seg = 1;
      isdu_timer = 0;
    } in
    set_isdu kept q

pub first_segment_lem :
    (t n : ℕ) (q : Port)
    → get_isdu_total_len q.isdu_handler ≡ some t
    → u8 ((t + q.message_handler.od_len - 1) / q.message_handler.od_len) ≡ n
    → 0 < q.message_handler.od_len
    → first_segment q ≡ (
        if leb n 1
        then reception_complete (begun t n q)
        else set_state IsduState.isduresponse (begun t n q))
unfolding first_segment isdu_timer_reset set_total get_isdu_total_segments
first_segment_lem t n q named seg some_m = ground (arith, named, seg, some_m)

-- A header of the direction that was asked for is valid.
pub valid_header :
    (read : Bool) (wire : List ℕ) (t m n : ℕ) (h : IsduH)
    → IsResponse read wire t m n
    → get_or h.isdu_data 0 0 ≡ a_of wire
    → h.data_dir_read ≡ read
    → valid_isdu_header h ≡ true
unfolding valid_isdu_header get_isdu_iserv get_isdu_len
valid_header true wire t m n h r e d = ground (arith, e, d, r.serves, r.named)
valid_header false wire t m n h r e d = ground (arith, e, d, r.serves, r.named)

-- It is neither the octet of no service nor that of a busy device.
pub first_octet :
    (read : Bool) (wire : List ℕ) (t m n a : ℕ) → IsResponse read wire t m n → a ≡ a_of wire → 2 ≤ a
first_octet true wire t m n a r e = ground (arith, e, r.serves)
first_octet false wire t m n a r e = ground (arith, e, r.serves)

pub is_not : (a b : ℕ) → b < 2 → 2 ≤ a → (a == b) ≡ false
is_not a b h k = ground arith

pub no_octets : (i : ℕ) (xs ys : List ℕ) → i ≡ 0 → take i xs ≡ take i ys
no_octets zero xs ys e = refl
no_octets (suc i) xs ys e = absurd (omega arith)

pub replied_in_time :
    (rx : Reply) (p : Port)
    → isdu_timer_elapsed p ≡ false
    → isdu_timer_elapsed (replied rx p) ≡ false
unfolding isdu_timer_elapsed
replied_in_time rx p e = e

pub elapsed_alike : (p q : Port) → IsAlike p q → isdu_timer_elapsed q ≡ isdu_timer_elapsed p
unfolding isdu_timer_elapsed
elapsed_alike p q a =
    ap₂ (λ now h. ltb 5000000 (u32 (now + 4294967296 - h.isdu_timer)) && not (h.isdu_timer == 0))
      a.now a.isdu
