-- ===== src/Dl/Segments.antt =====
-- A segment of a request in a message of ilink/iolink_dl.c.
use iol_hat.Base.{ℕ, ◌+◌, ◌-◌, ◌*◌, ◌≤◌, ◌≡◌, ap, ◌∙◌, arith}
use iol_hat.Base.{List, length, take, drop, overwrite}
use iol_hat.Base.{bit_or, bit_and, u8, set, replicate}
use iol_hat.Base.{length-take, length-drop, length-set, length-overwrite, take_all}
use iol_hat.Base.Slices.{slice-overwrite, slice-overwrite_before}
use iol_hat.Types.Dl.{Direction}
use iol_hat.Dl.State.{Port, slice}
use iol_hat.Dl.State.{isdu_max_size}
use iol_hat.Dl.Requests.{od_req, Comchannel, od_data, mc_ckt, mseq_value}
use iol_hat.Dl.IsduHandler.{write_segment}
use iol_hat.Dl.OdHandler.{}

-- A segment that is put into the next message, where nothing runs over an end.
abbrev pub segment_put : ℕ → ℕ → Port → Port
segment_put flowctrl at p =
    let m = p.message_handler.od_len in
    od_data Direction.write m (slice p.isdu_handler.isdu_data at m)
      (mc_ckt Direction.write Comchannel.isdu flowctrl p)

pub segment_put_lem :
    (flowctrl at : ℕ) (p : Port)
    → flowctrl ≤ 31
    → p.message_handler.od_len ≤ 32
    → at + p.message_handler.od_len ≤ isdu_max_size
    → write_segment flowctrl at p ≡ segment_put flowctrl at p
unfolding od_req
segment_put_lem f at p h m k = ground (arith, h, m, k)

-- The octets of on-request data in the message that is sent next.
abbrev pub octets : Port → List ℕ
octets p = slice p.txbuffer p.od_handler.odout_buffer p.message_handler.od_len

abbrev pub mc_of : ℕ → ℕ
mc_of flowctrl = bit_or (bit_or 0 96) flowctrl

abbrev pub ckt_of : Port → ℕ
ckt_of p = u8 (bit_and (mseq_value p.mseq) 240 * 4)

pub segment_put-octets :
    (flowctrl at : ℕ) (p : Port)
    → at + p.message_handler.od_len ≤ length p.isdu_handler.isdu_data
    → p.od_handler.odout_buffer + p.message_handler.od_len ≤ length p.txbuffer
    → octets (segment_put flowctrl at p)
      ≡ slice p.isdu_handler.isdu_data at p.message_handler.od_len
segment_put-octets f at p h k =
    let m = p.message_handler.od_len in
    let i = p.od_handler.odout_buffer in
    let bytes = slice p.isdu_handler.isdu_data at m in
    let sized : length bytes ≡ m = omega (
      arith,
      length-take m (drop at p.isdu_handler.isdu_data),
      length-drop at p.isdu_handler.isdu_data,
      h,
    ) in
    let whole : take m bytes ≡ bytes = take_all m bytes (omega arith) in
    let tx = (mc_ckt Direction.write Comchannel.isdu f p).txbuffer in
    let room : i + m ≤ length tx = omega (
      arith,
      k,
      length-set p.txbuffer 0 (mc_of f),
      length-set (set p.txbuffer 0 (mc_of f)) 1 (ckt_of p),
    ) in
    let pad : List ℕ = replicate (m - m) 0 in
    slice-overwrite_before (overwrite tx i (take m bytes)) pad i m (i + m) (omega arith)
    ∙ slice-overwrite tx (take m bytes) i m (omega (arith, ap length whole)) room
    ∙ whole

pub segment_put-length :
    (flowctrl at : ℕ) (p : Port) → length (segment_put flowctrl at p).txbuffer ≡ length p.txbuffer
segment_put-length f at p =
    let m = p.message_handler.od_len in
    let i = p.od_handler.odout_buffer in
    let bytes = take m (slice p.isdu_handler.isdu_data at m) in
    let tx = (mc_ckt Direction.write Comchannel.isdu f p).txbuffer in
    length-overwrite (overwrite tx i bytes) (i + m) (replicate (m - m) 0)
    ∙ length-overwrite tx i bytes
    ∙ length-set (set p.txbuffer 0 (mc_of f)) 1 (ckt_of p)
    ∙ length-set p.txbuffer 0 (mc_of f)
