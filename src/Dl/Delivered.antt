-- ===== src/Dl/Delivered.antt =====
-- From `DL_ISDUTransport_req` of ilink/iolink_dl.c to the device: the request that a device reads is
-- the one that was asked for.
use iol_hat.Base.{ℕ, ◌+◌, ◌-◌, ◌*◌, ◌/◌, ◌≤◌, ◌<◌, ◌≡◌, refl, ap, sym, ◌∙◌, arith, true, false}
use iol_hat.Base.{
  List, zero, suc, length, take, u8, some, length-set, length-overwrite, set, overwrite, replicate,
}
use iol_hat.Base.Slices.{take-take}
use mathlib.Core.Path.{subst}
use iol_hat.Types.{IolinkError}
use iol_hat.Types.Dl.{ValueList}
use iol_hat.Dl.State.{Port, IsduState, IhCmd, RwCmd, ModeState, isdu_max_size, set_isdu, set_rwcmd}
use iol_hat.Dl.Isdu.{get_isdu_total_segments, calc_chkpdu}
use iol_hat.Dl.IsduAnswers.{is_comlost}
use iol_hat.Dl.Api.{
  dl_isdu_transport_req, accept, encode, body, overhead_of, has_comm, tell_preoperate, is_read,
}
use iol_hat.Dl.Encoding.{IsRequest}
use iol_hat.Dl.Decoding.{decode, encode-decode}
use iol_hat.Dl.Sending.{IsQuiet, Reply}
use iol_hat.Dl.Transfer.{AreSilent, IsAccepted, IsWaiting, transfer, transfer-sent}
use native.Mathlib.Nat.{div-add-mod, mod-lt}

-- The layer can take a request, and messages have room for their on-request data.
pub record IsReady (p : Port) : Type 0 where
  pub quiet : IsQuiet p
  pub comm : has_comm p.mode_handler.state ≡ true
  pub linked : is_comlost p.mode_handler.mhinfo ≡ false
  pub idle : p.isdu_handler.state ≡ IsduState.idle
  pub ihcmd : p.isdu_handler.ihcmd ≡ IhCmd.active
  pub array : length p.isdu_handler.isdu_data ≡ isdu_max_size
  pub some_octets : 0 < p.message_handler.od_len
  pub octets : p.message_handler.od_len ≤ 32
  pub buffer : p.od_handler.odout_buffer + p.message_handler.od_len ≤ length p.txbuffer

-- How many octets and segments of `m` octets a request has.
abbrev pub octets_of : ValueList → ℕ
octets_of v = v.length + overhead_of v

abbrev pub segments_of : ValueList → ℕ → ℕ
segments_of v m = (octets_of v + m - 1) / m

-- Whole segments carry all octets.
pub segments_carry : (t m : ℕ) → 0 < m → t ≤ m * ((t + m - 1) / m)
segments_carry t m h = omega (arith, div-add-mod (t + m - 1) m, mod-lt (t + m - 1) {m = m} h)

length-encode : (v : ValueList) (buf : List ℕ) → length (encode v buf) ≡ length buf
unfolding encode
length-encode v buf =
    let offset = v.length + overhead_of v - 1 in
    let filled = overwrite buf 0 (body v) in
    let c = calc_chkpdu filled offset in
    let pad : List ℕ = replicate (isdu_max_size - (offset + 1)) 0 in
    length-overwrite (set filled offset c) (offset + 1) pad
    ∙ length-set filled offset c
    ∙ length-overwrite buf 0 (body v)

positive : (m n t : ℕ) → 0 < t → t ≤ m * n → 0 < n
positive m zero t h k = absurd (omega arith)
positive m (suc n) t h k = omega arith

-- No more segments than octets.
pub few_segments : (m n : ℕ) → 0 < m → n ≤ m * n
few_segments m n h = omega (arith, ap (λ i. i * n) {x = m} {y = m - 1 + 1} (omega arith))

tell_preoperate-IsAccepted :
    (request : List ℕ) (m n : ℕ) (s : ModeState) (p : Port)
    → IsAccepted request m n p
    → IsAccepted request m n (tell_preoperate s p)
tell_preoperate-IsAccepted request m n ModeState.idle p h = h
tell_preoperate-IsAccepted request m n ModeState.estcom p h = h
tell_preoperate-IsAccepted request m n ModeState.startup p h = h
tell_preoperate-IsAccepted request m n ModeState.preoperate p h = record {
  quiet = record {
    od_state = h.quiet.od_state;
    ohcmd = h.quiet.ohcmd;
    control_code = h.quiet.control_code;
    event_flag = h.quiet.event_flag;
  };
  idle = h.idle;
  ihcmd = h.ihcmd;
  rwcmd = h.rwcmd;
  live = h.live;
  bytes = h.bytes;
  segments = h.segments;
  od_len = h.od_len;
  buffer = h.buffer;
}
tell_preoperate-IsAccepted request m n ModeState.operate p h = h

module _ (v : ValueList) (p : Port) (ready : IsReady p) (fits : octets_of v ≤ isdu_max_size)
    (whole : p.message_handler.od_len * segments_of v p.message_handler.od_len ≤ isdu_max_size)
    (index : 2 ≤ v.index) where
  accepted :
      dl_isdu_transport_req v p
      ≡ (tell_preoperate p.mode_handler.state (accept v p), IolinkError.none)
  unfolding dl_isdu_transport_req
  accepted = ground (arith, ready.comm, index, ready.idle)

  abbrev segments : ℕ
  segments = segments_of v p.message_handler.od_len

  abbrev taken : Port
  taken =
      let h = record p.isdu_handler {
        data_dir_read = is_read v.readwrite;
        isdu_data = encode v p.isdu_handler.isdu_data;
        total_isdu_len = u8 (octets_of v);
        current_isdu_seg = 0;
        total_isdu_seg =
            u8 ((u8 (octets_of v) + p.message_handler.od_len - 1) / p.message_handler.od_len);
      } in
      set_rwcmd RwCmd.isdutransport (set_isdu h p)

  accept_lem : accept v p ≡ taken
  unfolding accept get_isdu_total_segments
  accept_lem = ground (arith, fits, ready.some_octets)

  one_octet : u8 (octets_of v) ≡ octets_of v
  one_octet = omega arith

  few : segments < 256
  few = omega (arith, whole, few_segments p.message_handler.od_len segments ready.some_octets)

  one_count : u8 segments ≡ segments
  one_count = omega (arith, few)

  taken-IsAccepted :
      IsAccepted (encode v p.isdu_handler.isdu_data) p.message_handler.od_len segments taken
  taken-IsAccepted = record {
    quiet = record {
      od_state = ready.quiet.od_state;
      ohcmd = ready.quiet.ohcmd;
      control_code = ready.quiet.control_code;
      event_flag = ready.quiet.event_flag;
    };
    idle = ready.idle;
    ihcmd = ready.ihcmd;
    rwcmd = refl;
    live = ground (arith, ready.linked);
    bytes = refl;
    segments =
        ap (λ t. u8 ((t + p.message_handler.od_len - 1) / p.message_handler.od_len)) one_octet
        ∙ one_count;
    od_len = refl;
    buffer = ready.buffer;
  }

  abbrev requested : Port
  requested = (dl_isdu_transport_req v p).0

  requested-IsAccepted :
      IsAccepted (encode v p.isdu_handler.isdu_data) p.message_handler.od_len segments requested
  requested-IsAccepted =
      let request = encode v p.isdu_handler.isdu_data in
      let e = ap (λ r. r.0) accepted ∙ ap (tell_preoperate p.mode_handler.state) accept_lem in
      subst (IsAccepted request p.message_handler.od_len segments) (sym e) (
        tell_preoperate-IsAccepted request p.message_handler.od_len segments p.mode_handler.state
          taken taken-IsAccepted)

  -- A request is accepted and delivered where the layer is ready for one: communication is up and not
  -- lost, the ISDU handler is active and idle, the handler of on-request data serves ISDUs, no command
  -- and no event is pending, and a message has 1 to 32 octets of on-request data, with room in the
  -- buffer that is sent. The index is from 2 to 65535, and the request fits into `isdu_data` with all
  -- of its segments. Then, of the on-request data in the messages that follow, one for each segment, a
  -- device reads the same direction, index, subindex and bytes, whatever octets are in its replies, if
  -- none of these reports an event; and the handler then waits for the response.
  pub request-delivered :
      length v.bytes ≡ v.length
      → v.index < 65536
      → (replies : List Reply) → length replies ≡ segments
      → AreSilent replies
      → (dl_isdu_transport_req v p).1 ≡ IolinkError.none
        × (decode (take (octets_of v) (transfer replies (dl_isdu_transport_req v p).0).1) ≡ some v)
        × IsWaiting p.message_handler.od_len (transfer replies (dl_isdu_transport_req v p).0).0
  request-delivered counted small replies l silent =
      let m = p.message_handler.od_len in
      let buf = p.isdu_handler.isdu_data in
      let carried = segments_carry (octets_of v) m ready.some_octets in
      let some_segment = positive m segments (octets_of v) (ground arith) carried in
      let (waiting, out) =
        transfer-sent (encode v buf) m segments whole ready.octets
          (length-encode v buf ∙ ready.array) few replies requested some_segment l silent
          requested-IsAccepted in
      let request : IsRequest v = record { counted = counted; fits = fits } in
      (
        ap (λ r. r.1) accepted,
        ap (λ xs. decode (take (octets_of v) xs)) out
            ∙ ap decode (take-take (octets_of v) (m * segments) (encode v buf) carried)
            ∙ encode-decode v buf request small ready.array,
        waiting,
      )
