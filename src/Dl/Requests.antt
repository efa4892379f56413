-- ===== src/Dl/Requests.antt =====
-- The services of the message handler that the other handlers use: `OD_req` and `PD_req` of
-- ilink/iolink_dl.c put the next message together.
use iol_hat.Base.{ℕ, ◌+◌, ◌-◌, ◌*◌, ltb, if◌then◌else◌, List, take, set, overwrite}
use iol_hat.Base.{replicate, bit_and, bit_or, u8, Option, none, some}
use iol_hat.Types.{IolinkError}
use iol_hat.Types.Dl.{Direction, MsequenceType}
use iol_hat.Dl.State.{Port, inside, set_od, slice}

-- `iolink_comchannel_t`.
pub data Comchannel : Type 0 where
  process page diagnosis isdu : Comchannel

abbrev pub comchannel_value : Comchannel → ℕ
comchannel_value Comchannel.process = 0
comchannel_value Comchannel.page = 32
comchannel_value Comchannel.diagnosis = 64
comchannel_value Comchannel.isdu = 96

abbrev pub direction_value : Direction → ℕ
direction_value Direction.read = 128
direction_value Direction.write = 0

-- `iolink_isdu_flowctrl_t`.
abbrev pub flowctrl_start : ℕ
flowctrl_start = 16

abbrev pub flowctrl_idle_1 : ℕ
flowctrl_idle_1 = 17

abbrev pub flowctrl_abort : ℕ
flowctrl_abort = 31

abbrev pub mseq_value : MsequenceType → ℕ
mseq_value MsequenceType.none = 0
mseq_value MsequenceType.type_0 = 1
mseq_value MsequenceType.type_1_1 = 17
mseq_value MsequenceType.type_1_2 = 18
mseq_value MsequenceType.type_1_v = 30
mseq_value MsequenceType.type_1_x = 31
mseq_value MsequenceType.type_2_1 = 33
mseq_value MsequenceType.type_2_2 = 34
mseq_value MsequenceType.type_2_3 = 35
mseq_value MsequenceType.type_2_4 = 36
mseq_value MsequenceType.type_2_5 = 37
mseq_value MsequenceType.type_2_6 = 38
mseq_value MsequenceType.type_2_v = 46
mseq_value MsequenceType.type_2_x = 47

-- The two bytes in front of each message, M-sequence control and the type in the checksum byte.
abbrev pub mc_ckt : Direction → Comchannel → ℕ → Port → Port
mc_ckt rwdirection comchannel addressctrl p =
    let mc =
      bit_or (bit_or (direction_value rwdirection) (comchannel_value comchannel)) addressctrl in
    let ckt = u8 (bit_and (mseq_value p.mseq) 240 * 4) in
    record p { txbuffer = set (set p.txbuffer 0 mc) 1 ckt }

-- `memcpy` to `odout_buffer`, and the zeros behind it.
abbrev pub put_od : ℕ → List ℕ → Port → Port
put_od length bytes p =
    let at = p.od_handler.odout_buffer in
    let filled = overwrite p.txbuffer at (take length bytes) in
    let pad = replicate (p.message_handler.od_len - length) 0 in
    record p { txbuffer = overwrite filled (at + length) pad }

-- On-request data of a message, which is not in a message of the process channel.
abbrev pub od_data : Direction → ℕ → List ℕ → Port → Port
od_data Direction.write length bytes p =
    let od_len = p.message_handler.od_len in
    let q = set_od (record p.od_handler { od_txlen = od_len; od_rxlen = 0 }) p in
    put_od length bytes q
od_data Direction.read length bytes p =
    set_od (record p.od_handler { od_txlen = 0; od_rxlen = p.message_handler.od_len }) p

abbrev pub od_channel : Direction → Comchannel → ℕ → List ℕ → Port → Port
od_channel rwdirection Comchannel.process length bytes p = p
od_channel rwdirection _ length bytes p = od_data rwdirection length bytes p

-- `bytes` is what the pointer points to, from which `length` bytes are read.
unfoldable pub od_req : Direction → Comchannel → ℕ → ℕ → List ℕ → Port → Port × IolinkError
od_req rwdirection comchannel addressctrl length bytes p =
    if ltb 32 length
    then (p, IolinkError.odlength)
    else (if ltb 31 addressctrl then (p, IolinkError.address_invalid) else (
      od_channel rwdirection comchannel length bytes (mc_ckt rwdirection comchannel addressctrl p),
      IolinkError.none,
    ))

-- `pdout_buffer` is at index 2 of `txbuffer`; `none` stands for `NULL`.
unfoldable pub pd_req : ℕ → ℕ → Option (List ℕ) → ℕ → ℕ → Port → Port × IolinkError
pd_req pdinaddress pdinlength pdout pdoutaddress pdoutlength p =
    if ltb 32 pdinlength
    then (p, IolinkError.pdinlength)
    else (if ltb 32 pdoutlength then (p, IolinkError.pdoutlength) else elim pdout [
      | none ↦ (p, IolinkError.none)
      | some bytes ↦ (
        record (inside pdoutaddress pdoutlength 32 p) {
          txbuffer = overwrite p.txbuffer 2 (slice bytes pdoutaddress pdoutlength);
        },
        IolinkError.none,
      )
    ])

-- The callers ignore what is returned.
abbrev pub ignored : Port × IolinkError → Port
ignored (p, error) = p
