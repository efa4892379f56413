-- ===== src/Dl/Api.antt =====
-- The services of ilink/iolink_dl.c for parameters, ISDUs and modes.
use iol_hat.Base.{ℕ, ◌+◌, ◌-◌, ◌*◌, ◌/◌, ◌%◌, ltb, leb, ◌==◌, Bool, true, false, ◌&&◌, not}
use iol_hat.Base.{if◌then◌else◌, List, [], ◌∷◌, ◌++◌, take, set, overwrite, replicate}
use iol_hat.Base.{none, u8, bit_or}
use iol_hat.Types.{IolinkError}
use iol_hat.Types.Dl.{Status, Direction, ValueList, DlMode, ModeValueList}
use iol_hat.Dl.State.{Port, ModeState, MessageState, IsduState, RwCmd, Call, Mhinfo}
use iol_hat.Dl.State.{emit, set_isdu, set_od, set_rwcmd, inside, isdu_max_size}
use iol_hat.Dl.Isdu.{calc_chkpdu, get_isdu_total_segments}
use iol_hat.Dl.Requests.{direction_value}
use iol_hat.Sm.Params.{min_cycl}

abbrev pub is_read : Direction → Bool
is_read Direction.read = true
is_read Direction.write = false

-- `iserv` and `overheadlen` by the index and the subindex.
abbrev pub iserv_of : Direction → ℕ
iserv_of Direction.read = 8
iserv_of Direction.write = 0

abbrev pub format : ℕ → ℕ → ℕ
format index subindex = if ltb index 256 then (if subindex == 0 then 1 else 2) else 3

abbrev pub first_overhead : ℕ → ℕ → ℕ
first_overhead index subindex = if ltb index 256 then (if subindex == 0 then 3 else 4) else 5

-- The bytes behind the length: the index and the subindex in the format of the service.
abbrev pub address_bytes : ℕ → ℕ → List ℕ
address_bytes index subindex =
    if ltb 255 index
    then index / 256 % 256 ∷ index % 256 ∷ subindex ∷ []
    else index % 256 ∷ (if ltb 0 subindex then subindex ∷ [] else [])

-- Whether the length has to be extended by a byte.
abbrev pub is_short : ValueList → Bool
is_short v = leb (v.length + first_overhead v.index v.subindex) 15

-- `overheadlen`, and the length in the first byte and in the extending one.
abbrev pub overhead_of : ValueList → ℕ
overhead_of v = first_overhead v.index v.subindex + (if is_short v then 0 else 1)

abbrev pub len_of : ValueList → ℕ
len_of v = if is_short v then v.length + overhead_of v else 1

abbrev pub extended_len : ValueList → List ℕ
extended_len v = if is_short v then [] else u8 (v.length + overhead_of v) ∷ []

-- All bytes in front of the checksum.
unfoldable pub body : ValueList → List ℕ
body v =
    ((iserv_of v.readwrite + format v.index v.subindex) * 16 + len_of v)
    ∷ (extended_len v ++ (address_bytes v.index v.subindex ++ take v.length v.bytes))

-- The request in `isdu_data`, with its checksum at `dataoffset` and zeros behind it.
unfoldable pub encode : ValueList → List ℕ → List ℕ
unfolding body calc_chkpdu
encode v isdu_data =
    let dataoffset = v.length + overhead_of v - 1 in
    let filled = overwrite isdu_data 0 (body v) in
    let summed = set filled dataoffset (calc_chkpdu filled dataoffset) in
    overwrite summed (dataoffset + 1) (replicate (isdu_max_size - (dataoffset + 1)) 0)

unfoldable pub accept : ValueList → Port → Port
unfolding encode get_isdu_total_segments
accept v p =
    let h = record p.isdu_handler {
      data_dir_read = is_read v.readwrite;
      isdu_data = encode v p.isdu_handler.isdu_data;
      total_isdu_len = u8 (v.length + overhead_of v);
      current_isdu_seg = 0;
    } in
    let q = set_isdu h (inside 0 (v.length + overhead_of v) isdu_max_size p) in
    let r = if q.message_handler.od_len == 0 then emit Call.zero_divided q else q in
    let segments = get_isdu_total_segments r in
    set_rwcmd RwCmd.isdutransport (set_isdu (record r.isdu_handler { total_isdu_seg = segments }) r)

abbrev pub refuse : Status → IolinkError → Port → Port × IolinkError
refuse errinfo error p = (emit (Call.dl_isdu_transport_cnf none 0 0 errinfo) p, error)

abbrev pub has_comm : ModeState → Bool
has_comm ModeState.idle = false
has_comm ModeState.estcom = false
has_comm _ = true

abbrev pub is_idle : IsduState → Bool
is_idle IsduState.idle = true
is_idle _ = false

-- In preoperate the message handler has to be told.
abbrev pub tell_preoperate : ModeState → Port → Port
tell_preoperate ModeState.preoperate p = emit Call.mh_event p
tell_preoperate _ p = p

unfoldable pub dl_isdu_transport_req : ValueList → Port → Port × IolinkError
unfolding accept
dl_isdu_transport_req v p =
    if not (has_comm p.mode_handler.state)
    then refuse Status.no_comm IolinkError.comchannel_invalid p
    else (if ltb v.index 2
        then refuse Status.value_out_of_range IolinkError.address_invalid p
        else (if not (is_idle p.isdu_handler.state)
            then refuse Status.state_conflict IolinkError.incorrect_data p
            else (tell_preoperate p.mode_handler.state (accept v p), IolinkError.none)))

-- The two confirmations of the parameter services, by `write`.
abbrev pub param_cnf : Bool → Status → Port → Port
param_cnf true errinfo p = emit (Call.dl_write_param_cnf errinfo) p
param_cnf false errinfo p = emit (Call.dl_read_param_cnf 0 errinfo) p

abbrev pub rw_cnf : Bool → Status → Port → Port
rw_cnf true errinfo p = emit (Call.dl_write_cnf errinfo) p
rw_cnf false errinfo p = emit (Call.dl_read_cnf 0 errinfo) p

abbrev pub takes_params : MessageState → Bool
takes_params MessageState.preoperate = true
takes_params MessageState.aw_reply_16 = true
takes_params _ = false

unfoldable pub dl_read_write_param_req : ℕ → ℕ → Bool → Port → Port × IolinkError
dl_read_write_param_req address value write p =
    let q = set_rwcmd (if write then RwCmd.writeparam else RwCmd.readparam) p in
    if not (takes_params q.message_handler.state)
    then (param_cnf write Status.state_conflict q, IolinkError.state_invalid)
    else (if ltb 31 address
        then (param_cnf write Status.value_out_of_range q, IolinkError.address_invalid)
        else (let h = record q.od_handler { data_addr = address } in
            let r = set_od (if write then record h { data_value = value } else h) q in
            (tell_preoperate r.mode_handler.state r, IolinkError.none)))

unfoldable pub dl_read_param_req : ℕ → Port → Port × IolinkError
unfolding dl_read_write_param_req
dl_read_param_req address p = dl_read_write_param_req address 0 false p

unfoldable pub dl_write_param_req : ℕ → ℕ → Port → Port × IolinkError
unfolding dl_read_write_param_req
dl_write_param_req address value p = dl_read_write_param_req address value true p

abbrev pub is_startup : MessageState → Bool
is_startup MessageState.startup = true
is_startup _ = false

-- The message of a direct parameter access in startup.
abbrev pub page_message : ℕ → ℕ → Bool → Port → Port
page_message address value write p =
    let direction = if write then Direction.write else Direction.read in
    let mc = bit_or (bit_or (direction_value direction) 32) address in
    let head = set (set p.txbuffer 0 mc) 1 0 in
    let h = record p.od_handler {
      od_rxlen = (if write then 0 else 1);
      od_txlen = (if write then 1 else 0);
    } in
    let q = set_od h (record p { txbuffer = (if write then set head 2 value else head) }) in
    emit Call.mh_event (set_rwcmd (if write then RwCmd.write else RwCmd.read) q)

-- The first read of the minimum cycle time is answered with what the transceiver has read.
unfoldable pub dl_read_write_req : ℕ → ℕ → Bool → Port → Port × IolinkError
dl_read_write_req address value write p =
    if not (is_startup p.message_handler.state)
    then (rw_cnf write Status.state_conflict p, IolinkError.state_invalid)
    else (if ltb 15 address
        then (rw_cnf write Status.value_out_of_range p, IolinkError.address_invalid)
        else (if not write && (address == min_cycl) && p.first_read_min_cycl
            then (let q = record p { first_read_min_cycl = false } in
                (emit (Call.dl_read_cnf p.cycbyte Status.no_error) q, IolinkError.none))
            else (page_message address value write p, IolinkError.none)))

unfoldable pub dl_read_req : ℕ → Port → Port × IolinkError
unfolding dl_read_write_req
dl_read_req address p = dl_read_write_req address 0 false p

unfoldable pub dl_write_req : ℕ → ℕ → Port → Port × IolinkError
unfolding dl_read_write_req
dl_write_req address value p = dl_read_write_req address value true p

-- The lengths of the messages, which going inactive keeps.
abbrev pub lengths_of : DlMode → ModeValueList → Port → Port
lengths_of DlMode.inactive v p = p
lengths_of _ v p = record p {
  message_handler = record p.message_handler {
    pd_rxlen = v.pdinputlength;
    pd_txlen = v.pdoutputlength;
    od_len = v.onreqdatalengthpermessage;
  };
}

unfoldable pub dl_set_mode_req : DlMode → ModeValueList → Port → Port × IolinkError
dl_set_mode_req mode v p =
    let q = record p {
      mode_handler = record p.mode_handler { dl_mode = mode };
      mseq = v.type;
      cycbyte = v.time;
    } in
    (emit Call.mdh_event (lengths_of mode v q), IolinkError.none)

unfoldable pub mh_info_ind : Mhinfo → Port → Port
mh_info_ind mhinfo p =
    emit Call.mdh_event (record p { mode_handler = record p.mode_handler { mhinfo = mhinfo } })

unfoldable pub event_flag_ind : Bool → Port → Port
event_flag_ind eventflag p = record p {
  event_handler = record p.event_handler { event_flag = eventflag };
}

unfoldable pub dl_event_conf_req : Port → Port × IolinkError
dl_event_conf_req p = (
  record p { event_handler = record p.event_handler { event_confirmation = true } },
  IolinkError.none,
)

unfoldable pub get_cks_ev_flag : Port → Bool
get_cks_ev_flag p = leb 128 (p.message_handler.cks % 256)
