-- ===== src/Dl/State.antt =====
-- The state of the data link layer, `iolink_dl_t` of include/ilink/iolink_dl.h, and what it calls.
use iol_hat.Base.{ℕ, ◌+◌, Bool, if◌then◌else◌, leb, Option}
use iol_hat.Base.{List, ◌∷◌, take, drop}
use iol_hat.Types.Dl.{Status, Controlcode, Iservice, DlMode, MsequenceType}

-- `dl_mdh_st_t`.
pub data ModeState : Type 0 where
  idle estcom startup preoperate operate : ModeState

-- `dl_mh_st_t`.
pub data MessageState : Type 0 where
  inactive aw_reply_1 startup response_3 aw_reply_4 errorhandling_5 preoperate : MessageState
  getod_7 response_8 aw_reply_9 errorhandling_10 checkhandler operate getpd_13 : MessageState
  getod_14 response_15 aw_reply_16 errorhandling_17 : MessageState

-- `dl_interleave_t`.
pub data Interleave : Type 0 where
  none pd od : Interleave

-- `dl_pdh_st_t`.
pub data PdState : Type 0 where
  inactive pdsingle pdininterleave pdoutinterleave : PdState

-- `dl_odh_st_t`.
pub data OdState : Type 0 where
  inactive isdu command event : OdState

-- `dl_isduh_st_t`.
pub data IsduState : Type 0 where
  inactive idle isdurequest isduwait isduerror isduresponse : IsduState

-- `dl_cmdh_st_t`.
pub data CommandState : Type 0 where
  inactive idle mastercommand : CommandState

-- `dl_evh_st_t`.
pub data EventState : Type 0 where
  inactive idle readevent signalevent eventconfirmation : EventState

-- `CHCmd_t`.
pub data ChCmd : Type 0 where
  inactive active : ChCmd

-- `OHCmd_t`.
pub data OhCmd : Type 0 where
  inactive active : OhCmd

-- `IHCmd_t`.
pub data IhCmd : Type 0 where
  inactive active : IhCmd

-- `EHCmd_t`.
pub data EhCmd : Type 0 where
  inactive active : EhCmd

-- `PHCmd_t`.
pub data PdCmd : Type 0 where
  inactive active single interleave : PdCmd

-- `MHRWCmd`.
pub data RwCmd : Type 0 where
  none write read writeparam readparam isdutransport isduabort writedevicemode : RwCmd

-- `iol_trigger_t`.
pub data Trigger : Type 0 where
  none device_message master_message : Trigger

-- `iolink_mhinfo_t`.
pub data Mhinfo : Type 0 where
  none comlost illegal_messagetype checksum_mismatch : Mhinfo

-- `mode_h_t`.
pub record ModeH : Type 0 where
  pub state : ModeState
  pub dl_mode : DlMode
  pub mhinfo : Mhinfo

-- `message_h_t`.
pub record MessageH : Type 0 where
  pub state : MessageState
  pub rwcmd : RwCmd
  pub pd_rxlen : ℕ
  pub pd_txlen : ℕ
  pub od_len : ℕ
  pub cks : ℕ
  pub interleave : Interleave

-- `pd_handler_t`; its `pdout_buffer` always points to the third byte of `txbuffer`.
pub record PdH : Type 0 where
  pub state : PdState
  pub phcmd : PdCmd
  pub trigger : Trigger
  pub pd_address : ℕ
  pub pd_rxlen : ℕ
  pub pd_txlen : ℕ
  pub pdoutdata : List ℕ
  pub pdindata : List ℕ
  pub pd_valid : Bool

-- `od_handler_t`; `odout_buffer` is the index of the byte of `txbuffer` that it points to.
pub record OdH : Type 0 where
  pub state : OdState
  pub ohcmd : OhCmd
  pub trigger : Trigger
  pub od_rxlen : ℕ
  pub od_txlen : ℕ
  pub data_addr : ℕ
  pub data_value : ℕ
  pub odout_buffer : ℕ

-- `command_h_t`.
pub record CommandH : Type 0 where
  pub state : CommandState
  pub chcmd : ChCmd
  pub control_code : Controlcode
  pub master_command : ℕ

-- `isdu_h_t`.
pub record IsduH : Type 0 where
  pub state : IsduState
  pub ihcmd : IhCmd
  pub total_isdu_len : ℕ
  pub current_isdu_seg : ℕ
  pub total_isdu_seg : ℕ
  pub isdu_data : List ℕ
  pub isdu_timer : ℕ
  pub data_dir_read : Bool

-- `event_t`.
pub record EventEntry : Type 0 where
  pub event_qualifier : ℕ
  pub event_code_msb : ℕ
  pub event_code_lsb : ℕ

-- `event_h_t`.
pub record EventH : Type 0 where
  pub state : EventState
  pub ehcmd : EhCmd
  pub event_flag : Bool
  pub event_confirmation : Bool
  pub ev_addr : ℕ
  pub status_code : ℕ
  pub num_entries : ℕ
  pub ev_cnt : ℕ
  pub ev_current : ℕ
  pub events : List EventEntry

-- What the layer calls. A pointer to an answer is the memory behind it, or none for `NULL`.
pub data Call : Type 0 where
  dl_isdu_transport_cnf :
      (bytes : Option (List ℕ)) (length : ℕ) (qualifier : Iservice) (errinfo : Status) → Call
  dl_read_param_cnf : (value : ℕ) (errinfo : Status) → Call
  dl_write_param_cnf : (errinfo : Status) → Call
  dl_read_cnf : (value : ℕ) (errinfo : Status) → Call
  dl_write_cnf : (errinfo : Status) → Call
  dl_write_devicemode_cnf : (errinfo : Status) (master_command : ℕ) → Call
  dl_event_ind : (eventcode event_qualifier eventsleft : ℕ) → Call
  dl_control_ind : Controlcode → Call
  dl_pd_input_transport_ind : (bytes : List ℕ) (length : ℕ) → Call
  -- `os_event_set` of IOLINK_DL_EVENT_MH and of IOLINK_DL_EVENT_MDH.
  mh_event mdh_event : Call
  -- What C leaves undefined: an access beyond the end of an array, and a division by zero.
  out_of_bounds zero_divided : Call

-- `iolink_dl_t`, the clock that `os_get_current_time_us` reads, and the calls, the latest first.
pub record Port : Type 0 where
  pub mode_handler : ModeH
  pub message_handler : MessageH
  pub pd_handler : PdH
  pub od_handler : OdH
  pub cmd_handler : CommandH
  pub isdu_handler : IsduH
  pub event_handler : EventH
  pub cycbyte : ℕ
  pub mseq : MsequenceType
  pub first_read_min_cycl : Bool
  pub txbuffer : List ℕ
  pub rxbuffer : List ℕ
  pub now : ℕ
  pub out : List Call

abbrev pub emit : Call → Port → Port
emit c p = record p { out = c ∷ p.out }

-- `IOLINK_ISDU_MAX_SIZE`.
abbrev pub isdu_max_size : ℕ
isdu_max_size = 241

-- Whether the bytes from `i` up to `i + n` are inside of an array of `size` bytes.
abbrev pub inside : ℕ → ℕ → ℕ → Port → Port
inside i n size p = if leb (i + n) size then p else emit Call.out_of_bounds p

abbrev pub set_isdu : IsduH → Port → Port
set_isdu h p = record p { isdu_handler = h }

abbrev pub set_event : EventH → Port → Port
set_event h p = record p { event_handler = h }

abbrev pub set_od : OdH → Port → Port
set_od h p = record p { od_handler = h }

abbrev pub set_pd : PdH → Port → Port
set_pd h p = record p { pd_handler = h }

abbrev pub set_command : CommandH → Port → Port
set_command h p = record p { cmd_handler = h }

abbrev pub set_rwcmd : RwCmd → Port → Port
set_rwcmd c p = record p { message_handler = record p.message_handler { rwcmd = c } }

-- `&array[i]` of which `n` bytes are read.
abbrev pub slice : List ℕ → ℕ → ℕ → List ℕ
slice xs i n = take n (drop i xs)
