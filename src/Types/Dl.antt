-- ===== src/Types/Dl.antt =====
-- The enumerations that the data link layer shares with the layers above it: ilink/iolink_types.h
-- and ilink/iolink_main.h of include.
use iol_hat.Base.{ℕ, List}

-- `iolink_status_t`.
pub data Status : Type 0 where
  no_error parity_error framing_error overrun no_comm state_conflict valid invalid : Status
  parameter_conflict isdu_timeout isdu_not_supported value_out_of_range : Status
  isdu_checksum_error isdu_illegal_service_primitive isdu_abort : Status

-- `iolink_rwdirection_t`.
pub data Direction : Type 0 where
  read write : Direction

-- `iolink_controlcode_t`.
pub data Controlcode : Type 0 where
  none valid invalid pdoutvalid pdoutinvalid devicemode : Controlcode

-- `iservice_t` is a packed byte that the device sends, so it is any number, and the enumerators are
-- constants.
abbrev pub Iservice : Type 0
Iservice = ℕ

abbrev pub no_service : ℕ
no_service = 0

abbrev pub write_response_neg : ℕ
write_response_neg = 4

abbrev pub write_response_pos : ℕ
write_response_pos = 5

abbrev pub read_response_neg : ℕ
read_response_neg = 12

abbrev pub read_response_pos : ℕ
read_response_pos = 13

-- `iolink_isdu_vl_t`; which of the two data pointers is set follows from the direction.
pub record ValueList : Type 0 where
  pub index : ℕ
  pub subindex : ℕ
  pub bytes : List ℕ
  pub length : ℕ
  pub readwrite : Direction

-- `iolink_dl_mode_t`.
pub data DlMode : Type 0 where
  inactive startup preoperate operate : DlMode

-- `iolink_msequencetype_t`.
pub data MsequenceType : Type 0 where
  none type_0 type_1_1 type_1_2 type_1_v type_1_x type_2_1 type_2_2 type_2_3 : MsequenceType
  type_2_4 type_2_5 type_2_6 type_2_v type_2_x : MsequenceType

-- `iolink_mode_vl_t`.
pub record ModeValueList : Type 0 where
  pub time : ℕ
  pub type : MsequenceType
  pub pdinputlength : ℕ
  pub pdoutputlength : ℕ
  pub onreqdatalengthpermessage : ℕ
