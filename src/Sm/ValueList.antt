-- ===== src/Sm/ValueList.antt =====
-- The message sequence type and lengths of a mode, from what the device tells of itself.
use iol_hat.Base.{ℕ, ◌+◌, ◌-◌, ◌*◌, ◌/◌, ◌^◌, ◌==◌, leb, ltb, if◌then◌else◌, Bool, true, not}
use iol_hat.Base.{◌&&◌, ◌||◌, u8, bit_and}
use iol_hat.Types.{IolinkError}
use iol_hat.Types.Dl.{MsequenceType, ModeValueList}
use iol_hat.Sm.Params.{rev_v11}

-- `set_valuelist`, which writes every field of what it gets.
unfoldable pub set_valuelist : ℕ → ℕ → ℕ → ℕ → MsequenceType → ModeValueList
set_valuelist onreqdatalengthpermessage pdinputlength pdoutputlength time type = record {
  time = time;
  type = type;
  pdinputlength = pdinputlength;
  pdoutputlength = pdoutputlength;
  onreqdatalengthpermessage = onreqdatalengthpermessage;
}

-- Whether the assertion of `set_type_0_or_type_1_2` holds stands beside its list.
unfoldable pub set_type_0_or_type_1_2 : ℕ → ℕ → ModeValueList × Bool
unfolding set_valuelist
set_type_0_or_type_1_2 operate cycbyte = (
  set_valuelist (u8 (operate + 1)) 0 0 cycbyte
      (if operate == 0 then MsequenceType.type_0 else MsequenceType.type_1_2),
  leb operate 1,
)

abbrev fits_type_2_v : Bool → ℕ → Bool
fits_type_2_v isbytes pd = isbytes && not (pd == 1) || not isbytes && ltb pd 17

abbrev length_of : Bool → ℕ → ℕ
length_of isbytes pd = if isbytes then u8 (pd + 1) else (pd + 7) / 8

unfoldable pub set_type_2_v : Bool → Bool → ℕ → ℕ → ℕ → ModeValueList → ModeValueList
set_type_2_v pdin_isbytes pdout_isbytes pdin pdout onreqdatalengthpermessage v =
    let v' = record v { pdinputlength = length_of pdin_isbytes pdin } in
    if fits_type_2_v pdin_isbytes pdin
    then (if fits_type_2_v pdout_isbytes pdout
        then (record v' {
          pdoutputlength = length_of pdout_isbytes pdout;
          onreqdatalengthpermessage = onreqdatalengthpermessage;
          type = MsequenceType.type_2_v;
        })
        else v')
    else v

abbrev between : ℕ → ℕ → ℕ → Bool
between lo hi n = leb lo n && leb n hi

-- The part for a device of revision 1.0 with process data.
unfoldable pub populate_legacy : Bool → ℕ → ℕ → ℕ → ModeValueList → ModeValueList
unfolding set_valuelist
populate_legacy any_bytes pdin pdout cycbyte v =
    if any_bytes && (leb 3 pdin || leb 3 pdout)
    then set_valuelist 2 0 0 cycbyte MsequenceType.type_1_1
    else (if pdout == 0
        then (if between 1 8 pdin
            then set_valuelist 1 1 0 cycbyte MsequenceType.type_2_1
            else (if between 9 16 pdin
                then set_valuelist 1 2 0 cycbyte MsequenceType.type_2_2
                else v))
        else (if pdin == 0
            then (if between 1 8 pdout
                then set_valuelist 1 0 1 cycbyte MsequenceType.type_2_3
                else (if between 9 16 pdout
                    then set_valuelist 1 0 2 cycbyte MsequenceType.type_2_4
                    else v))
            else (if between 1 8 pdin && between 1 8 pdout
                then set_valuelist 1 1 1 cycbyte MsequenceType.type_2_5
                else (if pdin == 16 && pdout == 16
                    then set_valuelist 1 2 2 cycbyte MsequenceType.type_2_6
                    else v))))

-- The case 0 of the capability in OPERATE, for process data in bits.
unfoldable pub populate_code_0 : ℕ → ℕ → ℕ → ModeValueList → ModeValueList
unfolding set_valuelist
populate_code_0 pdin pdout cycbyte v =
    if pdout == 0
    then (if between 1 8 pdin
        then set_valuelist 1 1 0 cycbyte MsequenceType.type_2_1
        else (if between 9 16 pdin then set_valuelist 1 2 0 cycbyte MsequenceType.type_2_2 else v))
    else (if pdin == 0
        then (if between 1 8 pdout
            then set_valuelist 1 0 1 cycbyte MsequenceType.type_2_3
            else (if between 9 16 pdout
                then set_valuelist 1 0 2 cycbyte MsequenceType.type_2_4
                else v))
        else (if between 1 8 pdin && between 1 8 pdout
            then set_valuelist 1 1 1 cycbyte MsequenceType.type_2_5
            else (if between 9 16 pdin && between 1 16 pdout
                  || between 1 16 pdin && between 9 16 pdout
                then set_valuelist 1 (if leb 9 pdin then 2 else 1) (if leb 9 pdout then 2 else 1)
                    cycbyte MsequenceType.type_2_v
                else v)))

-- The `switch` on the capability in OPERATE.
unfoldable pub populate_oper : ℕ → Bool → Bool → ℕ → ℕ → ℕ → ModeValueList → ModeValueList
unfolding set_valuelist set_type_2_v populate_code_0
populate_oper oper_m pdin_isbytes pdout_isbytes pdin pdout cycbyte v =
    let none_at_all = pdin == 0 && pdout == 0 in
    let onreqdatalength = u8 (2 ^ (2 * oper_m - 9)) in
    if oper_m == 0
    then (if none_at_all
        then set_valuelist 1 0 0 cycbyte MsequenceType.type_0
        else (if not pdin_isbytes && not pdout_isbytes
            then populate_code_0 pdin pdout cycbyte v
            else set_valuelist 2 0 0 cycbyte MsequenceType.type_1_1))
    else (if oper_m == 1
        then (if none_at_all then set_valuelist 2 0 0 cycbyte MsequenceType.type_1_2 else v)
        else (if oper_m == 4
            then (if pdin_isbytes && pdout_isbytes
                then (if leb 3 pdout || leb 3 pdin
                    then set_valuelist 1 (u8 (pdin + 1)) (u8 (pdout + 1)) cycbyte
                        MsequenceType.type_2_v
                    else v)
                else set_type_2_v pdin_isbytes pdout_isbytes pdin pdout 1 v)
            else (if leb 5 oper_m && leb oper_m 7
                then (if not none_at_all
                    then set_type_2_v pdin_isbytes pdout_isbytes pdin pdout onreqdatalength v
                    else (if not (oper_m == 5)
                        then set_valuelist onreqdatalength 0 0 cycbyte MsequenceType.type_1_v
                        else v))
                else v)))

unfoldable pub populate_preop : ℕ → ℕ → ModeValueList × Bool
unfolding set_valuelist set_type_0_or_type_1_2
populate_preop preop_m cycbyte =
    if ltb preop_m 2
    then set_type_0_or_type_1_2 preop_m cycbyte
    else (set_valuelist (if preop_m == 2 then 8 else 32) 0 0 cycbyte MsequenceType.type_1_v, true)

-- The bit that says that a length counts bytes, and the five bits of the length.
abbrev pub isbytes : ℕ → Bool
isbytes pd = not (bit_and pd 128 == 0)

abbrev pub length_bits : ℕ → ℕ
length_bits pd = bit_and pd 0x1F

unfoldable pub populate_operate : ℕ → ℕ → ℕ → ℕ → ℕ → ModeValueList → ModeValueList × Bool
unfolding set_type_0_or_type_1_2 populate_legacy populate_oper
populate_operate oper_m revid pdin pdout cycbyte v =
    let in_bytes = isbytes pdin in
    let out_bytes = isbytes pdout in
    let pdin' = length_bits pdin in
    let pdout' = length_bits pdout in
    if not (revid == rev_v11)
    then (if pdin' == 0 && pdout' == 0
        then set_type_0_or_type_1_2 oper_m cycbyte
        else (populate_legacy (in_bytes || out_bytes) pdin' pdout' cycbyte v, true))
    else (populate_oper oper_m in_bytes out_bytes pdin' pdout' cycbyte v, true)

abbrev error_of : MsequenceType → IolinkError
error_of MsequenceType.none = IolinkError.incorrect_data
error_of _ = IolinkError.none

-- The list, whether the assertion on the way holds, and the returned error.
unfoldable pub populate_valuelist :
    ℕ → ℕ → ℕ → ℕ → ℕ → Bool → ModeValueList → (ModeValueList × Bool) × IolinkError
unfolding populate_preop populate_operate
populate_valuelist mscapa revid pdin pdout cycbyte operate valuelist =
    let v = record valuelist { type = MsequenceType.none } in
    let res =
      if operate
      then populate_operate (bit_and (mscapa / 2) 0x07) revid pdin pdout cycbyte v
      else populate_preop (bit_and (mscapa / 16) 0x03) cycbyte in
    (res, error_of res.0.type)
