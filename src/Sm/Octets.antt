-- ===== src/Sm/Octets.antt =====
-- The lengths of process data that the data link layer is told.
use iol_hat.Base.{ℕ, ◌+◌, ◌/◌, ◌≤◌, ◌<◌, ◌≡◌, Bool, true, false, ◌||◌, arith, bit_and, refl}
use iol_hat.Base.Bits.{bit_and_31}
use iol_hat.Types.Dl.{MsequenceType, ModeValueList}
use iol_hat.Sm.ValueList.{set_valuelist, set_type_0_or_type_1_2, set_type_2_v, populate_legacy}
use iol_hat.Sm.ValueList.{populate_code_0, populate_oper, populate_operate, populate_valuelist}
use iol_hat.Sm.ValueList.{isbytes, length_bits}

-- The octets that a length of bytes or bits stands for.
abbrev octets_of : Bool → ℕ → ℕ
octets_of true n = n + 1
octets_of false n = (n + 7) / 8

abbrev pub octets : ℕ → ℕ
octets pd = octets_of (isbytes pd) (length_bits pd)

abbrev RegularOf : Bool → ℕ → Type 0
RegularOf true n = 3 ≤ n
RegularOf false n = n ≤ 16

-- A length of at least four octets if it counts bytes, and of at most sixteen bits if it counts
-- bits.
abbrev pub IsRegular : ℕ → Type 0
IsRegular pd = RegularOf (isbytes pd) (length_bits pd)

-- The types that carry all process data in every cycle.
abbrev pub carries : MsequenceType → Bool
carries MsequenceType.type_2_1 = true
carries MsequenceType.type_2_2 = true
carries MsequenceType.type_2_3 = true
carries MsequenceType.type_2_4 = true
carries MsequenceType.type_2_5 = true
carries MsequenceType.type_2_6 = true
carries MsequenceType.type_2_v = true
carries _ = false

-- A list whose lengths are right, if it carries process data.
abbrev Fits : Bool → ℕ → Bool → ℕ → ModeValueList → Type 0
Fits b m c n v =
    carries v.type ≡ true → (v.pdinputlength ≡ octets_of b m) × (v.pdoutputlength ≡ octets_of c n)

module _ (b c : Bool) (m n cycbyte : ℕ) (v : ModeValueList) where
  legacy-Fits :
      RegularOf b m
      → RegularOf c n
      → v.type ≡ MsequenceType.none
      → Fits b m c n (populate_legacy (b || c) m n cycbyte v)
  unfolding populate_legacy set_valuelist
  legacy-Fits h k e a = ground arith

  oper-Fits :
      (oper_m : ℕ)
      → RegularOf b m
      → RegularOf c n
      → m < 32
      → n < 32
      → v.type ≡ MsequenceType.none
      → Fits b m c n (populate_oper oper_m b c m n cycbyte v)
  unfolding populate_oper set_type_2_v populate_code_0 set_valuelist
  oper-Fits oper_m h k l o e a = ground arith

type_0_or_1_2-carries :
    (operate cycbyte : ℕ) → carries (set_type_0_or_type_1_2 operate cycbyte).0.type ≡ false
unfolding set_type_0_or_type_1_2 set_valuelist
type_0_or_1_2-carries operate cycbyte = ground arith

length_bits-lt : (pd : ℕ) → length_bits pd < 32
length_bits-lt pd = omega (arith, bit_and_31 pd)

operate-Fits :
    (oper_m revid pdin pdout cycbyte : ℕ) (v : ModeValueList)
    → IsRegular pdin
    → IsRegular pdout
    → v.type ≡ MsequenceType.none
    → Fits
        (isbytes pdin)
        (length_bits pdin)
        (isbytes pdout)
        (length_bits pdout)
        (populate_operate oper_m revid pdin pdout cycbyte v).0
unfolding populate_operate
operate-Fits oper_m revid pdin pdout cycbyte v h k e a =
    let l =
      legacy-Fits (isbytes pdin) (isbytes pdout) (length_bits pdin) (length_bits pdout) cycbyte v h
        k e in
    let o =
      oper-Fits (isbytes pdin) (isbytes pdout) (length_bits pdin) (length_bits pdout) cycbyte v
        oper_m h k (length_bits-lt pdin) (length_bits-lt pdout) e in
    ground (arith, l, o, type_0_or_1_2-carries oper_m cycbyte)

octets_le : (pd : ℕ) → octets pd ≤ 32
octets_le pd = at (isbytes pd)
  where
    at : (b : Bool) → octets_of b (length_bits pd) ≤ 32
    at true = omega (arith, length_bits-lt pd)
    at false = omega (arith, length_bits-lt pd)

-- When the data link layer is brought into OPERATE with a type that carries all process data in
-- every cycle, for a device of either revision and of any capability, the lengths of input and output
-- that it is told are the octets that the device's own lengths stand for, and at most 32, where the
-- device gives a length in bytes from four octets on only, and one in bits up to sixteen bits only.
pub populate_valuelist-octets :
    (mscapa revid pdin pdout cycbyte : ℕ) (valuelist : ModeValueList)
    → IsRegular pdin
    → IsRegular pdout
    → let v = (populate_valuelist mscapa revid pdin pdout cycbyte true valuelist).0.0 in
      carries v.type ≡ true
      → (v.pdinputlength ≡ octets pdin)
        × (v.pdoutputlength ≡ octets pdout)
        × (v.pdinputlength ≤ 32)
        × (v.pdoutputlength ≤ 32)
unfolding populate_valuelist
populate_valuelist-octets mscapa revid pdin pdout cycbyte valuelist h k a =
    let v = record valuelist { type = MsequenceType.none } in
    let f = operate-Fits (bit_and (mscapa / 2) 0x07) revid pdin pdout cycbyte v h k refl a in
    (f.0, f.1, omega (arith, f.0, octets_le pdin), omega (arith, f.1, octets_le pdout))

-- A device of revision 1.0 that gives its input in bytes, as three octets, and has no output: the
-- data link layer is told a single octet, whatever the device's capability.
pub populate_valuelist_three_octets :
    (mscapa revid cycbyte : ℕ) (valuelist : ModeValueList)
    → revid < 0x11
    → let r = populate_valuelist mscapa revid 0x82 0 cycbyte true valuelist in
      (octets 0x82 ≡ 3) × (r.0.0.type ≡ MsequenceType.type_2_1) × (r.0.0.pdinputlength ≡ 1)
unfolding populate_valuelist populate_operate populate_legacy set_valuelist
populate_valuelist_three_octets mscapa revid cycbyte valuelist h = ground arith
