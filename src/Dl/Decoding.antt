-- ===== src/Dl/Decoding.antt =====
-- A reading of the requests of ilink/iolink_dl.c, as a device takes them apart.
use iol_hat.Base.{ℕ, ◌+◌, ◌-◌, ◌*◌, ◌/◌, ◌%◌, ◌≤◌, ◌<◌, ◌≡◌, refl, ap, ◌∙◌, arith, leb}
use iol_hat.Base.{Bool, true, false, ◌==◌, ◌&&◌, zero, suc, Option, none, some, if◌then◌else◌, u8}
use iol_hat.Base.{List, [], ◌∷◌, ◌++◌, length, take, get_or, length-append, length-take, take_all}
use iol_hat.Base.Slices.{take-append}
use iol_hat.Types.Dl.{ValueList, Direction}
use iol_hat.Dl.State.{slice, isdu_max_size}
use iol_hat.Dl.Isdu.{checksum}
use iol_hat.Dl.Api.{body, encode, overhead_of, address_bytes, format, iserv_of}
use iol_hat.Dl.Api.{is_short}
use iol_hat.Dl.Encoding.{IsRequest, encode_prefix, checksum-snoc, length-address}
use mathlib.Core.Path.{ap₂}

abbrev direction_of : ℕ → Direction
direction_of iserv = if leb 8 iserv then Direction.read else Direction.write

abbrev request : Direction → ℕ → ℕ → List ℕ → ValueList
request readwrite index subindex bytes = record {
  index = index;
  subindex = subindex;
  bytes = bytes;
  length = length bytes;
  readwrite = readwrite;
}

-- The three formats: an index of one byte, with a subindex, and an index of two bytes with one.
abbrev service : ℕ → Direction → List ℕ → Option ValueList
service (suc zero) d (i ∷ bytes) = some (request d i 0 bytes)
service (suc (suc zero)) d (i ∷ s ∷ bytes) = some (request d i s bytes)
service (suc (suc (suc zero))) d (i ∷ j ∷ s ∷ bytes) = some (request d (i * 256 + j) s bytes)
service _ d bytes = none

abbrev header : List ℕ → ℕ
header xs = if get_or xs 0 0 % 16 == 1 then 2 else 1

abbrev total : List ℕ → ℕ
total xs = if get_or xs 0 0 % 16 == 1 then get_or xs 1 0 else get_or xs 0 0 % 16

abbrev by_iserv : ℕ → List ℕ → Option ValueList
by_iserv iserv bytes = service (iserv % 8) (direction_of iserv) bytes

-- The octets have the length that they name, and the checksum 0.
unfoldable pub decode : List ℕ → Option ValueList
unfolding checksum
decode xs =
    if (checksum xs == 0) && (total xs == length xs)
    then by_iserv (get_or xs 0 0 / 16) (slice xs (header xs) (length xs - header xs - 1))
    else none

abbrev framed : Bool → ℕ → ℕ → List ℕ → List ℕ
framed b s t payload = (s * 16 + (if b then t else 1)) ∷ ((if b then [] else u8 t ∷ []) ++ payload)

abbrev sent : List ℕ → List ℕ
sent xs = xs ++ (checksum xs ∷ [])

module _ (xs ys : List ℕ) (s h : ℕ) where
  tested :
      checksum xs ≡ 0
      → total xs ≡ length xs
      → get_or xs 0 0 / 16 ≡ s
      → header xs ≡ h
      → slice xs h (length xs - h - 1) ≡ ys
      → decode xs ≡ by_iserv s ys
  unfolding decode
  tested c t f k e =
      let read = by_iserv (get_or xs 0 0 / 16) (slice xs (header xs) (length xs - header xs - 1)) in
      let valid : ((checksum xs == 0) && (total xs == length xs)) ≡ true = ground (arith, c, t) in
      ap (λ b. if b then read else none) valid
      ∙ ap₂ by_iserv f (ap (λ n. slice xs n (length xs - n - 1)) k ∙ e)

framed-decode :
    (b : Bool) (s t : ℕ) (payload : List ℕ)
    → s < 16
    → t ≡ length payload + (if b then 2 else 3)
    → (if b then t else 0) ≤ 15
    → t < 256
    → decode (sent (framed b s t payload)) ≡ by_iserv s payload
framed-decode true s t payload hs ht k l =
    let c = checksum (framed true s t payload) in
    let end = length-append payload (c ∷ []) in
    tested (sent (framed true s t payload)) payload s 1 (checksum-snoc (framed true s t payload))
      (ground (arith, end)) (omega arith) (ground arith)
      (take-append payload (c ∷ []) (omega arith))
framed-decode false s t payload hs ht k l =
    let c = checksum (framed false s t payload) in
    let end = length-append payload (c ∷ []) in
    tested (sent (framed false s t payload)) payload s 2 (checksum-snoc (framed false s t payload))
      (ground (arith, end)) (omega arith) (ground arith)
      (take-append payload (c ∷ []) (omega arith))

request-same :
    (v : ValueList) (i s : ℕ)
    → i ≡ v.index
    → s ≡ v.subindex
    → length v.bytes ≡ v.length
    → request v.readwrite i s v.bytes ≡ v
request-same v i s e f g = cc

-- The service and the address of a value list are those that it is read from.
module _ (v : ValueList) where
  abbrev Reads : Direction → Type 0
  Reads d =
      by_iserv (iserv_of d + format v.index v.subindex)
        (address_bytes v.index v.subindex ++ v.bytes)
      ≡ some (request d v.index v.subindex v.bytes)

  reads : (d : Direction) → v.index < 65536 → Reads d
  reads Direction.read h = ground arith
  reads Direction.write h = ground arith

-- What is sent of an accepted request, up to its total length, is read by a device as the same
-- request.
pub encode-decode :
    (v : ValueList) (isdu_data : List ℕ)
    → IsRequest v
    → v.index < 65536
    → length isdu_data ≡ isdu_max_size
    → decode (take (v.length + overhead_of v) (encode v isdu_data)) ≡ some v
unfolding body
encode-decode v buf r h l =
    let address = address_bytes v.index v.subindex in
    let payload = address ++ take v.length v.bytes in
    let whole : take v.length v.bytes ≡ v.bytes =
      take_all v.length v.bytes (omega (arith, r.counted)) in
    let s = iserv_of v.readwrite + format v.index v.subindex in
    let below : s < 16 = ground arith in
    let room : v.length + overhead_of v ≡ length payload + (if is_short v then 2 else 3) = ground (
      arith,
      length-append address (take v.length v.bytes),
      length-take v.length v.bytes,
      r.counted,
      length-address v.index v.subindex,
    ) in
    ap decode (encode_prefix v buf r l)
    ∙ framed-decode (is_short v) s (v.length + overhead_of v) payload below room (ground arith)
        (omega (arith, r.fits))
    ∙ ap (λ bytes. by_iserv s (address ++ bytes)) whole
    ∙ reads v v.readwrite h
    ∙ ap some (request-same v v.index v.subindex refl refl r.counted)
