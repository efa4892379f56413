-- ===== src/Dl/Encoding.antt =====
-- The request that `DL_ISDUTransport_req` of ilink/iolink_dl.c puts together.
use iol_hat.Base.{ℕ, ◌+◌, ◌-◌, ◌≤◌, ◌≡◌, refl, ap, sym, ◌∙◌, arith}
use iol_hat.Base.{List, [], ◌∷◌, ◌++◌, length, take, set, overwrite, replicate, if◌then◌else◌}
use iol_hat.Base.{length-append, length-overwrite, length-take, take-overwrite}
use iol_hat.Base.{take-overwrite_block}
use iol_hat.Base.Slices.{take-set}
use iol_hat.Base.Bits.{bit_xor_self}
use iol_hat.Types.Dl.{ValueList}
use iol_hat.Dl.State.{isdu_max_size}
use iol_hat.Dl.Isdu.{xor_all, checksum, calc_chkpdu}
use iol_hat.Dl.Api.{
  body, encode, overhead_of, address_bytes, first_overhead, extended_len, is_short,
}
use Prim.Native.Nat.{bit_xor}

-- A value list as the application layer hands it over, that fits.
pub record IsRequest (v : ValueList) : Type 0 where
  pub counted : length v.bytes ≡ v.length
  pub fits : v.length + overhead_of v ≤ isdu_max_size

xor_all-snoc : (c : ℕ) (xs : List ℕ) → xor_all c (xs ++ (xor_all c xs ∷ [])) ≡ 0
xor_all-snoc c [] = bit_xor_self c
xor_all-snoc c (x ∷ xs) = xor_all-snoc (bit_xor c x) xs

pub checksum-snoc : (xs : List ℕ) → checksum (xs ++ (checksum xs ∷ [])) ≡ 0
unfolding checksum
checksum-snoc [] = refl
checksum-snoc (x ∷ xs) = xor_all-snoc x xs

pub length-address :
    (index subindex : ℕ) → length (address_bytes index subindex) + 2 ≡ first_overhead index subindex
length-address index subindex = ground arith

length-extended : (v : ValueList) → length (extended_len v) ≡ (if is_short v then 0 else 1)
length-extended v = ground arith

pub length-body :
    (v : ValueList) → length v.bytes ≡ v.length → length (body v) + 1 ≡ v.length + overhead_of v
unfolding body
length-body v h =
    let bytes = v.bytes in
    let address = address_bytes v.index v.subindex in
    omega (
      arith,
      length-append (extended_len v) (address ++ take v.length bytes),
      length-append address (take v.length bytes),
      length-take v.length bytes,
      h,
      length-address v.index v.subindex,
      length-extended v,
    )

-- A block at the start of a buffer, and one more byte behind it.
module _ (buf ys : List ℕ) (n : ℕ) (h : n ≡ length ys) (k : n + 1 ≤ length buf) where
  take-filled : take n (overwrite buf 0 ys) ≡ ys
  take-filled = take-overwrite_block buf 0 n ys (omega arith) (omega arith)

  take-summed :
      (c : ℕ) (zs : List ℕ)
      → take (n + 1) (overwrite (set (overwrite buf 0 ys) n c) (n + 1) zs) ≡ ys ++ (c ∷ [])
  take-summed c zs =
      let filled = overwrite buf 0 ys in
      take-overwrite (set filled n c) (n + 1) zs
      ∙ take-set filled n c {n = n + 1} refl (omega (arith, length-overwrite buf 0 ys))
      ∙ ap (λ xs. xs ++ (c ∷ [])) take-filled

-- The octets that are sent: the body and its checksum.
pub encode_prefix :
    (v : ValueList) (isdu_data : List ℕ)
    → IsRequest v
    → length isdu_data ≡ isdu_max_size
    → take (v.length + overhead_of v) (encode v isdu_data) ≡ body v ++ (checksum (body v) ∷ [])
unfolding encode calc_chkpdu
encode_prefix v buf r h =
    let n = v.length + overhead_of v - 1 in
    let ys = body v in
    let sized = length-body v r.counted in
    let room : n + 1 ≡ v.length + overhead_of v = omega arith in
    let pad : List ℕ = replicate (isdu_max_size - (n + 1)) 0 in
    let at : n ≡ length ys = omega arith in
    let c = calc_chkpdu (overwrite buf 0 ys) n in
    ap (λ m. take m (encode v buf)) (sym room)
    ∙ take-summed buf ys n at (omega arith) c pad
    ∙ ap (λ xs. ys ++ (checksum xs ∷ [])) (take-filled buf ys n at (omega arith))

-- An accepted request is complete: its octets up to `total_isdu_len` have the checksum 0.
pub encode-checksum :
    (v : ValueList) (isdu_data : List ℕ)
    → IsRequest v
    → length isdu_data ≡ isdu_max_size
    → calc_chkpdu (encode v isdu_data) (v.length + overhead_of v) ≡ 0
unfolding calc_chkpdu
encode-checksum v buf r h = ap checksum (encode_prefix v buf r h) ∙ checksum-snoc (body v)
