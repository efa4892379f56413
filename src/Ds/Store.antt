-- ===== src/Ds/Store.antt =====
-- How a parameter that was read goes into the stored data.
use iol_hat.Base.{ℕ, ◌+◌, ◌≤◌, ◌<◌, ◌≡◌, List, [], ◌∷◌, ◌++◌, length, take, arith}
use iol_hat.Base.{length-overwrite, take-overwrite_block, take_all}
use iol_hat.Ds.State.{Ds, max_size}
use iol_hat.Ds.ReadDone.{head_bytes, store_parameter}

-- One stored parameter.
pub record Param : Type 0 where
  pub index : ℕ
  pub subindex : ℕ
  pub bytes : List ℕ

abbrev pub size_of : Param → ℕ
size_of r = length r.bytes

abbrev pub encode : Param → List ℕ
encode r = head_bytes r.index r.subindex (size_of r) ++ r.bytes

abbrev pub encode_all : List Param → List ℕ
encode_all [] = []
encode_all (r ∷ rs) = encode r ++ encode_all rs

-- What the device's addresses and lengths range over.
pub record IsParam (r : Param) : Type 0 where
  pub index_u16 : r.index < 65536
  pub len_u8 : size_of r < 256

abbrev pub All {ℓ κ} : {A : Type ℓ} → (A → Type κ) → List A → Type κ
All P [] = Unit
All P (x ∷ xs) = P x × All P xs

-- What a store that fits leaves: the record behind the old data, inside the array.
pub record IsAppended (ds ds' : Ds) (r : Param) : Type 0 where
  pub front :
      take ds'.master_ds.pos ds'.master_ds.bytes
      ≡ take ds.master_ds.pos ds.master_ds.bytes ++ encode r
  pub pos : ds'.master_ds.pos ≡ ds.master_ds.pos + length (encode r)
  pub inside : ds'.master_ds.pos ≤ max_size
  pub kept : length ds'.master_ds.bytes ≡ max_size

length-encode : (r : Param) → length (encode r) ≡ 4 + length r.bytes
length-encode r = omega arith

-- A parameter for which the array has room is stored as its index, subindex, length and bytes right
-- behind what is stored already, and nothing is written past the array's end; one for which there
-- is no room is left out, and nothing changes.
pub store_parameter-IsAppended :
    (ds : Ds) (r : Param)
    → r.index ≡ ds.current_index
    → r.subindex ≡ ds.current_subindex
    → size_of r < 256
    → length ds.master_ds.bytes ≡ max_size
    → (ds.master_ds.pos + length (encode r) ≤ max_size
        → IsAppended ds (store_parameter (size_of r) r.bytes ds) r)
      × (max_size < ds.master_ds.pos + length (encode r)
          → store_parameter (size_of r) r.bytes ds ≡ ds)
unfolding store_parameter
store_parameter-IsAppended ds r i s h k = (
  λ fits. ground (
    arith,
    take_all (size_of r) r.bytes,
    length-overwrite ds.master_ds.bytes ds.master_ds.pos (encode r),
    take-overwrite_block ds.master_ds.bytes ds.master_ds.pos (ds.master_ds.pos + 4 + size_of r)
        (encode r),
  ),
  λ full. ground arith,
)
