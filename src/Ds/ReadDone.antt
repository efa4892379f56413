-- ===== src/Ds/ReadDone.antt =====
-- What a read of the index list or of a parameter leaves, in `ds_read_cnf_cb`.
use iol_hat.Base.{ℕ, zero, suc, ◌+◌, ◌*◌, ◌/◌, ◌==◌, ltb}
use iol_hat.Base.{if◌then◌else◌, u8, u16, u32, List, [], ◌∷◌, ◌++◌, ◌&&◌, set, take, overwrite}
use iol_hat.Ds.State.{Entry, IndexList, Ds}
use iol_hat.Ds.State.{max_size, index_list_max_entries}
use iol_hat.Ds.Requests.{param_index}
use iol_hat.Ds.Requests.{subindex_index_list}
use iol_hat.Ds.Actions.{byte_at}

-- A 32-bit value, the most significant byte first.
abbrev pub be32 : List ℕ → ℕ
be32 bytes =
    u32 (
      byte_at bytes 0 * 16777216
      + byte_at bytes 1 * 65536
      + byte_at bytes 2 * 256
      + byte_at bytes 3)

-- The `while` loop over the index list, with the rounds that are left, `i` and `read_data_pos`.
-- The list without a termination entry leaves the old `count`.
unfoldable pub read_index_list : ℕ → ℕ → ℕ → List ℕ → IndexList → IndexList
read_index_list zero i pos bytes list = list
read_index_list (suc rounds) i pos bytes list =
    let index = u16 (byte_at bytes pos * 256 + byte_at bytes (pos + 1)) in
    let entry : Entry = record { index = index; subindex = byte_at bytes (pos + 2) } in
    let rest =
      read_index_list rounds (i + 1) (pos + 3) bytes
        (record list { entries = set list.entries i entry }) in
    if index == 0 then record list { count = i } else rest

-- The head of a stored record: index, subindex and length.
abbrev pub head_bytes : ℕ → ℕ → ℕ → List ℕ
head_bytes index subindex len = u8 (index / 256) ∷ u8 index ∷ subindex ∷ u8 len ∷ []

-- A parameter that was read goes behind the stored ones, if it fits; the head's four bytes and the
-- copied ones stand one behind the other.
unfoldable pub store_parameter : ℕ → List ℕ → Ds → Ds
store_parameter len bytes ds =
    let m = ds.master_ds in
    let block = head_bytes ds.current_index ds.current_subindex len ++ take len bytes in
    if ltb (m.pos + 2 + 1 + len) max_size
    then record ds {
      master_ds = record m { bytes = overwrite m.bytes m.pos block; pos = u16 (m.pos + 4 + len) };
    }
    else ds

unfoldable pub read_parameter_done : ℕ → List ℕ → Ds → Ds
read_parameter_done len bytes ds =
    if ds.current_index == param_index && ds.current_subindex == subindex_index_list
    then record ds { index_list = read_index_list index_list_max_entries 0 0 bytes ds.index_list }
    else store_parameter len bytes ds
