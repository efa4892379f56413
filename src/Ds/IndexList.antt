-- ===== src/Ds/IndexList.antt =====
-- The index list of a device, and what the loop in `ds_read_cnf_cb` makes of its bytes.
use iol_hat.Base.{
  ℕ, zero, suc, ◌+◌, ◌*◌, ◌/◌, ◌≤◌, ◌<◌, ◌≡◌, refl, true, false, ap, ◌∙◌, List, [], ◌∷◌, ◌++◌,
  arith,
}
use mathlib.Core.List.{append-nil, append_assoc}
use iol_hat.Base.{◌==◌, length, take, drop, set, u8, u16, length-set}
use iol_hat.Base.Slices.{get_or-drop, drop-drop, take-set}
use iol_hat.Ds.State.{Entry, IndexList, index_list_max_entries}
use iol_hat.Ds.Actions.{byte_at}
use iol_hat.Ds.ReadDone.{read_index_list}
use iol_hat.Ds.Store.{All}

abbrev pub encode_entry : Entry → List ℕ
encode_entry e = u8 (e.index / 256) ∷ u8 e.index ∷ e.subindex ∷ []

abbrev pub encode_entries : List Entry → List ℕ
encode_entries [] = []
encode_entries (e ∷ es) = encode_entry e ++ encode_entries es

-- An entry is no termination entry, and its index is a 16-bit value.
pub record IsEntry (e : Entry) : Type 0 where
  pub not_end : 0 < e.index
  pub index_u16 : e.index < 65536

-- The first three bytes from `pos` on, where the rest of the bytes is known.
bytes_at :
    (bytes : List ℕ) (pos a b c : ℕ) (rest : List ℕ)
    → drop pos bytes ≡ a ∷ b ∷ c ∷ rest
    → (byte_at bytes pos ≡ a)
      × (byte_at bytes (pos + 1) ≡ b)
      × (byte_at bytes (pos + 2) ≡ c)
      × (drop (pos + 3) bytes ≡ rest)
bytes_at bytes pos a b c rest e = (
  get_or-drop bytes pos 0 0 (omega arith) ∙ ap (λ xs. byte_at xs 0) e,
  get_or-drop bytes pos 1 0 refl ∙ ap (λ xs. byte_at xs 1) e,
  get_or-drop bytes pos 2 0 refl ∙ ap (λ xs. byte_at xs 2) e,
  drop-drop bytes pos 3 refl ∙ ap (λ xs. drop 3 xs) e,
)

end_at :
    (bytes : List ℕ) (pos a b : ℕ) (rest : List ℕ)
    → drop pos bytes ≡ a ∷ b ∷ rest
    → (byte_at bytes pos ≡ a) × (byte_at bytes (pos + 1) ≡ b)
end_at bytes pos a b rest e = (
  get_or-drop bytes pos 0 0 (omega arith) ∙ ap (λ xs. byte_at xs 0) e,
  get_or-drop bytes pos 1 0 refl ∙ ap (λ xs. byte_at xs 1) e,
)

index_of_bytes : (n : ℕ) → n < 65536 → u16 (u8 (n / 256) * 256 + u8 n) ≡ n
index_of_bytes n h = omega arith

ne→==_false : (n : ℕ) → 0 < n → (n == 0) ≡ false
ne→==_false n h = ground arith

-- What the loop leaves of a list after `i` entries have been read and `es` are still to come.
record IsRead (i : ℕ) (es : List Entry) (list list' : IndexList) : Type 0 where
  count : list'.count ≡ i + length es
  entries : take (i + length es) list'.entries ≡ take i list.entries ++ es
  kept : length list'.entries ≡ length list.entries
  pos : list'.pos ≡ list.pos

one_more :
    (old new : List Entry) (i : ℕ) (e : Entry) (es : List Entry)
    → i < length old
    → take (i + 1 + length es) new ≡ take (i + 1) (set old i e) ++ es
    → take (i + suc (length es)) new ≡ take i old ++ e ∷ es
one_more old new i e es h t =
    ap (λ n. take n new) (omega arith)
    ∙ t
    ∙ ap (λ xs. xs ++ es) (take-set old i e refl h)
    ∙ append_assoc (take i old) (e ∷ []) es

read_index_list-IsRead :
    (es : List Entry) (rounds i pos : ℕ) (bytes rest : List ℕ) (list : IndexList)
    → drop pos bytes ≡ encode_entries es ++ 0 ∷ 0 ∷ rest
    → All IsEntry es
    → length es < rounds
    → i + rounds ≤ length list.entries
    → IsRead i es list (read_index_list rounds i pos bytes list)
unfolding read_index_list
read_index_list-IsRead [] zero i pos bytes rest list d es h k = absurd (omega arith)
read_index_list-IsRead [] (suc rounds) i pos bytes rest list d es h k =
    let (b0, b1) = end_at bytes pos 0 0 rest d in
    let stops : (u16 (byte_at bytes pos * 256 + byte_at bytes (pos + 1)) == 0) ≡ true =
      rw (b0, b1) in
    rw stops (record {
      count = omega arith;
      entries = rw append-nil (ap (λ n. take n list.entries) (omega arith));
      kept = refl;
      pos = refl;
    })
read_index_list-IsRead (e ∷ es) zero i pos bytes rest list d v h k = absurd (omega arith)
read_index_list-IsRead (e ∷ es) (suc rounds) i pos bytes rest list d v h k =
    let f =
      bytes_at bytes pos (u8 (e.index / 256)) (u8 e.index) e.subindex
        (encode_entries es ++ 0 ∷ 0 ∷ rest) d in
    let index : u16 (byte_at bytes pos * 256 + byte_at bytes (pos + 1)) ≡ e.index =
      rw (f.0, f.1) (index_of_bytes e.index v.0.index_u16) in
    let goes_on : (e.index == 0) ≡ false = ne→==_false e.index v.0.not_end in
    let next : IndexList = record list { entries = set list.entries i e } in
    let ih : IsRead (i + 1) es next (read_index_list rounds (i + 1) (pos + 3) bytes next) =
      read_index_list-IsRead es rounds (i + 1) (pos + 3) bytes rest next f.3 v.1 (omega arith)
        (omega (arith, length-set list.entries i e)) in
    rw (index, goes_on, f.2)
      (record {
        count = omega (arith, ih.count);
        entries =
            one_more list.entries (read_index_list rounds (i + 1) (pos + 3) bytes next).entries i e
              es (omega arith) ih.entries;
        kept = ih.kept ∙ length-set list.entries i e;
        pos = ih.pos;
      })

-- A list of fewer than 70 entries, closed by a termination entry, is read as it was written: the
-- count is the number of entries, and they stand at the front of the array in their order.
pub read_index_list-entries :
    (es : List Entry) (bytes rest : List ℕ) (list : IndexList)
    → bytes ≡ encode_entries es ++ 0 ∷ 0 ∷ rest
    → All IsEntry es
    → length es < index_list_max_entries
    → length list.entries ≡ index_list_max_entries
    → let list' = read_index_list index_list_max_entries 0 0 bytes list in
      (list'.count ≡ length es)
      × (take (length es) list'.entries ≡ es)
      × (length list'.entries ≡ index_list_max_entries)
      × (list'.pos ≡ list.pos)
read_index_list-entries es bytes rest list e v h k =
    let r =
      read_index_list-IsRead es index_list_max_entries 0 0 bytes rest list e v h (omega arith) in
    (
      r.count ∙ omega arith,
      ap (λ n. take n (read_index_list index_list_max_entries 0 0 bytes list).entries) (omega arith)
          ∙ r.entries,
      r.kept ∙ k,
      r.pos,
    )

full :
    (es : List Entry) (rounds i pos : ℕ) (bytes rest : List ℕ) (list : IndexList)
    → drop pos bytes ≡ encode_entries es ++ rest
    → All IsEntry es
    → length es ≡ rounds
    → (read_index_list rounds i pos bytes list).count ≡ list.count
unfolding read_index_list
full es zero i pos bytes rest list d v h = refl
full [] (suc rounds) i pos bytes rest list d v h = absurd (omega arith)
full (e ∷ es) (suc rounds) i pos bytes rest list d v h =
    let f =
      bytes_at bytes pos (u8 (e.index / 256)) (u8 e.index) e.subindex (encode_entries es ++ rest)
        d in
    let index : u16 (byte_at bytes pos * 256 + byte_at bytes (pos + 1)) ≡ e.index =
      rw (f.0, f.1) (index_of_bytes e.index v.0.index_u16) in
    let goes_on : (e.index == 0) ≡ false = ne→==_false e.index v.0.not_end in
    rw (index, goes_on, f.2)
      (full es rounds (i + 1) (pos + 3) bytes rest (record list { entries = set list.entries i e })
        f.3 v.1 (omega arith))

-- A list that fills all 70 places never reaches its termination entry: the count stays what it was
-- before the list was read.
pub read_index_list_full :
    (es : List Entry) (bytes rest : List ℕ) (list : IndexList)
    → bytes ≡ encode_entries es ++ rest
    → All IsEntry es
    → length es ≡ index_list_max_entries
    → (read_index_list index_list_max_entries 0 0 bytes list).count ≡ list.count
read_index_list_full es bytes rest list e v h =
    full es index_list_max_entries 0 0 bytes rest list e v h
