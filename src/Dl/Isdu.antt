-- ===== src/Dl/Isdu.antt =====
-- The ISDU that stands in `isdu_data`: its checksum and header, of ilink/iolink_dl.c.
use iol_hat.Base.{ℕ, ◌+◌, ◌-◌, ◌/◌, ◌%◌, Bool, false, not, ◌&&◌, ◌||◌, ◌==◌, ltb, leb}
use iol_hat.Base.{if◌then◌else◌, List, [], ◌∷◌, get_or, take, drop, Option, none, some, u8, u32}
use iol_hat.Types.Dl.{Iservice, no_service, write_response_neg, write_response_pos}
use iol_hat.Types.Dl.{read_response_neg, read_response_pos}
use iol_hat.Dl.State.{IsduH, Port, set_isdu}
use Prim.Native.Nat.{bit_xor}

abbrev pub xor_all : ℕ → List ℕ → ℕ
xor_all chksum [] = chksum
xor_all chksum (x ∷ xs) = xor_all (bit_xor chksum x) xs

unfoldable pub checksum : List ℕ → ℕ
checksum [] = 0
checksum (x ∷ xs) = xor_all x xs

unfoldable pub calc_chkpdu : List ℕ → ℕ → ℕ
unfolding checksum
calc_chkpdu bytes length = checksum (take length bytes)

unfoldable pub valid_isdu_checksum : IsduH → Bool
unfolding calc_chkpdu
valid_isdu_checksum h = calc_chkpdu h.isdu_data h.total_isdu_len == 0

-- The upper and the lower half of the first byte.
unfoldable pub get_isdu_iserv : IsduH → Iservice
get_isdu_iserv h = get_or h.isdu_data 0 0 / 16

unfoldable pub get_isdu_len : IsduH → ℕ
get_isdu_len h = get_or h.isdu_data 0 0 % 16

-- The length that is read from the second byte where the first one says so.
abbrev pub full_len : IsduH → ℕ
unfolding get_isdu_len
full_len h = if get_isdu_len h == 1 then get_or h.isdu_data 1 0 else get_isdu_len h

unfoldable pub get_isdu_total_len : IsduH → Option ℕ
unfolding get_isdu_len
get_isdu_total_len h = if ltb (full_len h) 2 || (full_len h == 16) then none else some (full_len h)

abbrev pub overhead : IsduH → ℕ
unfolding get_isdu_len
overhead h = if get_isdu_len h == 1 then 3 else 2

unfoldable pub get_isdu_data_length : IsduH → Option ℕ
unfolding get_isdu_total_len get_isdu_len
get_isdu_data_length h = elim (get_isdu_total_len h) [
  | none ↦ none
  | some len ↦ some (u8 (len + 256 - overhead h))
]

-- What the returned pointer points to.
unfoldable pub get_isdu_response_data : IsduH → List ℕ
unfolding get_isdu_len
get_isdu_response_data h = drop (if get_isdu_len h == 1 then 2 else 1) h.isdu_data

-- The total length in segments of `od_len` bytes, rounded up.
unfoldable pub get_isdu_total_segments : Port → ℕ
get_isdu_total_segments p =
    let od_len = p.message_handler.od_len in
    u8 ((p.isdu_handler.total_isdu_len + od_len - 1) / od_len)

abbrev pub is_write_response : Iservice → Bool
is_write_response iserv = (iserv == write_response_neg) || (iserv == write_response_pos)

abbrev pub is_read_response : Iservice → Bool
is_read_response iserv = (iserv == read_response_neg) || (iserv == read_response_pos)

unfoldable pub valid_isdu_header : IsduH → Bool
unfolding get_isdu_iserv get_isdu_len
valid_isdu_header h =
    let iserv = get_isdu_iserv h in
    let len = get_isdu_len h in
    if iserv == no_service
    then leb len 1
    else (if is_write_response iserv || is_read_response iserv
        then not (
            (len == 0)
            || ltb 15 len
            || (h.data_dir_read && is_write_response iserv)
            || (not h.data_dir_read && is_read_response iserv))
        else false)

unfoldable pub isdu_timer_reset : Port → Port
isdu_timer_reset p = set_isdu (record p.isdu_handler { isdu_timer = 0 }) p

unfoldable pub isdu_timer_start : Port → Port
isdu_timer_start p =
    set_isdu (record p.isdu_handler { isdu_timer = (if p.now == 0 then 1 else p.now) }) p

-- The difference of two clock values wraps around.
unfoldable pub isdu_timer_elapsed : Port → Bool
isdu_timer_elapsed p =
    let timer = p.isdu_handler.isdu_timer in
    ltb 5000000 (u32 (p.now + 4294967296 - timer)) && not (timer == 0)
