-- ===== src/Dl/Reception.antt =====
-- How the ISDU handler of ilink/iolink_dl.c confirms a response that has been received completely.
use iol_hat.Base.{ℕ, ◌+◌, ◌-◌, ◌/◌, ◌%◌, ◌≤◌, ◌≡◌, refl, ap, sym, ◌∙◌, arith}
use iol_hat.Base.{◌==◌, ◌||◌, ltb, if◌then◌else◌, Option, none, some, u8}
use iol_hat.Base.{List, ◌∷◌, take, drop, get_or}
use iol_hat.Base.Slices.{get_or_prefix, take_shorter, take-drop_swap}
use mathlib.Core.Path.{ap₂}
use iol_hat.Types.Dl.{Status}
use iol_hat.Dl.State.{Port, IsduState, RwCmd, Call, slice, isdu_max_size}
use iol_hat.Dl.Isdu.{get_isdu_total_len, get_isdu_data_length, get_isdu_response_data, overhead}
use iol_hat.Dl.Isdu.{get_isdu_iserv, get_isdu_len, valid_isdu_checksum, calc_chkpdu, checksum}
use iol_hat.Dl.IsduAnswers.{reception_complete, complete_cnf, cnf}

-- What the first two octets of a response say: its length, and where its data start.
abbrev pub total_of : ℕ → ℕ → Option ℕ
total_of a b =
    let len = if a % 16 == 1 then b else a % 16 in
    if ltb len 2 || (len == 16) then none else some len

abbrev pub start_of : ℕ → ℕ
start_of a = if a % 16 == 1 then 2 else 1

abbrev pub a_of : List ℕ → ℕ
a_of wire = get_or wire 0 0

abbrev pub b_of : List ℕ → ℕ
b_of wire = get_or wire 1 0

-- The number of octets of data: all but the header and the checksum.
abbrev pub count_of : List ℕ → ℕ → ℕ
count_of wire t = u8 (t + 255 - start_of (a_of wire))

abbrev pub status_of : List ℕ → ℕ → Status
unfolding checksum
status_of wire t =
    if checksum (take t wire) == 0 then Status.no_error else Status.isdu_checksum_error

-- The `t` octets of `wire` have been confirmed: their data, their service and whether their checksum
-- is right, and nothing else has been called.
pub record IsConfirmed (wire : List ℕ) (t : ℕ) (before : List Call) (q : Port) : Type 0 where
  pub response : List ℕ
  pub idle : q.isdu_handler.state ≡ IsduState.idle
  pub rwcmd : q.message_handler.rwcmd ≡ RwCmd.none
  pub confirmed :
      q.out
      ≡ Call.dl_isdu_transport_cnf
          (some response)
          (count_of wire t)
          (a_of wire / 16)
          (status_of wire t)
        ∷ before
  pub same : take (count_of wire t) response ≡ slice wire (start_of (a_of wire)) (count_of wire t)

module _ (wire : List ℕ) (t : ℕ) (named : total_of (a_of wire) (b_of wire) ≡ some t) (r : Port)
    (total : r.isdu_handler.total_isdu_len ≡ t)
    (stored : take t r.isdu_handler.isdu_data ≡ take t wire) (fits : t ≤ isdu_max_size)
    (proper : start_of (a_of wire) + 1 ≤ t) where
  at_least : 2 ≤ t
  at_least = ground (arith, named)

  first_same : a_of r.isdu_handler.isdu_data ≡ a_of wire
  first_same = get_or_prefix _ _ t 0 0 stored (omega (arith, at_least))

  second_same : b_of r.isdu_handler.isdu_data ≡ b_of wire
  second_same = get_or_prefix _ _ t 1 0 stored (omega (arith, at_least))

  named_here : get_isdu_total_len r.isdu_handler ≡ some t
  unfolding get_isdu_total_len get_isdu_len
  named_here = ap₂ total_of first_same second_same ∙ named

  counted : get_isdu_data_length r.isdu_handler ≡ some (count_of wire t)
  unfolding get_isdu_data_length get_isdu_len
  counted =
      ap
        (λ o. elim o as (λ x. Option ℕ) [
          | none ↦ none
          | some len ↦ some (u8 (len + 256 - overhead r.isdu_handler))
        ])
        named_here
      ∙ ap (λ a. some (u8 (t + 256 - (if a % 16 == 1 then 3 else 2)))) first_same
      ∙ ap some (ground arith)

  summed : valid_isdu_checksum r.isdu_handler ≡ (checksum (take t wire) == 0)
  unfolding valid_isdu_checksum calc_chkpdu
  summed =
      ap (λ n. checksum (take n r.isdu_handler.isdu_data) == 0) total
      ∙ ap (λ xs. checksum xs == 0) stored

  service : get_isdu_iserv r.isdu_handler ≡ a_of wire / 16
  unfolding get_isdu_iserv
  service = ap (λ a. a / 16) first_same

  abbrev data_here : List ℕ
  data_here = get_isdu_response_data r.isdu_handler

  complete_lem :
      complete_cnf r ≡ cnf (some data_here) (count_of wire t) (a_of wire / 16) (status_of wire t) r
  unfolding complete_cnf status_of
  complete_lem = ground (arith, counted, summed, service, total, fits)

  data_same : take (count_of wire t) data_here ≡ slice wire (start_of (a_of wire)) (count_of wire t)
  unfolding get_isdu_response_data get_isdu_len
  data_same =
      let start = start_of (a_of wire) in
      let n = count_of wire t in
      let inner : start + n ≤ t = omega (arith, fits, proper) in
      ap (λ a. take n (drop (start_of a) r.isdu_handler.isdu_data)) first_same
      ∙ take-drop_swap r.isdu_handler.isdu_data start n refl
      ∙ ap (drop start) (take_shorter _ _ (start + n) t inner stored)
      ∙ sym (take-drop_swap wire start n refl)

  pub reception_complete-IsConfirmed : IsConfirmed wire t r.out (reception_complete r)
  unfolding reception_complete
  reception_complete-IsConfirmed = record {
    response = data_here;
    idle = refl;
    rwcmd = refl;
    confirmed = ap (λ q. q.out) complete_lem;
    same = data_same;
  }
