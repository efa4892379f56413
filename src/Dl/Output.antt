-- ===== src/Dl/Output.antt =====
-- Process output through the application layer and the data link layer, ilink/iolink_al.c over
-- ilink/iolink_dl.c.
use iol_hat.Base.{ℕ, zero, suc, ◌%◌, ◌≤◌, ◌≡◌, refl, ap, ◌∙◌, arith, Bool, true, false, ◌==◌}
use iol_hat.Base.{if◌then◌else◌, List, [], ◌∷◌, ◌++◌, length, take, set, overwrite}
use iol_hat.Base.{take-overwrite_block, length-take, length-set}
use iol_hat.Base.Slices.{slice-overwrite, take-take}
use iol_hat.Types.{IolinkError}
use iol_hat.Dl.State.{Port, PdState, Trigger, slice}
use iol_hat.Dl.Requests.{pd_req}
use iol_hat.Dl.Command.{dl_control_req}
use iol_hat.Dl.PdHandler.{
  dl_pd_output_get_req, dl_pd_output_update_req, iolink_dl_pd_h_sm, pd_by_state,
}
use iol_hat.Dl.PdHandler.{pd_single1, trigger, with_output}
use iol_hat.Al.ProcessData.{DlProcessData, al_set_output_req, al_get_input_output_req, input_output}
use iol_hat.Al.State as Al

abbrev pub process_data : DlProcessData Port
unfolding dl_pd_output_get_req dl_pd_output_update_req dl_control_req
process_data = record {
  dl_pd_output_get_req = dl_pd_output_get_req;
  dl_pd_output_update_req = dl_pd_output_update_req;
  dl_control_req = dl_control_req;
}

take-set_before : (xs : List ℕ) (n v : ℕ) → take n (set xs n v) ≡ take n xs
take-set_before [] n v = refl
take-set_before (x ∷ xs) zero v = refl
take-set_before (x ∷ xs) (suc n) v = ap (λ ys. x ∷ ys) (take-set_before xs n v)

take_if : (b : Bool) (xs : List ℕ) (n : ℕ) → take n (if b then set xs n 0 else xs) ≡ take n xs
take_if true xs n = take-set_before xs n 0
take_if false xs n = refl

length_if : (b : Bool) (xs : List ℕ) (n : ℕ) → length (if b then set xs n 0 else xs) ≡ length xs
length_if true xs n = length-set xs n 0
length_if false xs n = refl

-- Process data in one message, and a client's output that is long enough.
pub record IsSingle (output : List ℕ) (d : Port) : Type 0 where
  pub single : d.pd_handler.state ≡ PdState.pdsingle
  pub array : length d.pd_handler.pdoutdata ≡ 32
  pub tx : d.pd_handler.pd_txlen ≤ 32
  pub rx : d.pd_handler.pd_rxlen ≤ 32
  pub given : d.pd_handler.pd_txlen ≤ length output
  pub buffer : length d.txbuffer ≡ 64

module _ (output : List ℕ) (d : Port) (h : IsSingle output d) where
  abbrev n : ℕ
  n = d.pd_handler.pd_txlen

  abbrev outdata : List ℕ
  outdata = (with_output output d.pd_handler).pdoutdata

  kept : take n outdata ≡ take n output
  kept =
      let filled = overwrite d.pd_handler.pdoutdata 0 (take n output) in
      let sized = length-take n output in
      take_if (n % 2 == 1) filled n
      ∙ take-overwrite_block d.pd_handler.pdoutdata 0 n (take n output)
          (omega (arith, sized, h.given)) (omega (arith, h.array, h.tx))

  abbrev updated : Port
  updated = record d { pd_handler = with_output output d.pd_handler }

  set_lem : al_set_output_req process_data output d ≡ (updated, IolinkError.none)
  unfolding al_set_output_req process_data dl_pd_output_update_req
  set_lem = ground (arith, h.single)

  read_back :
      (p : Al.Port)
      → (al_get_input_output_req process_data p updated).1.1
        ≡ p.al.pdin_data_len ∷ (take p.al.pdin_data_len p.al.pdin_data ++ (n ∷ take n output))
  unfolding al_get_input_output_req process_data dl_pd_output_get_req input_output
  read_back p =
      ap (λ ys. p.al.pdin_data_len ∷ (take p.al.pdin_data_len p.al.pdin_data ++ (n ∷ ys)))
        (take-take n n outdata (omega arith) ∙ kept)

  abbrev next_message : Port
  next_message = iolink_dl_pd_h_sm (trigger Trigger.master_message updated)

  message_lem : next_message.txbuffer ≡ overwrite d.txbuffer 2 (take n outdata)
  unfolding iolink_dl_pd_h_sm pd_by_state pd_single1 pd_req
  message_lem = ground (arith, h.single, h.tx, h.rx)

  sent : slice next_message.txbuffer 2 n ≡ take n output
  sent =
      let sized : n ≡ length (take n outdata) =
        omega (arith, ap length kept, length-take n output, h.given) in
      ap (λ xs. slice xs 2 n) message_lem
      ∙ slice-overwrite d.txbuffer (take n outdata) 2 n sized (omega (arith, h.buffer, h.tx))
      ∙ kept

  -- Output that a client sets while process data goes in one message is accepted; it is what the
  -- client reads back behind the last input, and what the next message carries.
  pub output-sent :
      (p : Al.Port)
      → (al_set_output_req process_data output d).1 ≡ IolinkError.none
        × ((al_get_input_output_req process_data p (al_set_output_req process_data output d).0).1.1
            ≡ p.al.pdin_data_len
              ∷ (take p.al.pdin_data_len p.al.pdin_data
                  ++ (d.pd_handler.pd_txlen ∷ take d.pd_handler.pd_txlen output)))
        × (slice
              (iolink_dl_pd_h_sm (
                trigger Trigger.master_message
                  (al_set_output_req process_data output d).0)).txbuffer
              2
              d.pd_handler.pd_txlen
            ≡ take d.pd_handler.pd_txlen output)
  output-sent p = (
    ap (λ r. r.1) set_lem,
    ap (λ r. (al_get_input_output_req process_data p r.0).1.1) set_lem ∙ read_back p,
    ap (λ r. slice (iolink_dl_pd_h_sm (trigger Trigger.master_message r.0)).txbuffer 2 n) set_lem
        ∙ sent,
  )
