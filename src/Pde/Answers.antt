-- ===== src/Pde/Answers.antt =====
-- The answers to a client's requests for process data.
use mathlib.Core.Path.{subst}
use iol_hat.Base.{
  sym, ℕ, suc, ◌+◌, ◌≡◌, ◌≢◌, refl, Bool, true, false, List, [], ◌∷◌, ◌==◌, bit_and, if◌then◌else◌,
  arith,
}
use iol_hat.Types.{IolinkError, ArgBlockId, PortStatusInfo}
use iol_hat.Types.ArgBlock
use iol_hat.Types.Dl.{Controlcode}
use iol_hat.Pde.State.{Lower, ArgBlockPdout, Call, Port}
use iol_hat.Pde.Requests.{block_error, pde_check_smi_req, pde_smi_pdin_req}
use iol_hat.Pde.Requests.{pde_smi_pdout_req, pde_smi_pdinout_req, pdin_by, pdin_answer, go_on}
use iol_hat.Pde.Requests.{joberror, controlled, output_set, pdout_by, pdinout_answer, pdinout_by}
use iol_hat.Pde.Requests.{same}

abbrev pub confirmations : List Call → ℕ
confirmations [] = 0
confirmations (Call.smi_voidblock_cnf ref ∷ cs) = suc (confirmations cs)
confirmations (Call.smi_cnf ref len block ∷ cs) = suc (confirmations cs)
confirmations (_ ∷ cs) = confirmations cs

abbrev pub joberrors : List Call → ℕ
joberrors [] = 0
joberrors (Call.smi_joberror_ind exp ref errortype ∷ cs) = suc (joberrors cs)
joberrors (_ ∷ cs) = joberrors cs

module _ {S : Type 0} where
  -- One confirmation if the function returns no error, and one error indication if it does.
  pub record IsAnswered (p : Port S) (r : Port S × IolinkError) : Type 0 where
    pub confirmed : r.1 ≡ IolinkError.none → confirmations r.0.out ≡ confirmations p.out + 1
    pub not_wrong : r.1 ≡ IolinkError.none → joberrors r.0.out ≡ joberrors p.out
    pub not_right : r.1 ≢ IolinkError.none → confirmations r.0.out ≡ confirmations p.out
    pub refused : r.1 ≢ IolinkError.none → joberrors r.0.out ≡ joberrors p.out + 1

  -- What a check leaves.
  record IsChecked (p : Port S) (r : (Port S × IolinkError)) : Type 0 where
    passed : r.1 ≡ IolinkError.none → r.0 ≡ p
    right : confirmations r.0.out ≡ confirmations p.out
    wrong : r.1 ≢ IolinkError.none → joberrors r.0.out ≡ joberrors p.out + 1

  check-IsChecked :
      (exp ref : ArgBlockId) (n : ℕ) (exp_exp exp_ref : ArgBlockId) (a b : ℕ) (p : Port S)
      → IsChecked p (pde_check_smi_req exp ref n exp_exp exp_ref a b p)
  unfolding pde_check_smi_req
  check-IsChecked exp ref n exp_exp exp_ref a b p = ground arith

  go_on-IsAnswered :
      (p : Port S) (r : (Port S × IolinkError)) (next : Port S → (Port S × IolinkError))
      → IsChecked p r
      → IsAnswered p (next p)
      → IsAnswered p (go_on r next)
  unfolding go_on
  go_on-IsAnswered p (q, IolinkError.none) next c a =
      subst (λ z. IsAnswered p (next z)) (sym (c.passed refl)) a
  go_on-IsAnswered p (q, e) next c a = record {
    confirmed = λ h. absurd (ground arith);
    not_wrong = λ h. absurd (ground arith);
    not_right = λ h. c.right;
    refused = λ h. c.wrong h;
  }

  branches-IsAnswered :
      (p : Port S) (b : Bool) (q r : Port S × IolinkError)
      → IsAnswered p q
      → IsAnswered p r
      → IsAnswered p (if b then q else r)
  branches-IsAnswered p true q r a c = a
  branches-IsAnswered p false q r a c = c

  -- The state below does not matter.
  moved-IsAnswered :
      (p : Port S) (below : S) {r : Port S × IolinkError}
      → IsAnswered (record p { lower = below }) r
      → IsAnswered p r
  moved-IsAnswered p below a = record {
    confirmed = a.confirmed;
    not_wrong = a.not_wrong;
    not_right = a.not_right;
    refused = a.refused;
  }

module _ {S : Type 0} (lower : Lower S) where
  pdin_by-IsAnswered :
      (s : PortStatusInfo) (exp ref : ArgBlockId) (p : Port S)
      → IsAnswered p (pdin_by lower s exp ref p)
  unfolding pdin_by pdin_answer
  pdin_by-IsAnswered s exp ref p = ground arith

  controlled-IsAnswered :
      (exp ref : ArgBlockId) (oe : Bool) (e : IolinkError) (p : Port S)
      → IsAnswered p (controlled lower exp ref oe e p)
  unfolding controlled joberror
  controlled-IsAnswered exp ref oe e p = ground arith

  output_set-IsAnswered :
      (exp ref : ArgBlockId) (oe : Bool) (e : IolinkError) (p : Port S)
      → IsAnswered p (output_set lower exp ref oe e p)
  unfolding output_set joberror
  output_set-IsAnswered exp ref oe IolinkError.none p =
      let r =
        lower.al_control_req (if oe then Controlcode.pdoutvalid else Controlcode.pdoutinvalid)
          p.lower in
      branches-IsAnswered p (same p.output_enable oe) _ _ (ground arith)
        (moved-IsAnswered p r.0 (controlled-IsAnswered exp ref oe r.1 (record p { lower = r.0 })))
  output_set-IsAnswered exp ref oe e p = ground arith

  pdout_by-IsAnswered :
      (s : PortStatusInfo) (exp : ArgBlockId) (block : ArgBlockPdout) (p : Port S)
      → IsAnswered p (pdout_by lower s exp block p)
  unfolding pdout_by
  pdout_by-IsAnswered PortStatusInfo.do_ exp block p = ground arith
  pdout_by-IsAnswered s exp block p =
      let r = lower.al_set_output_req block.bytes p.lower in
      moved-IsAnswered p r.0 (
        output_set-IsAnswered exp block.id (bit_and block.oe 1 == 1) r.1 (record p { lower = r.0 }))

  pdinout_by-IsAnswered :
      (s : PortStatusInfo) (exp ref : ArgBlockId) (p : Port S)
      → s ≢ PortStatusInfo.di
      → IsAnswered p (pdinout_by lower s exp ref p)
  unfolding pdinout_by pdinout_answer joberror
  pdinout_by-IsAnswered s exp ref p h = ground arith

  -- A request for the input data is answered once: by its data if the function returns no error,
  -- and by an error indication otherwise, whatever the layers below do.
  pub pdin-IsAnswered :
      (exp : ArgBlockId) (len : ℕ) (ref : ArgBlockId) (p : Port S)
      → IsAnswered p (pde_smi_pdin_req lower exp len ref p)
  unfolding pde_smi_pdin_req
  pdin-IsAnswered exp len ref p =
      go_on-IsAnswered p _ (λ q. pdin_by lower q.port_status_info exp ref q)
        (check-IsChecked exp ref len ArgBlock.pd_in ArgBlock.void_block ArgBlock.sizeof_void
          ArgBlock.sizeof_void p)
        (pdin_by-IsAnswered p.port_status_info exp ref p)

  -- A request that sets the output data is answered once: by a confirmation if the function returns
  -- no error, and by an error indication otherwise, whatever the layers below do.
  pub pdout-IsAnswered :
      (exp : ArgBlockId) (len : ℕ) (block : ArgBlockPdout) (p : Port S)
      → IsAnswered p (pde_smi_pdout_req lower exp len block p)
  unfolding pde_smi_pdout_req
  pdout-IsAnswered exp len block p =
      go_on-IsAnswered p _ (λ q. pdout_by lower q.port_status_info exp block q)
        (check-IsChecked exp block.id len ArgBlock.void_block ArgBlock.pd_out
          (ArgBlock.sizeof_pdout_head + 1) ArgBlock.sizeof_pdout p)
        (pdout_by-IsAnswered p.port_status_info exp block p)

  -- A request for the input and output data of a port that is no digital input is answered once:
  -- by the data if the function returns no error, and by an error indication otherwise.
  pub pdinout-IsAnswered :
      (exp : ArgBlockId) (len : ℕ) (ref : ArgBlockId) (p : Port S)
      → p.port_status_info ≢ PortStatusInfo.di
      → IsAnswered p (pde_smi_pdinout_req lower exp len ref p)
  unfolding pde_smi_pdinout_req
  pdinout-IsAnswered exp len ref p h =
      go_on-IsAnswered p _ (λ q. pdinout_by lower q.port_status_info exp ref q)
        (check-IsChecked exp ref len ArgBlock.pd_in_out ArgBlock.void_block ArgBlock.sizeof_void
          ArgBlock.sizeof_void p)
        (pdinout_by-IsAnswered p.port_status_info exp ref p h)

  -- A request for the input and output data of a digital input gets no answer, although the
  -- function returns no error, if its blocks are right.
  pub pdinout_silent :
      (p : Port S)
      → p.port_status_info ≡ PortStatusInfo.di
      → pde_smi_pdinout_req lower ArgBlock.pd_in_out ArgBlock.sizeof_void ArgBlock.void_block p
        ≡ (p, IolinkError.none)
  unfolding pde_smi_pdinout_req pde_check_smi_req block_error go_on pdinout_by
  pdinout_silent p h = ground arith
