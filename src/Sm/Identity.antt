-- ===== src/Sm/Identity.antt =====
-- The identity of a device, as system management reads it: seven direct parameters in a row.
use iol_hat.Base.{ℕ, ◌+◌, ◌*◌, ◌<◌, ◌≡◌, ◌↔◌, refl, ap, ◌∙◌, List, [], ◌∷◌, bit_or, arith}
use mathlib.Core.Path.{subst₂}
use iol_hat.Base.Bits.{or_below_256, or_below_65536}
use iol_hat.Types.Dl.{Status}
use iol_hat.Types.Port.{ParameterList}
use iol_hat.Sm.State.{State, Sm, Port}
use iol_hat.Sm.Params.{vid_1, vid_2, did_1, did_2, did_3, fid_1, fid_2}
use iol_hat.Sm.Requests.{sm_dl_read_req, sm_dl_read_write_req}
use iol_hat.Sm.DeviceData.{store_parameter}
use iol_hat.Sm.Checks.{sm_dl_read_cnf_check_comp, sm_do_check_comp}
use iol_hat.Sm.Compatible.{IsCompatible, check_comp_iff, check_comp-Compared}
use iol_hat.Sm.Jobs.{callback, read_next, sm_dl_read_cnf_cb}
use iol_hat.Sm.Api.{dl_read_cnf}

-- The device answers a read without an error, and the main thread works the job off.
abbrev pub answer : ℕ → Port → Port
answer v p = callback (dl_read_cnf v Status.no_error p).job p

abbrev pub answers : List ℕ → Port → Port
answers [] p = p
answers (v ∷ vs) p = answers vs (answer v p)

-- What one answer adds to system management's state, and the address that is asked for next.
abbrev learnt : ParameterList → ℕ → Sm → Sm
learnt real next sm = record sm { real_paramlist = real; dl_addr = next }

abbrev with_vid_1 : ℕ → Sm → Sm
with_vid_1 v sm = let real = sm.real_paramlist in learnt (record real { vendorid = v * 256 }) 8 sm

vid_1-answer :
    (p : Port) (v : ℕ)
    → p.sm.state ≡ State.check_comp
    → p.sm.dl_addr ≡ vid_1
    → (answer v p).sm ≡ with_vid_1 v p.sm
unfolding callback dl_read_cnf sm_dl_read_cnf_cb read_next sm_dl_read_cnf_check_comp sm_dl_read_req
    sm_dl_read_write_req store_parameter
vid_1-answer p v s a = rw (a, s) refl

abbrev with_vid_2 : ℕ → Sm → Sm
with_vid_2 v sm =
    let real = sm.real_paramlist in learnt (record real { vendorid = bit_or real.vendorid v }) 9 sm

vid_2-answer :
    (p : Port) (v : ℕ)
    → p.sm.state ≡ State.check_comp
    → p.sm.dl_addr ≡ vid_2
    → (answer v p).sm ≡ with_vid_2 v p.sm
unfolding callback dl_read_cnf sm_dl_read_cnf_cb read_next sm_dl_read_cnf_check_comp sm_dl_read_req
    sm_dl_read_write_req store_parameter
vid_2-answer p v s a = rw (a, s) refl

abbrev with_did_1 : ℕ → Sm → Sm
with_did_1 v sm =
    let real = sm.real_paramlist in learnt (record real { deviceid = v * 65536 }) 10 sm

did_1-answer :
    (p : Port) (v : ℕ)
    → p.sm.state ≡ State.check_comp
    → p.sm.dl_addr ≡ did_1
    → (answer v p).sm ≡ with_did_1 v p.sm
unfolding callback dl_read_cnf sm_dl_read_cnf_cb read_next sm_dl_read_cnf_check_comp sm_dl_read_req
    sm_dl_read_write_req store_parameter
did_1-answer p v s a = rw (a, s) refl

abbrev with_did_2 : ℕ → Sm → Sm
with_did_2 v sm =
    let real = sm.real_paramlist in
    learnt (record real { deviceid = bit_or real.deviceid (v * 256) }) 11 sm

did_2-answer :
    (p : Port) (v : ℕ)
    → p.sm.state ≡ State.check_comp
    → p.sm.dl_addr ≡ did_2
    → (answer v p).sm ≡ with_did_2 v p.sm
unfolding callback dl_read_cnf sm_dl_read_cnf_cb read_next sm_dl_read_cnf_check_comp sm_dl_read_req
    sm_dl_read_write_req store_parameter
did_2-answer p v s a = rw (a, s) refl

abbrev with_did_3 : ℕ → Sm → Sm
with_did_3 v sm =
    let real = sm.real_paramlist in learnt (record real { deviceid = bit_or real.deviceid v }) 12 sm

did_3-answer :
    (p : Port) (v : ℕ)
    → p.sm.state ≡ State.check_comp
    → p.sm.dl_addr ≡ did_3
    → (answer v p).sm ≡ with_did_3 v p.sm
unfolding callback dl_read_cnf sm_dl_read_cnf_cb read_next sm_dl_read_cnf_check_comp sm_dl_read_req
    sm_dl_read_write_req store_parameter
did_3-answer p v s a = rw (a, s) refl

abbrev with_fid_1 : ℕ → Sm → Sm
with_fid_1 v sm =
    let real = sm.real_paramlist in learnt (record real { functionid = v * 256 }) 13 sm

fid_1-answer :
    (p : Port) (v : ℕ)
    → p.sm.state ≡ State.check_comp
    → p.sm.dl_addr ≡ fid_1
    → (answer v p).sm ≡ with_fid_1 v p.sm
unfolding callback dl_read_cnf sm_dl_read_cnf_cb read_next sm_dl_read_cnf_check_comp sm_dl_read_req
    sm_dl_read_write_req store_parameter
fid_1-answer p v s a = rw (a, s) refl

-- The parameters with the identity that seven bytes are, the most significant byte of a number
-- first.
abbrev pub identified : (v1 v2 d1 d2 d3 f1 f2 : ℕ) → ParameterList → ParameterList
identified v1 v2 d1 d2 d3 f1 f2 real = record real {
  vendorid = v1 * 256 + v2;
  deviceid = d1 * 65536 + d2 * 256 + d3;
  functionid = f1 * 256 + f2;
}

abbrev at : Sm → State
at sm = sm.state

abbrev addr : Sm → ℕ
addr sm = sm.dl_addr

module _ (p : Port) (v1 v2 d1 d2 d3 f1 : ℕ) where
  abbrev six : List ℕ
  six = v1 ∷ (v2 ∷ (d1 ∷ (d2 ∷ (d3 ∷ (f1 ∷ [])))))

  abbrev six_learnt : Sm
  six_learnt =
      with_fid_1 f1
        (with_did_3 d3 (with_did_2 d2 (with_did_1 d1 (with_vid_2 v2 (with_vid_1 v1 p.sm)))))

  -- After six answers, the seventh one completes the identity.
  six-answers :
      p.sm.state ≡ State.check_comp → p.sm.dl_addr ≡ vid_1 → (answers six p).sm ≡ six_learnt
  six-answers s a =
      let e1 = vid_1-answer p v1 s a in
      let q1 = answer v1 p in
      let e2 = vid_2-answer q1 v2 (ap at e1 ∙ s) (ap addr e1) ∙ ap (with_vid_2 v2) e1 in
      let q2 = answer v2 q1 in
      let e3 = did_1-answer q2 d1 (ap at e2 ∙ s) (ap addr e2) ∙ ap (with_did_1 d1) e2 in
      let q3 = answer d1 q2 in
      let e4 = did_2-answer q3 d2 (ap at e3 ∙ s) (ap addr e3) ∙ ap (with_did_2 d2) e3 in
      let q4 = answer d2 q3 in
      let e5 = did_3-answer q4 d3 (ap at e4 ∙ s) (ap addr e4) ∙ ap (with_did_3 d3) e4 in
      let q5 = answer d3 q4 in
      fid_1-answer q5 f1 (ap at e5 ∙ s) (ap addr e5) ∙ ap (with_fid_1 f1) e5

  -- What is kept of the whole identity: seven bytes as three numbers.
  six-identified :
      (f2 : ℕ)
      → v2 < 256
      → d2 < 256
      → d3 < 256
      → f2 < 256
      → record six_learnt.real_paramlist {
        functionid = bit_or six_learnt.real_paramlist.functionid f2;
      }
        ≡ identified v1 v2 d1 d2 d3 f1 f2 p.sm.real_paramlist
  six-identified f2 hv hd2 hd3 hf =
      let v = or_below_256 v1 v2 hv in
      let high = or_below_65536 d1 (d2 * 256) (omega arith) in
      let d =
        ap (λ x. bit_or x d3) (high ∙ omega arith)
        ∙ or_below_256 (d1 * 256 + d2) d3 hd3
        ∙ omega arith in
      let f = or_below_256 f1 f2 hf in
      λ i. record p.sm.real_paramlist { vendorid = v i; deviceid = d i; functionid = f i }

abbrev with_fid_2 : ℕ → Sm → Sm
with_fid_2 v sm =
    let real = sm.real_paramlist in
    record sm { real_paramlist = record real { functionid = bit_or real.functionid v } }

abbrev real_of : Sm → ParameterList
real_of sm = sm.real_paramlist

abbrev config_of : Sm → ParameterList
config_of sm = sm.config_paramlist

fid_2-answer :
    (p : Port) (v : ℕ)
    → p.sm.state ≡ State.check_comp
    → p.sm.dl_addr ≡ fid_2
    → answer v p ≡ sm_do_check_comp (store_parameter fid_2 v p)
unfolding callback dl_read_cnf sm_dl_read_cnf_cb read_next sm_dl_read_cnf_check_comp store_parameter
fid_2-answer p v s a = rw (a, s) refl

fid_2-stored : (p : Port) (v : ℕ) → (store_parameter fid_2 v p).sm ≡ with_fid_2 v p.sm
unfolding store_parameter
fid_2-stored p v = refl

-- A device whose parameters are being compared answers the reads of its vendor, device and function
-- with seven bytes: then its identity is the three numbers that these bytes are, and system
-- management waits for PREOPERATE exactly when the configured cycle time is none or not below the
-- device's, and vendor and device are the configured ones unless nothing is to be checked.
pub identity-IsCompatible :
    (p : Port) (v1 v2 d1 d2 d3 f1 f2 : ℕ)
    → p.sm.state ≡ State.check_comp
    → p.sm.dl_addr ≡ vid_1
    → v2 < 256
    → d2 < 256
    → d3 < 256
    → f2 < 256
    → let q = answers (v1 ∷ (v2 ∷ (d1 ∷ (d2 ∷ (d3 ∷ (f1 ∷ (f2 ∷ []))))))) p in
      let real = identified v1 v2 d1 d2 d3 f1 f2 p.sm.real_paramlist in
      (q.sm.real_paramlist ≡ real)
      × ((q.sm.state ≡ State.waiton_dl_preoperate) ↔ IsCompatible p.sm.config_paramlist real)
identity-IsCompatible p v1 v2 d1 d2 d3 f1 f2 s a hv hd2 hd3 hf =
    let q = answers (six p v1 v2 d1 d2 d3 f1) p in
    let e = six-answers p v1 v2 d1 d2 d3 f1 s a in
    let r = store_parameter fid_2 f2 q in
    let last = fid_2-answer q f2 (ap at e ∙ s) (ap addr e) in
    let stored = fid_2-stored q f2 ∙ ap (with_fid_2 f2) e in
    let real = ap real_of stored ∙ six-identified p v1 v2 d1 d2 d3 f1 f2 hv hd2 hd3 hf in
    let at_r = ap at stored ∙ s in
    rw last (
      (check_comp-Compared r at_r).real ∙ real,
      subst₂
          (λ c l. ((sm_do_check_comp r).sm.state ≡ State.waiton_dl_preoperate) ↔ IsCompatible c l)
          (ap config_of stored) real (check_comp_iff r at_r),
    )
