-- ===== src/Sm/CheckedReads.antt =====
-- What was read of the device keeps that a port which goes on towards OPERATE has the configured
-- device.
use mathlib.Core.Path.{subst₂}
use iol_hat.Base.{ℕ, ◌+◌, u8, ◌≡◌, sym, ap, Bool, true, false, ◌==◌, refl, arith}
use iol_hat.Types.Dl.{Status}
use iol_hat.Sm.State.{State, Event, Port}
use iol_hat.Sm.Params.{dummy_wurq}
use iol_hat.Sm.Checks.{sm_do_check_comp, sm_do_check_comp_v10}
use iol_hat.Sm.Checks.{sm_dl_read_cnf_read_com_param, sm_dl_read_cnf_check_comp}
use iol_hat.Sm.DeviceData.{store_parameter, store_min_cycl}
use iol_hat.Sm.Jobs.{sm_dl_read_cnf_cb, read_next}
use iol_hat.Sm.Compatible.{IsCompatible, check_comp_iff, check_comp_v10_iff}
use iol_hat.Sm.Compatible.{check_comp-Compared, check_comp_v10-Compared}
use iol_hat.Sm.Checked.{accepted}
use iol_hat.Sm.CheckedJobs.{IsChecked, other-IsChecked, Alike-IsChecked}
use iol_hat.Sm.CheckedJobs.{open-IsChecked}
use iol_hat.Sm.CheckedWrites.{read_same-Alike}

-- A parameter that is read while the device is still to be compared.
abbrev pub reads : State → Bool
reads State.read_com_parameter = true
reads State.check_comp = true
reads State.check_comp_v10 = true
reads State.restart_device = true
reads _ = false

com_param-open :
    (p : Port) (addr : ℕ)
    → p.sm.state ≡ State.read_com_parameter
    → IsChecked (sm_dl_read_cnf_read_com_param addr p)
unfolding sm_dl_read_cnf_read_com_param
com_param-open p addr e =
    let h = open-IsChecked p (ap accepted e) in
    let asked = Alike-IsChecked p _ (read_same-Alike p (u8 (addr + 1))) h in
    let v10 = other-IsChecked p Event.v10 refl h in
    let not_v10 = other-IsChecked p Event.not_v10 refl h in ground (arith, asked, v10, not_v10)

compared-IsChecked : (p : Port) → p.sm.state ≡ State.check_comp → IsChecked (sm_do_check_comp p)
compared-IsChecked p e a =
    let c = check_comp-Compared p e in
    subst₂ IsCompatible (sym c.config) (sym c.real) ((check_comp_iff p e).0 (c.only a))

compared_v10-IsChecked :
    (p : Port) → p.sm.state ≡ State.check_comp_v10 → IsChecked (sm_do_check_comp_v10 p)
compared_v10-IsChecked p e a =
    let c = check_comp_v10-Compared p e in
    subst₂ IsCompatible (sym c.config) (sym c.real) ((check_comp_v10_iff p e).0 (c.only a))

check-IsChecked :
    (p : Port) (addr : ℕ)
    → p.sm.state ≡ State.check_comp
    → IsChecked (sm_dl_read_cnf_check_comp addr State.check_comp p)
unfolding sm_dl_read_cnf_check_comp
check-IsChecked p addr e =
    let h = open-IsChecked p (ap accepted e) in
    let asked = Alike-IsChecked p _ (read_same-Alike p (u8 (addr + 1))) h in
    let done = compared-IsChecked p e in ground (arith, asked, done)

check_v10-IsChecked :
    (p : Port) (addr : ℕ)
    → p.sm.state ≡ State.check_comp_v10
    → IsChecked (sm_dl_read_cnf_check_comp addr State.check_comp_v10 p)
unfolding sm_dl_read_cnf_check_comp
check_v10-IsChecked p addr e =
    let h = open-IsChecked p (ap accepted e) in
    let asked = Alike-IsChecked p _ (read_same-Alike p (u8 (addr + 1))) h in
    let done = compared_v10-IsChecked p e in ground (arith, asked, done)

read_next-IsChecked :
    (p : Port) (addr : ℕ) (s : State)
    → p.sm.state ≡ s
    → reads s ≡ true
    → IsChecked (read_next s addr p)
unfolding read_next
read_next-IsChecked p addr State.read_com_parameter e r = com_param-open p addr e
read_next-IsChecked p addr State.check_comp e r = check-IsChecked p addr e
read_next-IsChecked p addr State.check_comp_v10 e r = check_v10-IsChecked p addr e
read_next-IsChecked p addr State.restart_device e r =
    other-IsChecked p Event.write_done refl (open-IsChecked p (ap accepted e))
read_next-IsChecked p addr _ e r = absurd (ground arith)

stored_state : (p : Port) (addr v : ℕ) → (store_parameter addr v p).sm.state ≡ p.sm.state
unfolding store_parameter store_min_cycl
stored_state p addr v = ground arith

pub read_cnf-IsChecked :
    (p : Port) (addr v : ℕ) (i : Status)
    → ((addr == dummy_wurq) ≡ false → reads p.sm.state ≡ true)
    → IsChecked p
    → IsChecked (sm_dl_read_cnf_cb addr v i p)
unfolding sm_dl_read_cnf_cb
read_cnf-IsChecked p addr v i x h =
    let next : reads p.sm.state ≡ true
        → IsChecked (read_next p.sm.state addr (store_parameter addr v p)) =
      λ r.
        read_next-IsChecked (store_parameter addr v p) addr p.sm.state (stored_state p addr v) r in
    let lost = other-IsChecked p Event.cnf_comlost refl h in ground (arith, next, lost, x, h)
