-- ===== src/Sm/CheckedJobs.antt =====
-- Every job keeps that a port which goes on towards OPERATE has the configured device.
use mathlib.Core.Path.{subst₂}
use iol_hat.Base.{ℕ, ◌≡◌, ◌∙◌, sym, ap, Bool, true, false, refl, arith, List, []}
use iol_hat.Base.{if◌then◌else◌}
use iol_hat.Types.Port.{Mhmode}
use iol_hat.Sm.State.{State, Event, Port}
use iol_hat.Sm.Table.{iolink_sm_event}
use iol_hat.Sm.Checks.{raise_error, sm_check_sernum}
use iol_hat.Sm.Jobs.{read_sernum, note_mode, mode_told}
use iol_hat.Sm.Jobs.{sm_write_cycl_cnf_cb, sm_al_read_cnf_cb, sm_dl_mode_ind_cb}
use iol_hat.Sm.Jobs.{sm_dl_mode_ind_cb_inactive, sm_dl_mode_ind_cb_preop, sm_dl_mode_ind_cb_operate}
use iol_hat.Sm.Jobs.{sm_operate_cb}
use iol_hat.Sm.Compatible.{IsCompatible}
use iol_hat.Sm.Checked.{accepted, passes, event-Kept}

-- A device behind the comparison is compatible with the configuration.
abbrev pub IsChecked : Port → Type 0
IsChecked p = accepted p.sm.state ≡ true → IsCompatible p.sm.config_paramlist p.sm.real_paramlist

-- Neither of the events by which a device passes.
abbrev pub other_event : Event → Bool
other_event Event.comp_ok = false
other_event Event.v10_comp_ok = false
other_event _ = true

other-passes : (s : State) (e : Event) → other_event e ≡ true → passes s e ≡ false
other-passes s e h = ground arith

pub event-IsChecked :
    (p : Port) (e : Event)
    → passes p.sm.state e ≡ false
    → IsChecked p
    → IsChecked (iolink_sm_event p e)
event-IsChecked p e n h a =
    let k = event-Kept p e p.sm.state refl in
    subst₂ IsCompatible (sym k.config) (sym k.real) (h (k.only n a))

pub other-IsChecked :
    (p : Port) (e : Event) → other_event e ≡ true → IsChecked p → IsChecked (iolink_sm_event p e)
other-IsChecked p e o h = event-IsChecked p e (other-passes p.sm.state e o) h

pub raise-IsChecked :
    (p : Port) (e : Event) → other_event e ≡ true → IsChecked p → IsChecked (raise_error e p)
raise-IsChecked p e o h = other-IsChecked (record p { sm = record p.sm { error_event = e } }) e o h

-- Two ports that agree on what the comparison is about.
pub record Alike (p q : Port) : Type 0 where
  pub state : q.sm.state ≡ p.sm.state
  pub config : q.sm.config_paramlist ≡ p.sm.config_paramlist
  pub real : q.sm.real_paramlist ≡ p.sm.real_paramlist

pub Alike-IsChecked : (p q : Port) → Alike p q → IsChecked p → IsChecked q
Alike-IsChecked p q k h a =
    subst₂ IsCompatible (sym k.config) (sym k.real) (h (ap accepted (sym k.state) ∙ a))

-- Nothing is claimed of a port whose device is still to be compared.
pub open-IsChecked : (p : Port) → accepted p.sm.state ≡ false → IsChecked p
open-IsChecked p n a = ground arith

if-IsChecked : (b : Bool) (p q : Port) → IsChecked p → IsChecked q → IsChecked (if b then p else q)
if-IsChecked true p q h k = h
if-IsChecked false p q h k = k

pub sernum-IsChecked : (p : Port) (ok : Bool) → IsChecked p → IsChecked (sm_check_sernum ok p)
unfolding sm_check_sernum
sernum-IsChecked p ok h =
    let yes = other-IsChecked p Event.ser_num_ok refl h in
    let no = raise-IsChecked p Event.ser_num_fault refl h in
    if-IsChecked _ _ _ yes (if-IsChecked _ _ _ no yes)

pub write_cycl-IsChecked : (p : Port) (e : ℕ) → IsChecked p → IsChecked (sm_write_cycl_cnf_cb e p)
unfolding sm_write_cycl_cnf_cb
write_cycl-IsChecked p e h = other-IsChecked p _ (ground arith) h

sernum_read-IsChecked :
    (p : Port) (len : ℕ) (bytes : List ℕ) → IsChecked p → IsChecked (read_sernum len bytes p)
sernum_read-IsChecked p len bytes h a = record {
  cycletime = (h a).cycletime;
  identity = (h a).identity;
}

pub al_read-IsChecked :
    (p : Port) (len : ℕ) (bytes : List ℕ) (e : ℕ)
    → IsChecked p
    → IsChecked (sm_al_read_cnf_cb len bytes e p)
unfolding sm_al_read_cnf_cb
al_read-IsChecked p len bytes e h =
    let found =
      sernum-IsChecked (read_sernum len bytes p) true (sernum_read-IsChecked p len bytes h) in
    let none = sernum-IsChecked (read_sernum 0 [] p) true (sernum_read-IsChecked p 0 [] h) in
    let lost = other-IsChecked p Event.cnf_comlost refl h in
    let mode = other-IsChecked p Event.dl_mode_comlost refl h in
    ground (arith, found, none, lost, mode)

pub operate-IsChecked : (p : Port) → IsChecked p → IsChecked (sm_operate_cb p)
unfolding sm_operate_cb
operate-IsChecked p h = other-IsChecked p _ (ground arith) h

note-IsChecked : (p : Port) (m : Mhmode) → IsChecked p → IsChecked (note_mode m p)
note-IsChecked p m h = ground (arith, h)

mode_event-IsChecked :
    (p : Port) (m : Mhmode) (s : State) → p.sm.state ≡ s → IsChecked p → IsChecked (mode_told m p)
unfolding sm_dl_mode_ind_cb_inactive sm_dl_mode_ind_cb_preop sm_dl_mode_ind_cb_operate
mode_event-IsChecked p m s e h =
    let lost = other-IsChecked p Event.dl_mode_comlost refl h in
    let startup = other-IsChecked p Event.dl_mode_startup refl h in
    let preop = other-IsChecked p Event.dl_mode_preoperate refl h in
    let operate = other-IsChecked p Event.dl_mode_operate refl h in
    ground (arith, lost, startup, preop, operate, h)

pub mode-IsChecked : (p : Port) (m : Mhmode) → IsChecked p → IsChecked (sm_dl_mode_ind_cb m p)
unfolding sm_dl_mode_ind_cb
mode-IsChecked p m h =
    mode_event-IsChecked (note_mode m p) m (note_mode m p).sm.state refl (note-IsChecked p m h)
