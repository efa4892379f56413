-- ===== src/Sm/CheckedRuns.antt =====
-- A port that goes on towards OPERATE has the configured device, whatever jobs are worked off.
use iol_hat.Base.{◌≡◌, Bool, true, not, ◌&&◌, ◌||◌, ◌==◌, refl, arith, List, [], ◌∷◌}
use iol_hat.Base.{and_left, and_right}
use iol_hat.Sm.State.{State, Port}
use iol_hat.Sm.Params.{dummy_wurq}
use iol_hat.Sm.Jobs.{Job, callback, run}
use iol_hat.Sm.CheckedJobs.{IsChecked, write_cycl-IsChecked, al_read-IsChecked, operate-IsChecked}
use iol_hat.Sm.CheckedJobs.{mode-IsChecked}
use iol_hat.Sm.CheckedWrites.{is_dido, config-IsChecked, devmode-IsChecked, write_cnf-IsChecked}
use iol_hat.Sm.CheckedReads.{reads, read_cnf-IsChecked}

abbrev dido_allowed : State → Bool → Bool
dido_allowed State.check_ser_num dido = not dido
dido_allowed _ dido = true

-- Parameters are read while the device is still to be compared, and no port becomes a digital input
-- or output while its serial number is checked, for which there is no transition.
abbrev expected : Job → State → Bool
expected (Job.dl_read_cnf addr val stat) s = addr == dummy_wurq || reads s
expected (Job.setportcfg_req l) s = dido_allowed s (is_dido l.mode)
expected _ s = true

abbrev pub all_expected : List Job → Port → Bool
all_expected [] p = true
all_expected (j ∷ js) p = expected j p.sm.state && all_expected js (callback j p)

callback-IsChecked :
    (p : Port) (j : Job) → expected j p.sm.state ≡ true → IsChecked p → IsChecked (callback j p)
unfolding callback
callback-IsChecked p (Job.write_cycl_cnf e) x h = write_cycl-IsChecked p e h
callback-IsChecked p (Job.al_read_cnf len bytes e) x h = al_read-IsChecked p len bytes e h
callback-IsChecked p (Job.dl_mode_ind m) x h = mode-IsChecked p m h
callback-IsChecked p Job.sm_operate x h = operate-IsChecked p h
callback-IsChecked p (Job.setportcfg_req l) x h =
    config-IsChecked p l p.sm.state l.mode refl refl h (λ e. ground (arith, e, x))
callback-IsChecked p (Job.dl_read_cnf addr v i) x h =
    read_cnf-IsChecked p addr v i (λ e. ground (arith, e, x)) h
callback-IsChecked p (Job.dl_write_cnf addr i) x h = write_cnf-IsChecked p addr i h
callback-IsChecked p (Job.dl_write_devmode_cnf i) x h = devmode-IsChecked p i h

-- Whatever jobs are worked off, where parameters are read only while the device is still to be
-- compared and no port becomes a digital input or output while its serial number is checked: a port
-- on its way from the comparison to OPERATE, or there, has a device whose cycle time is not above
-- the configured one, if there is one, and whose vendor and device are the configured ones, unless
-- nothing is to be checked.
pub run-IsChecked :
    (js : List Job) (p : Port) → IsChecked p → all_expected js p ≡ true → IsChecked (run js p)
unfolding run
run-IsChecked [] p h x = h
run-IsChecked (j ∷ js) p h x =
    run-IsChecked js (callback j p) (callback-IsChecked p j (and_left _ _ x) h) (and_right _ _ x)
