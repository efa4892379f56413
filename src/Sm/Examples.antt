-- ===== src/Sm/Examples.antt =====
-- Runs of system management on small inputs, and the theorems at such inputs.
use iol_hat.Base.{ℕ, ◌≤◌, ◌≡◌, ◌↔◌, refl, true, List, [], ◌∷◌, arith}
use iol_hat.Types.Dl.{Status, DlMode, MsequenceType}
use iol_hat.Types.Port.{ParameterList, InspectionLevel, Mhmode, SmPortmode}
use iol_hat.Cm.Parameters.{no_parameters}
use iol_hat.Sm.State.{State, Event, Sm, Call, Port}
use iol_hat.Sm.ValueList.{set_valuelist, populate_valuelist, populate_operate, populate_oper}
use iol_hat.Sm.Jobs.{Job, callback, run, sm_dl_read_cnf_cb, read_next, sm_setportcfg_req_cb}
use iol_hat.Sm.DeviceData.{store_parameter}
use iol_hat.Sm.Checks.{sm_dl_read_cnf_check_comp}
use iol_hat.Sm.Requests.{sm_dl_read_req, sm_dl_read_write_req}
use iol_hat.Sm.Compatible.{IsCompatible}
use iol_hat.Sm.Identity.{answers, identified, identity-IsCompatible}
use iol_hat.Sm.CheckedJobs.{IsChecked}
use iol_hat.Sm.CheckedRuns.{run-IsChecked}
use iol_hat.Sm.Octets.{populate_valuelist-octets, populate_valuelist_three_octets, octets}
use iol_hat.Sm.Stuck.{restart_device_stays}

abbrev configured : ParameterList
configured = record no_parameters {
  inspectionlevel = InspectionLevel.type_comp;
  vendorid = 0x014D;
  deviceid = 0x010203;
}

abbrev sm_in : State → ℕ → Sm
sm_in s addr = record {
  state = s;
  mh_mode = Mhmode.startup;
  comrate = Mhmode.com2;
  config_paramlist = configured;
  real_paramlist = no_parameters;
  dev_com = record { mincycle = 0; mseq_cap = 0; pdi = 0; pdo = 0 };
  dl_addr = addr;
  comp_retry = 0;
  error_event = Event.none;
}

abbrev port_in : State → ℕ → Port
port_in s addr = record { sm = sm_in s addr; ds_enable = true; older_cycletime = 0; out = [] }

abbrev bytes : List ℕ
bytes = 1 ∷ (0x4D ∷ (1 ∷ (2 ∷ (3 ∷ (0 ∷ (0 ∷ []))))))

identity-IsCompatible_example :
    let q = answers bytes (port_in State.check_comp 7) in
    let real = identified 1 0x4D 1 2 3 0 0 no_parameters in
    (q.sm.real_paramlist ≡ real)
    × ((q.sm.state ≡ State.waiton_dl_preoperate) ↔ IsCompatible configured real)
identity-IsCompatible_example =
    identity-IsCompatible (port_in State.check_comp 7) 1 0x4D 1 2 3 0 0 refl refl (omega arith)
      (omega arith) (omega arith) (omega arith)

abbrev three_reads : List Job
three_reads =
    Job.dl_read_cnf 7 1 Status.no_error
    ∷ Job.dl_read_cnf 8 0x4D Status.no_error
    ∷ Job.dl_read_cnf 9 1 Status.no_error
    ∷ Job.setportcfg_req configured
    ∷ []

waiting-IsChecked : IsChecked (port_in State.check_comp 7)
waiting-IsChecked a = absurd (ground arith)

run-IsChecked_example : IsChecked (run three_reads (port_in State.check_comp 7))
unfolding callback sm_dl_read_cnf_cb read_next store_parameter sm_dl_read_cnf_check_comp
    sm_dl_read_req sm_dl_read_write_req sm_setportcfg_req_cb
run-IsChecked_example =
    run-IsChecked three_reads (port_in State.check_comp 7) waiting-IsChecked refl

populate_valuelist-octets_example :
    let v = set_valuelist 1 0 0 0 MsequenceType.type_0 in
    let w = (populate_valuelist 8 0x11 0x83 0x85 80 true v).0.0 in
    (w.pdinputlength ≡ octets 0x83)
    × (w.pdoutputlength ≡ octets 0x85)
    × (w.pdinputlength ≤ 32)
    × (w.pdoutputlength ≤ 32)
unfolding populate_valuelist populate_operate populate_oper set_valuelist
populate_valuelist-octets_example =
    populate_valuelist-octets 8 0x11 0x83 0x85 80 (set_valuelist 1 0 0 0 MsequenceType.type_0)
      (omega arith) (omega arith) refl

populate_valuelist_three_octets_example :
    let v = set_valuelist 1 0 0 0 MsequenceType.type_0 in
    let r = populate_valuelist 0 0x10 0x82 0 80 true v in
    (octets 0x82 ≡ 3) × (r.0.0.type ≡ MsequenceType.type_2_1) × (r.0.0.pdinputlength ≡ 1)
populate_valuelist_three_octets_example =
    populate_valuelist_three_octets 0 0x10 80 (set_valuelist 1 0 0 0 MsequenceType.type_0)
      (omega arith)

abbrev asks : List Job
asks = Job.setportcfg_req configured ∷ (Job.sm_operate ∷ [])

restart_device_stays_example :
    let q = callback (Job.dl_write_cnf 4 Status.no_comm) (port_in State.restart_device 4) in
    (q.out
      ≡ Call.sm_port_mode_ind SmPortmode.comlost
        ∷ (Call.dl_set_mode_req DlMode.inactive (set_valuelist 0 0 0 0 MsequenceType.none) ∷ []))
    × (q.sm.state ≡ State.restart_device)
    × (run asks q ≡ q)
restart_device_stays_example =
    restart_device_stays (port_in State.restart_device 4) 4 asks refl refl
