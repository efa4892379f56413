-- ===== src/Cm/Parameters.antt =====
-- The parameters that a configuration gives system management.
use iol_hat.Base.{ℕ, Bool, ◌==◌, leb, if◌then◌else◌, replicate}
use iol_hat.Types.Port.{PortConfigList, SmTargetMode, InspectionLevel, ParameterList}
use iol_hat.Cm.State.{Call, Port, emit, assert}

-- The enumerators of `iolink_portmode_t`, and the last ones of `iolink_validation_check_t` and
-- `iolink_iq_behavior_t`.
abbrev pub deactive : ℕ
deactive = 0

abbrev pub iol_man : ℕ
iol_man = 1

abbrev pub iol_auto : ℕ
iol_auto = 2

abbrev pub di_cq : ℕ
di_cq = 3

abbrev pub do_cq : ℕ
do_cq = 4

abbrev pub v11_restore : ℕ
v11_restore = 4

abbrev pub power2 : ℕ
power2 = 5

unfoldable pub portmode_to_target_mode : ℕ → SmTargetMode
portmode_to_target_mode m =
    if m == iol_man
    then SmTargetMode.cfgcom
    else (if m == iol_auto
        then SmTargetMode.autocom
        else (if m == di_cq
            then SmTargetMode.di
            else (if m == do_cq then SmTargetMode.do_ else SmTargetMode.inactive)))

-- The parameter list after its `memset`.
abbrev pub no_parameters : ParameterList
no_parameters = record {
  portnumber = 0;
  cycletime = 0;
  mode = SmTargetMode.cfgcom;
  revisionid = 0;
  inspectionlevel = InspectionLevel.no_check;
  vendorid = 0;
  deviceid = 0;
  functionid = 0;
  serialnumber = replicate 16 0;
}

unfoldable pub portconfiglist_to_parameterlist : PortConfigList → ParameterList
unfolding portmode_to_target_mode
portconfiglist_to_parameterlist cfg =
    let paraml = record no_parameters {
      cycletime = cfg.port_cycle_time;
      vendorid = cfg.vendorid;
      deviceid = cfg.deviceid;
      mode = portmode_to_target_mode cfg.portmode;
    } in
    if cfg.validation_backup == 0
    then record paraml { inspectionlevel = InspectionLevel.no_check }
    else (if cfg.validation_backup == 1
        then record paraml { inspectionlevel = InspectionLevel.identical; revisionid = 0x10 }
        else (if leb cfg.validation_backup v11_restore
            then record paraml { inspectionlevel = InspectionLevel.type_comp; revisionid = 0x11 }
            else paraml))

-- The assertions in the default cases of the two `switch` statements on a configuration.
abbrev pub assert_cfg : PortConfigList → Port → Port
assert_cfg cfg p =
    assert (leb cfg.validation_backup v11_restore) (assert (leb cfg.portmode do_cq) p)

unfoldable pub set_port_config : Bool → Port → Port
set_port_config ds_init p =
    let cfg = p.cm.cfg_list in
    let paraml = portconfiglist_to_parameterlist cfg in
    let q = assert_cfg cfg p in
    if ds_init
    then emit (Call.sm_set_port_config_req paraml) (emit (Call.ds_init cfg) q)
    else emit (Call.sm_set_port_config_req (record paraml { mode = SmTargetMode.cfgcom })) q
