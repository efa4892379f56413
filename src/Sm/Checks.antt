-- ===== src/Sm/Checks.antt =====
-- The comparisons of a device with the configuration, and what system management does with what
-- the data link layer read or wrote.
use iol_hat.Base.{ℕ, ◌+◌, ◌/◌, ◌==◌, ltb, if◌then◌else◌, Bool, true, false, not, ◌&&◌, ◌||◌, u8}
use iol_hat.Base.{List, [], ◌∷◌}
use iol_hat.Types.Port.{ParameterList, SmTargetMode, InspectionLevel}
use iol_hat.Sm.State.{State, Event, Call, Port, emit}
use iol_hat.Sm.Params.{master_cmd, master_cycl, min_cycl, rev_id, pdo}
use iol_hat.Sm.Params.{did_1, did_2, did_3, fid_2, device_ident, device_operate}
use iol_hat.Sm.Params.{rev_v10}
use iol_hat.Sm.Requests.{sm_dl_read_req, sm_dl_write_req, sm_dl_set_mode_req_operate}
use iol_hat.Sm.Table.{iolink_sm_event}

-- An event that is kept as the error.
abbrev pub raise_error : Event → Port → Port
raise_error ret p = iolink_sm_event (record p { sm = record p.sm { error_event = ret } }) ret

abbrev is_no_check : InspectionLevel → Bool
is_no_check InspectionLevel.no_check = true
is_no_check _ = false

abbrev pub is_identical : InspectionLevel → Bool
is_identical InspectionLevel.identical = true
is_identical _ = false

-- The configured cycle time is set, and below the device's.
abbrev cycle_too_short : ParameterList → ParameterList → Bool
cycle_too_short config real = not (config.cycletime == 0) && ltb config.cycletime real.cycletime

unfoldable pub sm_do_check_comp_v10 : Port → Port
sm_do_check_comp_v10 p =
    let config = p.sm.config_paramlist in
    let real = p.sm.real_paramlist in
    if cycle_too_short config real
    then raise_error Event.cyc_time_fault_v10 p
    else (if is_no_check config.inspectionlevel
        then iolink_sm_event p Event.v10_comp_ok
        else (if config.vendorid == real.vendorid && config.deviceid == real.deviceid
            then iolink_sm_event p Event.v10_comp_ok
            else raise_error Event.v10_comp_fault p))

unfoldable pub sm_do_check_comp : Port → Port
sm_do_check_comp p =
    let config = p.sm.config_paramlist in
    let real = p.sm.real_paramlist in
    if cycle_too_short config real
    then raise_error Event.cyc_time_fault p
    else (if is_no_check config.inspectionlevel
        then iolink_sm_event p Event.comp_ok
        else (if not (config.vendorid == real.vendorid)
            then raise_error Event.comp_fault p
            else (if config.deviceid == real.deviceid
                then iolink_sm_event p Event.comp_ok
                else (if p.sm.comp_retry == 0
                    then iolink_sm_event p Event.retry_startup
                    else raise_error Event.comp_fault p))))

unfoldable pub sm_dl_read_cnf_read_com_param : ℕ → Port → Port
unfolding sm_dl_read_req
sm_dl_read_cnf_read_com_param addr p =
    if not (addr == pdo)
    then sm_dl_read_req (u8 (addr + 1)) p
    else iolink_sm_event p
        (if p.sm.real_paramlist.revisionid == rev_v10 then Event.v10 else Event.not_v10)

abbrev check_by : State → Port → Port
check_by State.check_comp_v10 p = sm_do_check_comp_v10 p
check_by _ p = sm_do_check_comp p

unfoldable pub sm_dl_read_cnf_check_comp : ℕ → State → Port → Port
unfolding sm_dl_read_req sm_do_check_comp_v10 sm_do_check_comp
sm_dl_read_cnf_check_comp addr state p =
    if not (addr == fid_2) then sm_dl_read_req (u8 (addr + 1)) p else check_by state p

unfoldable pub sm_dl_write_cnf_checkvxy : Port → Port
sm_dl_write_cnf_checkvxy p =
    let config = p.sm.config_paramlist in
    if config.revisionid == 0 || config.revisionid == p.sm.real_paramlist.revisionid
    then iolink_sm_event p Event.revision_ok
    else (if p.sm.comp_retry == 0
        then iolink_sm_event p Event.retry_startup
        else raise_error Event.revision_fault p)

-- The first step: in AUTOCOM the identification is asked for without a device to compare.
abbrev restart_by : SmTargetMode → Port → Port
restart_by SmTargetMode.cfgcom p =
    sm_dl_write_req did_1 (u8 (p.sm.config_paramlist.deviceid / 65536)) p
restart_by SmTargetMode.autocom p = sm_dl_write_req master_cmd device_ident p
restart_by _ p = emit Call.assert_failed p

unfoldable pub sm_dl_write_cnf_restart_dev : ℕ → Port → Port
unfolding sm_dl_write_req sm_dl_read_req
sm_dl_write_cnf_restart_dev addr p =
    let deviceid = p.sm.config_paramlist.deviceid in
    if addr == rev_id
    then restart_by p.sm.config_paramlist.mode p
    else (if addr == did_1
        then sm_dl_write_req did_2 (u8 (deviceid / 256)) p
        else (if addr == did_2
            then sm_dl_write_req did_3 (u8 deviceid) p
            else (if addr == did_3
                then sm_dl_write_req master_cmd device_ident p
                else (if addr == master_cmd then sm_dl_read_req min_cycl p else p))))

unfoldable pub sm_dl_write_cnf_waiton_operate : ℕ → Port → Port
unfolding sm_dl_write_req sm_dl_set_mode_req_operate
sm_dl_write_cnf_waiton_operate addr p =
    if addr == master_cycl
    then sm_dl_write_req master_cmd device_operate p
    else (if addr == master_cmd then sm_dl_set_mode_req_operate p else p)

-- `memcmp` of the two serial numbers, as far as both go.
abbrev pub same_bytes : List ℕ → List ℕ → Bool
same_bytes [] [] = true
same_bytes (x ∷ xs) (y ∷ ys) = x == y && same_bytes xs ys
same_bytes _ _ = false

unfoldable pub sm_check_sernum : Bool → Port → Port
sm_check_sernum sread_ok p =
    let config = p.sm.config_paramlist in
    let real = p.sm.real_paramlist in
    if not (is_identical config.inspectionlevel)
    then iolink_sm_event p Event.ser_num_ok
    else (if not sread_ok || not (same_bytes config.serialnumber real.serialnumber)
        then raise_error Event.ser_num_fault p
        else iolink_sm_event p Event.ser_num_ok)
