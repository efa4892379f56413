-- ===== src/Sm/Jobs.antt =====
-- The callbacks that the main thread runs for the layer's jobs.
use iol_hat.Base.{ℕ, ◌==◌, ltb, if◌then◌else◌, Bool, true, false, not, ◌||◌}
use iol_hat.Base.{List, [], ◌∷◌, get_or, take, overwrite, replicate}
use iol_hat.Types.{SmiErrortype}
use iol_hat.Types.SmiError
use iol_hat.Types.Dl.{Status}
use iol_hat.Types.Port.{ParameterList, SmTargetMode, Mhmode, SmPortmode}
use iol_hat.Sm.State.{State, Event, Call, Port, emit}
use iol_hat.Sm.Params.{dummy_wurq}
use iol_hat.Sm.Params.{rev_v10, rev_v11}
use iol_hat.Sm.Requests.{sm_dl_set_mode_req_preop, sm_dl_set_mode_req_operate}
use iol_hat.Sm.Table.{iolink_sm_event}
use iol_hat.Sm.DeviceData.{set_sm, set_real, store_parameter}
use iol_hat.Sm.Checks.{sm_check_sernum, sm_dl_read_cnf_read_com_param, sm_dl_read_cnf_check_comp}
use iol_hat.Sm.Checks.{sm_dl_write_cnf_checkvxy, sm_dl_write_cnf_restart_dev}
use iol_hat.Sm.Checks.{sm_dl_write_cnf_waiton_operate}

-- What a posted job carries, by its callback.
pub data Job : Type 0 where
  write_cycl_cnf : (errortype : SmiErrortype) → Job
  al_read_cnf : (data_len : ℕ) (bytes : List ℕ) (errortype : SmiErrortype) → Job
  dl_mode_ind : (realmode : Mhmode) → Job
  sm_operate : Job
  setportcfg_req : (paramlist : ParameterList) → Job
  dl_read_cnf : (addr val : ℕ) (stat : Status) → Job
  dl_write_cnf : (addr : ℕ) (stat : Status) → Job
  dl_write_devmode_cnf : (errorinfo : Status) → Job

unfoldable pub sm_write_cycl_cnf_cb : SmiErrortype → Port → Port
sm_write_cycl_cnf_cb errortype p = iolink_sm_event p (
    if not (errortype == SmiError.no_error)
    then Event.cnf_comlost
    else Event.write_master_cycl_done)

-- The port with the serial number that was read.
abbrev pub read_sernum : ℕ → List ℕ → Port → Port
read_sernum len bytes p =
    set_real
      (record p.sm.real_paramlist { serialnumber = overwrite (replicate 16 0) 0 (take len bytes) })
      p

unfoldable pub sm_al_read_cnf_cb : ℕ → List ℕ → SmiErrortype → Port → Port
sm_al_read_cnf_cb data_len bytes errortype p =
    if errortype == SmiError.idx_notavail
    then sm_check_sernum true (read_sernum 0 [] p)
    else (if not (errortype == SmiError.no_error)
        then iolink_sm_event p (
            if p.sm.real_paramlist.revisionid == rev_v11
            then Event.cnf_comlost
            else Event.dl_mode_comlost)
        else (if ltb 16 data_len
            then iolink_sm_event p Event.cnf_comlost
            else sm_check_sernum true (read_sernum data_len bytes p)))

abbrev is_inactive : SmTargetMode → Bool
is_inactive SmTargetMode.inactive = true
is_inactive _ = false

unfoldable pub sm_dl_mode_ind_cb_inactive : Mhmode → Port → Port
sm_dl_mode_ind_cb_inactive Mhmode.startup p = iolink_sm_event p Event.dl_mode_startup
sm_dl_mode_ind_cb_inactive Mhmode.inactive p =
    emit
      (Call.sm_port_mode_ind (
        if is_inactive p.sm.config_paramlist.mode then SmPortmode.inactive else SmPortmode.comlost))
      p
sm_dl_mode_ind_cb_inactive _ p = p

unfoldable pub sm_dl_mode_ind_cb_preop : Mhmode → Port → Port
sm_dl_mode_ind_cb_preop Mhmode.preoperate p = iolink_sm_event p Event.dl_mode_preoperate
sm_dl_mode_ind_cb_preop _ p = p

unfoldable pub sm_dl_mode_ind_cb_operate : Mhmode → Port → Port
sm_dl_mode_ind_cb_operate Mhmode.operate p = iolink_sm_event p Event.dl_mode_operate
sm_dl_mode_ind_cb_operate _ p = p

-- The rate of the communication, or the mode of the message handler.
abbrev pub note_mode : Mhmode → Port → Port
note_mode Mhmode.com1 p = set_sm (record p.sm { comrate = Mhmode.com1 }) p
note_mode Mhmode.com2 p = set_sm (record p.sm { comrate = Mhmode.com2 }) p
note_mode Mhmode.com3 p = set_sm (record p.sm { comrate = Mhmode.com3 }) p
note_mode m p = set_sm (record p.sm { mh_mode = m }) p

abbrev pub comlost_by : State → Port → Port
comlost_by State.port_inactive p = p
comlost_by State.dido p = p
comlost_by _ p = iolink_sm_event p Event.dl_mode_comlost

abbrev pub mode_by : State → Mhmode → Port → Port
unfolding sm_dl_mode_ind_cb_inactive sm_dl_mode_ind_cb_preop sm_dl_mode_ind_cb_operate
mode_by State.port_inactive m p = sm_dl_mode_ind_cb_inactive m p
mode_by State.waiton_dl_preoperate m p = sm_dl_mode_ind_cb_preop m p
mode_by State.sm_operate m p = sm_dl_mode_ind_cb_operate m p
mode_by State.waiton_dl_operate m p = sm_dl_mode_ind_cb_operate m p
mode_by State.inspection_fault m p = p
mode_by _ m p = iolink_sm_event p Event.dl_mode_comlost

abbrev pub mode_told : Mhmode → Port → Port
unfolding sm_dl_mode_ind_cb_inactive sm_dl_mode_ind_cb_preop sm_dl_mode_ind_cb_operate
mode_told Mhmode.comlost p = comlost_by p.sm.state p
mode_told m p = mode_by p.sm.state m p

unfoldable pub sm_dl_mode_ind_cb : Mhmode → Port → Port
unfolding sm_dl_mode_ind_cb_inactive sm_dl_mode_ind_cb_preop sm_dl_mode_ind_cb_operate
sm_dl_mode_ind_cb realmode p = mode_told realmode (note_mode realmode p)

unfoldable pub sm_operate_cb : Port → Port
sm_operate_cb p =
    let real = p.sm.real_paramlist in
    iolink_sm_event p (
      if not (real.revisionid == rev_v10) || not (real.vendorid == 0x014E)
      then Event.write_master_cycl_req
      else Event.sm_operate_v10)

abbrev allows_setportcfg : State → Bool
allows_setportcfg State.port_inactive = true
allows_setportcfg State.wait = true
allows_setportcfg State.sm_operate = true
allows_setportcfg State.inspection_fault = true
allows_setportcfg State.dido = true
allows_setportcfg State.check_ser_num = true
allows_setportcfg _ = false

abbrev setportcfg_event : SmTargetMode → Event
setportcfg_event SmTargetMode.cfgcom = Event.sm_set_port_config_cfgcom_or_autocom
setportcfg_event SmTargetMode.autocom = Event.sm_set_port_config_cfgcom_or_autocom
setportcfg_event SmTargetMode.di = Event.sm_set_port_config_di_or_do
setportcfg_event SmTargetMode.do_ = Event.sm_set_port_config_di_or_do
setportcfg_event SmTargetMode.inactive = Event.sm_set_port_config_inactive

-- A serial number that was configured before stays.
abbrev pub stored_config : ParameterList → ParameterList → ParameterList
stored_config old new =
    if not (get_or old.serialnumber 0 0 == 0)
    then record new { serialnumber = old.serialnumber }
    else new

unfoldable pub sm_setportcfg_req_cb : ParameterList → Port → Port
sm_setportcfg_req_cb paramlist p =
    if allows_setportcfg p.sm.state
    then iolink_sm_event
        (set_sm (record p.sm { config_paramlist = stored_config p.sm.config_paramlist paramlist })
          p)
        (setportcfg_event paramlist.mode)
    else p

-- What follows a parameter, by the state.
unfoldable pub read_next : State → ℕ → Port → Port
read_next State.read_com_parameter addr p = sm_dl_read_cnf_read_com_param addr p
read_next State.check_comp addr p = sm_dl_read_cnf_check_comp addr State.check_comp p
read_next State.check_comp_v10 addr p = sm_dl_read_cnf_check_comp addr State.check_comp_v10 p
read_next State.restart_device addr p = iolink_sm_event p Event.write_done
read_next _ addr p = emit Call.assert_failed p

unfoldable pub sm_dl_read_cnf_cb : ℕ → ℕ → Status → Port → Port
unfolding store_parameter read_next
sm_dl_read_cnf_cb addr val Status.no_error p =
    if addr == dummy_wurq then p else read_next p.sm.state addr (store_parameter addr val p)
sm_dl_read_cnf_cb addr val stat p = iolink_sm_event p Event.cnf_comlost

unfoldable pub written : State → ℕ → Port → Port
written State.waiton_dl_preoperate addr p = sm_dl_set_mode_req_preop p
written State.inspection_fault addr p = iolink_sm_event p p.sm.error_event
written State.check_vxy addr p = sm_dl_write_cnf_checkvxy p
written State.restart_device addr p = sm_dl_write_cnf_restart_dev addr p
written State.waiton_dl_operate addr p = sm_dl_write_cnf_waiton_operate addr p
written _ addr p = emit Call.assert_failed p

unfoldable pub sm_dl_write_cnf_cb : ℕ → Status → Port → Port
unfolding written
sm_dl_write_cnf_cb addr Status.no_error p = written p.sm.state addr p
sm_dl_write_cnf_cb addr stat p = iolink_sm_event p Event.cnf_comlost

abbrev devmode_failed : State → Event
devmode_failed State.wait_devmode_cnf = Event.cnf_comlost
devmode_failed _ = Event.dl_mode_comlost

unfoldable pub devmode_written : State → Port → Port
devmode_written State.wait_devmode_cnf p =
    let q = sm_dl_set_mode_req_operate p in
    iolink_sm_event q
      (if q.sm.real_paramlist.revisionid == rev_v10 then Event.sm_operate_v10 else Event.sm_operate)
devmode_written State.wait_for_fallback p = iolink_sm_event p Event.sm_set_port_config_inactive
devmode_written _ p = iolink_sm_event p Event.dl_mode_comlost

unfoldable pub sm_dl_write_devmode_cnf : Status → Port → Port
unfolding devmode_written
sm_dl_write_devmode_cnf Status.no_error p = devmode_written p.sm.state p
sm_dl_write_devmode_cnf errorinfo p = iolink_sm_event p (devmode_failed p.sm.state)

unfoldable pub callback : Job → Port → Port
callback (Job.write_cycl_cnf errortype) p = sm_write_cycl_cnf_cb errortype p
callback (Job.al_read_cnf data_len bytes errortype) p = sm_al_read_cnf_cb data_len bytes errortype p
callback (Job.dl_mode_ind realmode) p = sm_dl_mode_ind_cb realmode p
callback Job.sm_operate p = sm_operate_cb p
callback (Job.setportcfg_req paramlist) p = sm_setportcfg_req_cb paramlist p
callback (Job.dl_read_cnf addr val stat) p = sm_dl_read_cnf_cb addr val stat p
callback (Job.dl_write_cnf addr stat) p = sm_dl_write_cnf_cb addr stat p
callback (Job.dl_write_devmode_cnf errorinfo) p = sm_dl_write_devmode_cnf errorinfo p

unfoldable pub run : List Job → Port → Port
run [] p = p
run (j ∷ js) p = run js (callback j p)

unfoldable pub iolink_sm_init : Port → Port
iolink_sm_init p = set_sm (record p.sm { state = State.port_inactive; dl_addr = dummy_wurq }) p
