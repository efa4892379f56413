-- ===== src/Main/Dispatch.antt =====
-- The `switch` of the main thread on the type of a job.
use iol_hat.Types.{JobType}

-- What becomes of a job: it goes back to one of the two pools, it ends the thread, or it meets the
-- default case with its assertion and goes nowhere.
pub data Fate : Type 0 where
  avail api_avail exits asserts : Fate

unfoldable pub fate : JobType → Fate
fate JobType.pd_event = Fate.avail
fate JobType.sm_operate_req = Fate.avail
fate JobType.sm_set_port_cfg_req = Fate.avail
fate JobType.dl_mode_ind = Fate.avail
fate JobType.dl_read_cnf = Fate.avail
fate JobType.dl_write_cnf = Fate.avail
fate JobType.dl_write_devmode_cnf = Fate.avail
fate JobType.dl_readparam_cnf = Fate.avail
fate JobType.dl_writeparam_cnf = Fate.avail
fate JobType.dl_isdu_trans_cnf = Fate.avail
fate JobType.dl_pdinput_trans_ind = Fate.avail
fate JobType.al_control_cnf = Fate.avail
fate JobType.al_read_req = Fate.avail
fate JobType.al_read_cnf = Fate.avail
fate JobType.al_write_req = Fate.avail
fate JobType.al_write_cnf = Fate.avail
fate JobType.sm_port_mode_ind = Fate.avail
fate JobType.dl_event_ind = Fate.avail
fate JobType.dl_control_ind = Fate.avail
fate JobType.ds_startup = Fate.avail
fate JobType.ds_delete = Fate.avail
fate JobType.ds_init = Fate.avail
fate JobType.ds_upload = Fate.avail
fate JobType.ds_ready = Fate.avail
fate JobType.ds_change = Fate.avail
fate JobType.ds_fault = Fate.avail
fate JobType.od_start = Fate.avail
fate JobType.od_stop = Fate.avail
fate JobType.al_event_rsp = Fate.avail
fate JobType.al_abort = Fate.api_avail
fate JobType.smi_masterident = Fate.api_avail
fate JobType.smi_portconfiguration = Fate.api_avail
fate JobType.smi_readbackportconfiguration = Fate.api_avail
fate JobType.smi_portstatus = Fate.api_avail
fate JobType.smi_device_read = Fate.api_avail
fate JobType.smi_device_write = Fate.api_avail
fate JobType.smi_param_read = Fate.api_avail
fate JobType.smi_param_write = Fate.api_avail
fate JobType.exit = Fate.exits
fate _ = Fate.asserts
