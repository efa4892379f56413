-- ===== src/Cm/Examples.antt =====
-- Runs of the configuration manager on small inputs, and the theorems at such inputs.
use iol_hat.Base.{◌+◌, ◌≡◌, ◌≢◌, refl, false, List, [], ◌∷◌, some, arith, replicate}
use iol_hat.Types.{DsFault, PortStatusInfo, TransmissionRate}
use iol_hat.Types.ArgBlock
use iol_hat.Types.SmiError
use iol_hat.Types.Port.{PortConfigList, ParameterList, Mhmode, SmPortmode}
use iol_hat.Fsm.{iteration, event_loop}
use iol_hat.Ds.State.{Ds, MasterDs, DeviceDs, IndexList, Command}
use iol_hat.Ds.State as DsState
use iol_hat.Cm.State.{State, Event, SmiServiceReq, Block, Call, Port}
use iol_hat.Cm.Actions.{mode_event}
use iol_hat.Cm.Parameters.{no_parameters, portmode_to_target_mode}
use iol_hat.Cm.Table.{iolink_cm_event}
use iol_hat.Cm.Jobs.{Job, callback, run, cm_sm_port_mode_ind_cb}
use iol_hat.Cm.Answers.{answers, all_ignored, jobs-answers}
use iol_hat.Cm.Config.{IsValid, IsInForce, latest, portconfiguration-IsInForce}
use iol_hat.Cm.Config.{portconfiguration_readback}
use iol_hat.Cm.Unknown.{portconfiguration_unknown}
use iol_hat.Cm.Startup.{start_jobs, started_event, starts, start_jobs-run, callback-starts}
use iol_hat.Cm.Startup.{ds_param_manager_waits}
use iol_hat.Cm.Table.{iolink_cm_fsm}
use iol_hat.Cm.Actions.{cm_sm_operate}

abbrev manual : PortConfigList
manual = record {
  portmode = 1;
  validation_backup = 3;
  iq_behavior = 0;
  port_cycle_time = 0;
  vendorid = 333;
  deviceid = 7;
  in_buffer_len = 2;
  out_buffer_len = 2;
}

abbrev strange : PortConfigList
strange = record manual { portmode = 9 }

abbrev config_req : PortConfigList → SmiServiceReq
config_req cfg = record {
  exp_arg_block_id = ArgBlock.void_block;
  arg_block_len = ArgBlock.sizeof_portconfiglist;
  id = ArgBlock.port_cfg_list;
  configlist = cfg;
  result = 0;
}

abbrev readback_req : SmiServiceReq
readback_req = record {
  exp_arg_block_id = ArgBlock.port_cfg_list;
  arg_block_len = ArgBlock.sizeof_void;
  id = ArgBlock.void_block;
  configlist = manual;
  result = 0;
}

abbrev device : ParameterList
device = record no_parameters { vendorid = 333; deviceid = 7; cycletime = 20; revisionid = 17 }

abbrev empty_ds : Ds
empty_ds = record {
  state = DsState.State.check_activation_state;
  fault = DsFault.none;
  ds_enable = false;
  ds_upload = false;
  ds_download = false;
  device_ds = record { cs = 0; size_max = 0; state_property = 0 };
  master_ds = record {
    cs = 0;
    vid = 0;
    did = 0;
    fid = 0;
    valid = false;
    size = 0;
    size_max = 2048;
    pos = 0;
    bytes = [];
  };
  index_list = record { count = 0; pos = 0; entries = [] };
  command = Command.res;
  current_index = 0;
  current_subindex = 0;
  pending_vendorid = 0;
  pending_deviceid = 0;
}

abbrev port_in : State → Port
port_in s = record {
  cm = record { state = s; smi_req = readback_req; cfg_list = manual; ds_fault = DsFault.none };
  port_info = record {
    deviceid = 0;
    vendorid = 0;
    functionid = 0;
    revisionid = 0;
    cycletime = 0;
    port_quality_info = 1;
    port_status_info = PortStatusInfo.deactivated;
    transmission_rate = TransmissionRate.not_detected;
    serialnumber = replicate 16 0;
  };
  port_cnt = 2;
  real_paramlist = device;
  comrate = Mhmode.com2;
  ds = empty_ds;
  out = [];
}

abbrev script : List Job
script =
    Job.smi_portconfiguration (config_req manual)
    ∷ Job.smi_readbackportconfiguration readback_req
    ∷ Job.smi_portstatus readback_req
    ∷ []

jobs-answers_example :
    answers (run script (port_in State.port_deactivated)).out
      + all_ignored script (port_in State.port_deactivated)
    ≡ 3
jobs-answers_example = jobs-answers script (port_in State.port_deactivated)

manual-IsValid : IsValid manual
manual-IsValid = record { portmode = omega arith; validation = omega arith; iq = omega arith }

portconfiguration-IsInForce_example :
    IsInForce
      (port_in State.port_deactivated)
      (callback (Job.smi_portconfiguration (config_req manual)) (port_in State.port_deactivated))
      manual
portconfiguration-IsInForce_example =
    portconfiguration-IsInForce (port_in State.port_deactivated) (config_req manual)
      (λ e. ground arith) refl manual-IsValid

portconfiguration_readback_example :
    latest
      (run
        (Job.smi_portconfiguration (config_req manual)
          ∷ Job.smi_readbackportconfiguration readback_req
          ∷ [])
        (port_in State.port_deactivated)).out
    ≡ some (
        Call.smi_cnf ArgBlock.void_block ArgBlock.sizeof_portconfiglist
          (Block.port_cfg_list manual))
portconfiguration_readback_example =
    portconfiguration_readback (port_in State.port_deactivated) (config_req manual) readback_req
      (λ e. ground arith) refl manual-IsValid refl

strange_event : mode_event strange ≡ Event.unknown
unfolding mode_event
strange_event = refl

-- The port goes on to be started in the mode of the old configuration.
portconfiguration_unknown_example :
    let q = callback (Job.smi_portconfiguration (config_req strange)) (port_in State.port_active) in
    (q.cm.state ≡ State.port_deactivated)
    × (q.cm.cfg_list ≡ manual)
    × (q.port_info.port_status_info ≡ PortStatusInfo.deactivated)
    × (q.out
        ≡ Call.sm_set_port_config_req (record no_parameters { mode = portmode_to_target_mode 1 })
          ∷ Call.ds_delete
          ∷ Call.smi_joberror_ind ArgBlock.void_block ArgBlock.port_cfg_list
              SmiError.argblock_inconsistent
          ∷ Call.od_stop
          ∷ Call.pd_stop
          ∷ [])
portconfiguration_unknown_example =
    portconfiguration_unknown (port_in State.port_active) (config_req strange) (λ e. ground arith)
      refl strange_event (omega arith)

start_jobs-run_example :
    let q = run start_jobs (port_in State.sm_startup) in
    (q.cm.state ≡ State.port_active)
    × (q.out
        ≡ started_event ∷ Call.pd_start ∷ Call.od_start ∷ Call.sm_operate ∷ Call.ds_startup ∷ [])
    × (q.port_info.port_status_info ≡ PortStatusInfo.op)
    × (q.port_info.port_quality_info ≡ 0)
    × (q.port_info.vendorid ≡ 333)
    × (q.port_info.deviceid ≡ 7)
    × (q.port_info.cycletime ≡ 20)
start_jobs-run_example = start_jobs-run (port_in State.sm_startup) refl

operates :
    starts
      (callback (Job.sm_port_mode_ind SmPortmode.operate) (port_in State.waiting_on_operate)).out
    ≢ 0
unfolding callback cm_sm_port_mode_ind_cb iolink_cm_event event_loop iteration iolink_cm_fsm
    cm_sm_operate
operates e = ground arith

callback-starts_example :
    let q = callback (Job.sm_port_mode_ind SmPortmode.operate) (port_in State.waiting_on_operate) in
    (Job.sm_port_mode_ind SmPortmode.operate ≡ Job.sm_port_mode_ind SmPortmode.operate)
    × (State.waiting_on_operate ≡ State.waiting_on_operate)
    × (q.cm.state ≡ State.port_active)
    × (starts q.out ≡ 0 + 1)
callback-starts_example =
    callback-starts (port_in State.waiting_on_operate) (Job.sm_port_mode_ind SmPortmode.operate)
      operates

ds_param_manager_waits_example :
    let q =
      run
        (Job.sm_port_mode_ind SmPortmode.comlost
          ∷ Job.smi_portconfiguration (config_req strange)
          ∷ [])
        (port_in State.ds_param_manager) in
    (q.cm.state ≡ State.ds_param_manager) × (q.cm.cfg_list ≡ manual)
ds_param_manager_waits_example =
    ds_param_manager_waits
      (Job.sm_port_mode_ind SmPortmode.comlost
        ∷ Job.smi_portconfiguration (config_req strange)
        ∷ [])
      (port_in State.ds_param_manager) refl refl
