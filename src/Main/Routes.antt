-- ===== src/Main/Routes.antt =====
-- The types under which the modelled layers post their jobs, and the pools that these go back to.
use iol_hat.Base.{ℕ, ◌≡◌, refl, arith, Option, some, none, ◌==◌, if◌then◌else◌}
use iol_hat.Types.{ArgBlockId, DsFault}
use iol_hat.Types.ArgBlock
use iol_hat.Types.Port.{PortConfigList, SmPortmode}
use iol_hat.Main.Dispatch.{Fate, fate}
use iol_hat.Ds.Jobs.{Config}
use iol_hat.Ds.Api as Ds
use iol_hat.Ode.State.{ArgBlockOd}
use iol_hat.Ode.Api as Ode
use iol_hat.Cm.Api as Cm

-- The pool of the posted job, if one was posted.
abbrev pub pool : Option Ode.Posted → Option Fate
pool none = none
pool (some posted) = some (fate posted.type)

-- A job that one layer posts for another goes back to the internal pool.
pub record IsInternal (cfg : Config) (mode : SmPortmode) (fault : DsFault) : Type 0 where
  pub delete : fate Ds.ds_delete.1.type ≡ Fate.avail
  pub startup : fate Ds.ds_startup.1.type ≡ Fate.avail
  pub upload : fate Ds.ds_upload.1.type ≡ Fate.avail
  pub init : fate (Ds.ds_init cfg).1.type ≡ Fate.avail
  pub od_start : pool Ode.od_start.1 ≡ some Fate.avail
  pub od_stop : pool Ode.od_stop.1 ≡ some Fate.avail
  pub port_mode : fate (Cm.sm_port_mode_ind mode).type ≡ Fate.avail
  pub ready : fate Cm.ds_ready.type ≡ Fate.avail
  pub change : fate Cm.ds_change.type ≡ Fate.avail
  pub faulted : fate (Cm.ds_fault fault).type ≡ Fate.avail

-- Every job that data storage, on-request data and the configuration manager are asked for by
-- another layer is posted under a type that the main thread gives back to the internal pool, from
-- which the layers fetch it.
pub posted-IsInternal :
    (cfg : Config) (mode : SmPortmode) (fault : DsFault) → IsInternal cfg mode fault
unfolding fate Ds.ds_delete Ds.ds_startup Ds.ds_upload Ds.ds_init Ode.od_start Ode.od_stop
    Cm.sm_port_mode_ind Cm.ds_ready Cm.ds_change Cm.ds_fault
posted-IsInternal cfg mode fault = record {
  delete = refl;
  startup = refl;
  upload = refl;
  init = refl;
  od_start = refl;
  od_stop = refl;
  port_mode = refl;
  ready = refl;
  change = refl;
  faulted = refl;
}

-- A job for a client's request goes back to the external pool.
pub record IsExternal (exp : ArgBlockId) (len : ℕ) (block : ArgBlockOd) (id : ArgBlockId)
    (cfg : PortConfigList) : Type 0 where
  pub read :
      pool (Ode.ode_smi_device_read_req exp len block).1
      ≡ (if exp == ArgBlock.od_rd then some Fate.api_avail else none)
  pub write :
      pool (Ode.ode_smi_device_write_req exp len block).1
      ≡ (if exp == ArgBlock.void_block then some Fate.api_avail else none)
  pub read_batch : pool (Ode.ode_smi_param_read_batch_req exp len block).1 ≡ some Fate.api_avail
  pub write_batch : pool (Ode.ode_smi_param_write_batch_req exp len block).1 ≡ some Fate.api_avail
  pub identification :
      fate (Cm.cm_smi_master_identification_req exp len id cfg).1.type ≡ Fate.api_avail
  pub configuration : fate (Cm.cm_smi_port_configuration_req exp len id cfg).1.type ≡ Fate.api_avail
  pub readback :
      fate (Cm.cm_smi_readback_port_configuration_req exp len id cfg).1.type ≡ Fate.api_avail
  pub status : fate (Cm.cm_smi_port_status_req exp len id cfg).1.type ≡ Fate.api_avail

-- Every job for a client's request for on-request data or to the configuration manager is posted
-- under a type that the main thread gives back to the external pool, from which it is fetched; a
-- read that does not expect the block of a read, and a write that does not expect a void block, post
-- none.
pub posted-IsExternal :
    (exp : ArgBlockId) (len : ℕ) (block : ArgBlockOd) (id : ArgBlockId) (cfg : PortConfigList)
    → IsExternal exp len block id cfg
unfolding fate Ode.ode_smi_device_read_req Ode.ode_smi_device_write_req
    Ode.ode_smi_param_read_batch_req Ode.ode_smi_param_write_batch_req
    Ode.ode_smi_device_read_write_req Ode.ode_smi_rw_req Cm.init_and_post_job
    Cm.cm_smi_master_identification_req Cm.cm_smi_port_configuration_req
    Cm.cm_smi_readback_port_configuration_req Cm.cm_smi_port_status_req
posted-IsExternal exp len block id cfg = record {
  read = ground arith;
  write = ground arith;
  read_batch = refl;
  write_batch = refl;
  identification = refl;
  configuration = refl;
  readback = refl;
  status = refl;
}
