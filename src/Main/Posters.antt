-- ===== src/Main/Posters.antt =====
-- Who posts a job: the type under which a function of ilink/iolink_*.c posts one, and the pool that
-- it has fetched that from.
use iol_hat.Base.{◌≡◌, arith, Option, none, some}
use iol_hat.Types.{JobType}

-- The pools of `iolink_fetch_avail_job` and `iolink_fetch_avail_api_job`.
pub data Pool : Type 0 where
  avail api_avail : Pool

-- The functions of the application layer. `DL_PDInputTransport_ind` posts by
-- `iolink_post_job_pd_event`, which fetches from the internal pool.
unfoldable pub al_pool : JobType → Option Pool
al_pool JobType.al_read_req = some Pool.avail
al_pool JobType.al_write_req = some Pool.avail
al_pool JobType.dl_event_ind = some Pool.avail
al_pool JobType.dl_control_ind = some Pool.avail
al_pool JobType.dl_readparam_cnf = some Pool.avail
al_pool JobType.dl_writeparam_cnf = some Pool.avail
al_pool JobType.dl_isdu_trans_cnf = some Pool.avail
al_pool JobType.pd_event = some Pool.avail
al_pool JobType.al_abort = some Pool.api_avail
al_pool JobType.al_event_rsp = some Pool.avail
al_pool JobType.al_event_req = some Pool.api_avail
al_pool _ = none

-- Those of the configuration manager.
unfoldable pub cm_pool : JobType → Option Pool
cm_pool JobType.sm_port_mode_ind = some Pool.avail
cm_pool JobType.ds_ready = some Pool.avail
cm_pool JobType.ds_change = some Pool.avail
cm_pool JobType.ds_fault = some Pool.avail
cm_pool JobType.smi_masterident = some Pool.api_avail
cm_pool JobType.smi_portconfiguration = some Pool.api_avail
cm_pool JobType.smi_readbackportconfiguration = some Pool.api_avail
cm_pool JobType.smi_portstatus = some Pool.api_avail
cm_pool _ = none

-- Those of data storage, `DS_Init` under the type of `DS_Startup`.
unfoldable pub ds_pool : JobType → Option Pool
ds_pool JobType.al_read_cnf = some Pool.avail
ds_pool JobType.al_write_cnf = some Pool.avail
ds_pool JobType.ds_delete = some Pool.avail
ds_pool JobType.ds_startup = some Pool.avail
ds_pool JobType.ds_upload = some Pool.avail
ds_pool _ = none

-- Those of on-request data.
unfoldable pub ode_pool : JobType → Option Pool
ode_pool JobType.al_read_cnf = some Pool.avail
ode_pool JobType.al_write_cnf = some Pool.avail
ode_pool JobType.od_start = some Pool.avail
ode_pool JobType.od_stop = some Pool.avail
ode_pool JobType.smi_device_read = some Pool.api_avail
ode_pool JobType.smi_device_write = some Pool.api_avail
ode_pool JobType.smi_param_read = some Pool.api_avail
ode_pool JobType.smi_param_write = some Pool.api_avail
ode_pool _ = none

-- Those of system management, and its own confirmations of reads and writes.
unfoldable pub sm_pool : JobType → Option Pool
sm_pool JobType.al_read_cnf = some Pool.avail
sm_pool JobType.al_write_cnf = some Pool.avail
sm_pool JobType.sm_operate_req = some Pool.avail
sm_pool JobType.sm_set_port_cfg_req = some Pool.avail
sm_pool JobType.dl_read_cnf = some Pool.avail
sm_pool JobType.dl_write_cnf = some Pool.avail
sm_pool JobType.dl_write_devmode_cnf = some Pool.avail
sm_pool JobType.dl_mode_ind = some Pool.avail
sm_pool _ = none

-- A function of some layer posts jobs of the type, which it fetches from the pool.
pub data IsPosted (type : JobType) (pool : Pool) : Type 0 where
  al : al_pool type ≡ some pool → IsPosted type pool
  cm : cm_pool type ≡ some pool → IsPosted type pool
  ds : ds_pool type ≡ some pool → IsPosted type pool
  ode : ode_pool type ≡ some pool → IsPosted type pool
  sm : sm_pool type ≡ some pool → IsPosted type pool

abbrev or_else : Option Pool → Option Pool → Option Pool
or_else none o = o
or_else (some pool) o = some pool

-- The pool from which the jobs of a type come, if a function posts any.
unfoldable pub home : JobType → Option Pool
unfolding al_pool cm_pool ds_pool ode_pool sm_pool
home type =
    or_else (al_pool type)
      (or_else (cm_pool type) (or_else (ds_pool type) (or_else (ode_pool type) (sm_pool type))))

-- The layers agree on the pool of a type that more than one of them posts.
pub posted-home : (type : JobType) (pool : Pool) → IsPosted type pool → home type ≡ some pool
unfolding home al_pool cm_pool ds_pool ode_pool sm_pool
posted-home type pool (IsPosted.al e) = ground (arith, e)
posted-home type pool (IsPosted.cm e) = ground (arith, e)
posted-home type pool (IsPosted.ds e) = ground (arith, e)
posted-home type pool (IsPosted.ode e) = ground (arith, e)
posted-home type pool (IsPosted.sm e) = ground (arith, e)
