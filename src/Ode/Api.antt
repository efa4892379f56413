-- ===== src/Ode/Api.antt =====
-- The functions that other layers and the client's requests call: each posts one job.
use iol_hat.Base.{ℕ, Option, none, some, ◌==◌, if◌then◌else◌}
use iol_hat.Types.{IolinkError, ArgBlockId, JobType}
use iol_hat.Types.ArgBlock
use iol_hat.Types.SmiError
use iol_hat.Ode.State.{ArgBlockOd}
use iol_hat.Ode.Jobs.{Job}

-- A posted job: its type, by which the main thread chooses the pool that it goes back to, and what
-- the callback reads.
pub record Posted : Type 0 where
  pub type : JobType
  pub job : Job

abbrev pub Posting : Type 0
Posting = IolinkError × Option Posted

unfoldable pub od_start : Posting
od_start = (IolinkError.none, some (record { type = JobType.od_start; job = Job.od_start }))

unfoldable pub od_stop : Posting
od_stop = (IolinkError.none, some (record { type = JobType.od_stop; job = Job.od_stop }))

module _ (exp : ArgBlockId) (len : ℕ) (block : ArgBlockOd) where
  -- The job is reused, so its `result` is what it was: `SMI_rw_req_cb` does not read it.
  unfoldable pub ode_smi_rw_req : JobType → Posting
  ode_smi_rw_req type = (
    IolinkError.none,
    some (record {
      type = type;
      job = Job.smi_rw_req (record {
        exp_arg_block_id = exp;
        arg_block_len = len;
        arg_block = block;
        result = SmiError.no_error;
      });
    }),
  )

  unfoldable pub ode_smi_device_read_write_req : ArgBlockId → JobType → Posting
  unfolding ode_smi_rw_req
  ode_smi_device_read_write_req od_or_void type =
      if exp == od_or_void then ode_smi_rw_req type else (IolinkError.parameter_conflict, none)

  unfoldable pub ode_smi_device_read_req : Posting
  unfolding ode_smi_device_read_write_req
  ode_smi_device_read_req = ode_smi_device_read_write_req ArgBlock.od_rd JobType.smi_device_read

  unfoldable pub ode_smi_device_write_req : Posting
  unfolding ode_smi_device_read_write_req
  ode_smi_device_write_req =
      ode_smi_device_read_write_req ArgBlock.void_block JobType.smi_device_write

  unfoldable pub ode_smi_param_read_batch_req : Posting
  unfolding ode_smi_rw_req
  ode_smi_param_read_batch_req = ode_smi_rw_req JobType.smi_param_read

  unfoldable pub ode_smi_param_write_batch_req : Posting
  unfolding ode_smi_rw_req
  ode_smi_param_write_batch_req = ode_smi_rw_req JobType.smi_param_write
