-- ===== src/Cm/Api.antt =====
-- The functions that other layers and the client's requests call: each posts one job.
use iol_hat.Base.{ℕ}
use iol_hat.Types.{IolinkError, ArgBlockId, DsFault, JobType}
use iol_hat.Types.SmiError
use iol_hat.Types.Port.{PortConfigList, SmPortmode}
use iol_hat.Cm.State.{SmiServiceReq}
use iol_hat.Cm.Jobs.{Job}

-- A posted job: its type, and what its callback reads.
pub record Posted : Type 0 where
  pub type : JobType
  pub job : Job

unfoldable pub sm_port_mode_ind : SmPortmode → Posted
sm_port_mode_ind mode = record { type = JobType.sm_port_mode_ind; job = Job.sm_port_mode_ind mode }

unfoldable pub ds_ready : Posted
ds_ready = record { type = JobType.ds_ready; job = Job.ds_ready }

unfoldable pub ds_change : Posted
ds_change = record { type = JobType.ds_change; job = Job.ds_change }

unfoldable pub ds_fault : DsFault → Posted
ds_fault fault = record { type = JobType.ds_fault; job = Job.ds_fault fault }

module _ (exp : ArgBlockId) (len : ℕ) (id : ArgBlockId) (configlist : PortConfigList) where
  -- The job is reused; its `result` is not read.
  unfoldable pub init_and_post_job : JobType → (SmiServiceReq → Job) → IolinkError × Posted
  init_and_post_job type job = (
    IolinkError.none,
    record {
      type = type;
      job = job (record {
        exp_arg_block_id = exp;
        arg_block_len = len;
        id = id;
        configlist = configlist;
        result = SmiError.no_error;
      });
    },
  )

  unfoldable pub cm_smi_master_identification_req : IolinkError × Posted
  cm_smi_master_identification_req =
      init_and_post_job JobType.smi_masterident (λ req. Job.smi_masterident req)

  unfoldable pub cm_smi_port_configuration_req : IolinkError × Posted
  cm_smi_port_configuration_req =
      init_and_post_job JobType.smi_portconfiguration (λ req. Job.smi_portconfiguration req)

  unfoldable pub cm_smi_readback_port_configuration_req : IolinkError × Posted
  cm_smi_readback_port_configuration_req =
      init_and_post_job JobType.smi_readbackportconfiguration
        (λ req. Job.smi_readbackportconfiguration req)

  unfoldable pub cm_smi_port_status_req : IolinkError × Posted
  cm_smi_port_status_req = init_and_post_job JobType.smi_portstatus (λ req. Job.smi_portstatus req)
