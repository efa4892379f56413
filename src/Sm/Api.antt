-- ===== src/Sm/Api.antt =====
-- The functions that other layers call.
use iol_hat.Base.{ℕ}
use iol_hat.Types.{IolinkError, JobType, SmiErrortype}
use iol_hat.Types.Dl.{Status, DlMode}
use iol_hat.Types.Port.{ParameterList, Mhmode}
use iol_hat.Base.{List}
use iol_hat.Sm.State.{Port}
use iol_hat.Sm.Jobs.{Job}

-- A posted job: its type, and what its callback reads.
pub record Posted : Type 0 where
  pub type : JobType
  pub job : Job

unfoldable pub sm_operate : IolinkError × Posted
sm_operate = (IolinkError.none, record { type = JobType.sm_operate_req; job = Job.sm_operate })

-- The values that the function refuses are none of the two enumerations.
unfoldable pub sm_set_port_config_req : ParameterList → IolinkError × Posted
sm_set_port_config_req paramlist = (
  IolinkError.none,
  record { type = JobType.sm_set_port_cfg_req; job = Job.setportcfg_req paramlist },
)

-- The address is the one that was asked for last when the confirmation comes.
unfoldable pub dl_read_cnf : ℕ → Status → Port → Posted
dl_read_cnf value errorinfo p = record {
  type = JobType.dl_read_cnf;
  job = Job.dl_read_cnf p.sm.dl_addr value errorinfo;
}

unfoldable pub dl_write_cnf : Status → Port → Posted
dl_write_cnf errorinfo p = record {
  type = JobType.dl_write_cnf;
  job = Job.dl_write_cnf p.sm.dl_addr errorinfo;
}

unfoldable pub dl_write_devicemode_cnf : Status → DlMode → Posted
dl_write_devicemode_cnf errorinfo devicemode = record {
  type = JobType.dl_write_devmode_cnf;
  job = Job.dl_write_devmode_cnf errorinfo;
}

unfoldable pub dl_mode_ind : Mhmode → Posted
dl_mode_ind realmode = record { type = JobType.dl_mode_ind; job = Job.dl_mode_ind realmode }

unfoldable pub dl_mode_ind_baud : Mhmode → Port → Port
dl_mode_ind_baud Mhmode.com1 p = record p { sm = record p.sm { comrate = Mhmode.com1 } }
dl_mode_ind_baud Mhmode.com2 p = record p { sm = record p.sm { comrate = Mhmode.com2 } }
dl_mode_ind_baud Mhmode.com3 p = record p { sm = record p.sm { comrate = Mhmode.com3 } }
dl_mode_ind_baud _ p = p

unfoldable pub sm_al_read_cnf : ℕ → List ℕ → SmiErrortype → Posted
sm_al_read_cnf len bytes errortype = record {
  type = JobType.al_read_cnf;
  job = Job.al_read_cnf len bytes errortype;
}

unfoldable pub sm_write_master_cycl_cnf : SmiErrortype → Posted
sm_write_master_cycl_cnf errortype = record {
  type = JobType.al_write_cnf;
  job = Job.write_cycl_cnf errortype;
}
