-- ===== src/Ds/Api.antt =====
-- The functions that other layers and the client's requests call.
use iol_hat.Base.{ℕ, ◌-◌, Bool, true, not, ◌&&◌, ◌||◌, ◌==◌, ltb, if◌then◌else◌}
use iol_hat.Base.{List, take, overwrite, ◌+◌, ◌%◌}
use iol_hat.Types.{IolinkError, ArgBlockId, JobType}
use iol_hat.Types.ArgBlock
use iol_hat.Types.SmiError
use iol_hat.Ds.State.{Call, Ds, Port, emit}
use iol_hat.Ds.Jobs.{Config, Job}

-- A posted job: its type, and what its callback reads.
pub record Posted : Type 0 where
  pub type : JobType
  pub job : Job

abbrev pub Posting : Type 0
Posting = IolinkError × Posted

unfoldable pub ds_delete : Posting
ds_delete = (IolinkError.none, record { type = JobType.ds_delete; job = Job.delete })

unfoldable pub ds_startup : Posting
ds_startup = (IolinkError.none, record { type = JobType.ds_startup; job = Job.startup })

unfoldable pub ds_upload : Posting
ds_upload = (IolinkError.none, record { type = JobType.ds_upload; job = Job.upload })

-- Posted under the type of a startup.
unfoldable pub ds_init : Config → Posting
ds_init cfg = (IolinkError.none, record { type = JobType.ds_startup; job = Job.init cfg })

unfoldable pub ds_chk_cfg : Ds → Config → Bool
ds_chk_cfg ds cfg =
    let m = ds.master_ds in not (m.vid == 0) && m.vid == cfg.vendorid && m.did == cfg.deviceid

-- `arg_block_ds_data_t`, without the checksum, which is not read.
pub record ArgBlockDsData : Type 0 where
  pub id : ArgBlockId
  pub vid : ℕ
  pub did : ℕ
  pub fid : ℕ
  pub ds_data : List ℕ

-- `arg_block_len - sizeof (arg_block_ds_data_t)` in a `uint8_t`.
abbrev pub ds_data_len : ℕ → ℕ
ds_data_len len = (len + 256 - ArgBlock.sizeof_ds_data) % 256

unfoldable pub ds_smi_par_serv_to_ds_req :
    ArgBlockId → ℕ → ArgBlockDsData → Port → Port × IolinkError
ds_smi_par_serv_to_ds_req exp arg_block_len block p =
    let ref = block.id in
    let m = p.ds.master_ds in
    let len = ds_data_len arg_block_len in
    if not (exp == ArgBlock.void_block) || not (ref == ArgBlock.ds_data)
    then (
      emit (Call.smi_joberror_ind exp ref SmiError.argblock_not_supported) p,
      IolinkError.parameter_conflict,
    )
    else (if ltb m.size_max len
        then (
          emit (Call.smi_joberror_ind exp ref SmiError.argblock_inconsistent) p,
          IolinkError.parameter_conflict,
        )
        else (
          emit (Call.smi_voidblock_cnf ref) (record p {
            ds = record p.ds {
              master_ds = record m {
                bytes = overwrite m.bytes 0 (take len block.ds_data);
                cs = 0;
                vid = block.vid;
                did = block.did;
                fid = block.fid;
                valid = true;
                size = len;
              };
            };
          }),
          IolinkError.none,
        ))
