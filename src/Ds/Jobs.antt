-- ===== src/Ds/Jobs.antt =====
-- The callbacks that the main thread runs for the layer's jobs.
use iol_hat.Base.{ℕ, Bool, true, false, not, ◌||◌, ◌==◌, ltb}
use iol_hat.Base.{if◌then◌else◌, List, [], ◌∷◌, ◌&&◌, replicate}
use iol_hat.Types.{SmiErrortype, DsFault}
use iol_hat.Types.SmiError
use iol_hat.Ds.State.{State, Event, Command, Call, Port, emit}
use iol_hat.Ds.State.{max_size, index_list_max_entries}
use iol_hat.Ds.Requests.{ds_al_read_req, ds_al_write_ds_cmd_req, param_index, subindex_checksum}
use iol_hat.Ds.Actions.{byte_at}
use iol_hat.Ds.Table.{iolink_ds_event}
use iol_hat.Ds.ReadDone.{be32, read_parameter_done}

abbrev pub set_cs : List ℕ → Port → Port
set_cs bytes p = record p {
  ds = record p.ds { device_ds = record p.ds.device_ds { cs = be32 bytes } };
}

abbrev pub failed : SmiErrortype → Bool
failed errortype = not (errortype == SmiError.no_error)

-- An answer that is too short for a checksum.
abbrev pub short_checksum : ℕ → Port → Port
short_checksum len p = if ltb len 4 then iolink_ds_event p Event.com_err else p

-- The `switch` of `ds_read_cnf_cb`. In its last three cases the code goes on after the event for a
-- checksum that is too short.
unfoldable pub on_read : State → ℕ → List ℕ → SmiErrortype → Port → Port
unfolding read_parameter_done
on_read State.check_identity len bytes errortype p =
    if failed errortype || ltb len 4
    then iolink_ds_event p Event.fault_id
    else iolink_ds_event
        (record p {
          ds = record p.ds { device_ds = record p.ds.device_ds { size_max = be32 bytes } };
        })
        Event.passed
on_read State.check_mem_size len bytes errortype p =
    if failed errortype || not (len == 1)
    then iolink_ds_event p Event.fault_size
    else iolink_ds_event
        (record p {
          ds = record p.ds {
            device_ds = record p.ds.device_ds { state_property = byte_at bytes 0 };
          };
        })
        Event.passed
on_read State.read_parameter len bytes errortype p =
    if failed errortype
    then iolink_ds_event p Event.dev_err
    else iolink_ds_event (record p { ds = read_parameter_done len bytes p.ds }) Event.read_done
on_read State.check_upload len bytes errortype p =
    iolink_ds_event (set_cs bytes (short_checksum len p)) Event.no_upload
on_read State.store_data_set len bytes errortype p =
    ds_al_write_ds_cmd_req Command.ul_end (set_cs bytes (short_checksum len p))
on_read State.download_done len bytes errortype p =
    iolink_ds_event (set_cs bytes (short_checksum len p)) Event.ready
on_read _ len bytes errortype p = p

unfoldable pub ds_read_cnf_cb : ℕ → List ℕ → SmiErrortype → Port → Port
unfolding on_read
ds_read_cnf_cb len bytes errortype p =
    if errortype == SmiError.com_err
    then iolink_ds_event p Event.com_err
    else on_read p.ds.state len bytes errortype p

-- The data set that was uploaded becomes valid, for the device that was configured.
abbrev pub commit : Port → Port
commit p = record p {
  ds = record p.ds {
    master_ds = record p.ds.master_ds {
      vid = p.ds.pending_vendorid;
      did = p.ds.pending_deviceid;
      cs = p.ds.device_ds.cs;
      valid = true;
    };
  };
}

unfoldable pub on_write : State → Port → Port
on_write State.check_upload p = iolink_ds_event p Event.do_upload
on_write State.check_ds_validity p = iolink_ds_event p Event.do_upload
on_write State.write_parameter p = iolink_ds_event p Event.wr_done
on_write State.store_data_set p = iolink_ds_event (commit p) Event.ul_done
on_write State.decompose_set p = iolink_ds_event p Event.download
on_write State.download_done p = ds_al_read_req param_index subindex_checksum p
on_write State.ds_fault p = iolink_ds_event (emit (Call.ds_fault p.ds.fault) p) Event.fault_done
on_write _ p = p

unfoldable pub ds_write_cnf_cb : SmiErrortype → Port → Port
unfolding on_write
ds_write_cnf_cb errortype p =
    if failed errortype then iolink_ds_event p Event.com_err else on_write p.ds.state p

unfoldable pub ds_startup_cb : Port → Port
ds_startup_cb p = iolink_ds_event p Event.startup

unfoldable pub ds_delete_cb : Port → Port
ds_delete_cb p = iolink_ds_event p Event.delete

unfoldable pub ds_upload_cb : Port → Port
ds_upload_cb p = iolink_ds_event p Event.upload

-- What the layer reads of a `portconfiglist_t`; mode and validation are the client's bytes.
pub record Config : Type 0 where
  pub portmode : ℕ
  pub validation_backup : ℕ
  pub vendorid : ℕ
  pub deviceid : ℕ

-- `IOLINK_PORTMODE_IOL_MAN`, `IOLINK_VALIDATION_CHECK_V11_BAK_RESTORE` and
-- `IOLINK_VALIDATION_CHECK_V11_RESTORE`.
abbrev pub iol_man : ℕ
iol_man = 1

abbrev pub bak_restore : ℕ
bak_restore = 3

abbrev pub restore : ℕ
restore = 4

-- `ds_enable` is set, and stays set when neither backup nor restore is configured.
unfoldable pub ds_init_cb : Config → Port → Port
ds_init_cb cfg p =
    let man = cfg.portmode == iol_man in
    let both = man && cfg.validation_backup == bak_restore in
    let down = both || man && cfg.validation_backup == restore in
    iolink_ds_event
      (record p {
        ds = record p.ds {
          ds_upload = both;
          ds_download = down;
          ds_enable = p.ds.ds_enable || down;
          fault = DsFault.none;
          pending_vendorid = cfg.vendorid;
          pending_deviceid = cfg.deviceid;
        };
      })
      Event.init

-- What a posted job carries, by its callback.
pub data Job : Type 0 where
  startup delete upload : Job
  init : Config → Job
  al_read_cnf : (data_len : ℕ) (bytes : List ℕ) (errortype : SmiErrortype) → Job
  al_write_cnf : SmiErrortype → Job

unfoldable pub callback : Job → Port → Port
unfolding ds_startup_cb ds_delete_cb ds_upload_cb ds_init_cb ds_read_cnf_cb ds_write_cnf_cb
callback Job.startup p = ds_startup_cb p
callback Job.delete p = ds_delete_cb p
callback Job.upload p = ds_upload_cb p
callback (Job.init cfg) p = ds_init_cb cfg p
callback (Job.al_read_cnf len bytes errortype) p = ds_read_cnf_cb len bytes errortype p
callback (Job.al_write_cnf errortype) p = ds_write_cnf_cb errortype p

unfoldable pub run : List Job → Port → Port
run [] p = p
run (j ∷ js) p = run js (callback j p)

-- `iolink_ds_init`: all of the state is cleared but `size_max`.
unfoldable pub iolink_ds_init : Port → Port
iolink_ds_init p = record p {
  ds = record {
    state = State.check_activation_state;
    fault = DsFault.none;
    ds_enable = false;
    ds_upload = false;
    ds_download = false;
    device_ds = record { cs = 0; size_max = 0; state_property = 0 };
    master_ds = record {
      cs = 0;
      vid = 0;
      did = 0;
      fid = 0;
      valid = false;
      size = 0;
      size_max = max_size;
      pos = 0;
      bytes = replicate max_size 0;
    };
    index_list = record {
      count = 0;
      pos = 0;
      entries = replicate index_list_max_entries (record { index = 0; subindex = 0 });
    };
    command = Command.res;
    current_index = 0;
    current_subindex = 0;
    pending_vendorid = 0;
    pending_deviceid = 0;
  };
}
