-- ===== src/Ds/SafeJobs.antt =====
-- The callbacks of data storage, and the requests of its client, keep the state safe.
use iol_hat.Base.{ℕ, ◌<◌, ◌≡◌, refl, Bool, true, false, List, [], ◌∷◌, arith}
use iol_hat.Base.{length-overwrite, length-replicate, take}
use iol_hat.Types.{SmiErrortype}
use iol_hat.Ds.State.{State, Event, Entry, Ds, DeviceDs, Command, Call, Port, max_size, emit}
use iol_hat.Ds.State.{index_list_max_entries}
use iol_hat.Ds.Actions.{byte_at}
use iol_hat.Ds.Jobs.{Job, callback, run}
use iol_hat.Ds.Jobs.{iolink_ds_init, on_read, on_write, short_checksum, set_cs}
use iol_hat.Ds.Jobs.{failed, commit, ds_init_cb, ds_read_cnf_cb, ds_write_cnf_cb}
use iol_hat.Ds.ReadDone.{be32}
use iol_hat.Ds.Jobs.{ds_startup_cb, ds_delete_cb, ds_upload_cb}
use iol_hat.Ds.Requests.{ds_al_write_ds_cmd_req, ds_al_read_req}
use iol_hat.Base.{◌||◌, not, ◌==◌, ltb, if◌then◌else◌}
use iol_hat.Types.{ArgBlockId}
use iol_hat.Types.SmiError
use iol_hat.Ds.Api.{ArgBlockDsData, ds_data_len, ds_smi_par_serv_to_ds_req}
use iol_hat.Ds.Requests.{param_index, subindex_checksum}
use iol_hat.Ds.Safety.{IsSafe, event-IsSafe, read_done-IsSafe, IsJob, AreJobs}

-- What the callbacks change beside the master's data keeps the state safe.
device-IsSafe : (ds : Ds) (d : DeviceDs) → IsSafe ds → IsSafe (record ds { device_ds = d })
device-IsSafe ds d i = record {
  bytes = i.bytes;
  size_max = i.size_max;
  size = i.size;
  pos = i.pos;
  entries = i.entries;
  count = i.count;
}

commit-IsSafe : (p : Port) → IsSafe p.ds → IsSafe (commit p).ds
commit-IsSafe p i = ground arith

write_req-IsSafe :
    (cmd : Command) (p : Port) → IsSafe p.ds → IsSafe (ds_al_write_ds_cmd_req cmd p).ds
write_req-IsSafe cmd p i = ground arith

read_req-IsSafe :
    (index subindex : ℕ) (p : Port) → IsSafe p.ds → IsSafe (ds_al_read_req index subindex p).ds
read_req-IsSafe index subindex p i = ground arith

short_checksum-IsSafe : (len : ℕ) (p : Port) → IsSafe p.ds → IsSafe (short_checksum len p).ds
short_checksum-IsSafe len p i = ground (arith, event-IsSafe p Event.com_err i)

set_cs-IsSafe :
    (len : ℕ) (bytes : List ℕ) (p : Port)
    → IsSafe p.ds
    → IsSafe (set_cs bytes (short_checksum len p)).ds
set_cs-IsSafe len bytes p i =
    let q = short_checksum len p in
    device-IsSafe q.ds (record q.ds.device_ds { cs = be32 bytes }) (short_checksum-IsSafe len p i)

branches-IsSafe :
    (b : Bool) (p q : Port) → IsSafe p.ds → IsSafe q.ds → IsSafe (if b then p else q).ds
branches-IsSafe true p q h k = h
branches-IsSafe false p q h k = k

on_read-IsSafe :
    (p : Port) (s : State) (len : ℕ) (bytes : List ℕ) (errortype : SmiErrortype)
    → p.ds.state ≡ s
    → len < 256
    → IsSafe p.ds
    → IsSafe (on_read s len bytes errortype p).ds
unfolding on_read
on_read-IsSafe p State.check_identity len bytes errortype q h i =
    branches-IsSafe (failed errortype || ltb len 4) _ _ (event-IsSafe p Event.fault_id i) (
      event-IsSafe _ Event.passed
        (device-IsSafe p.ds (record p.ds.device_ds { size_max = be32 bytes }) i))
on_read-IsSafe p State.check_mem_size len bytes errortype q h i =
    branches-IsSafe (failed errortype || not (len == 1)) _ _ (event-IsSafe p Event.fault_size i) (
      event-IsSafe _ Event.passed
        (device-IsSafe p.ds (record p.ds.device_ds { state_property = byte_at bytes 0 }) i))
on_read-IsSafe p State.read_parameter len bytes errortype q h i =
    branches-IsSafe (failed errortype) _ _ (event-IsSafe p Event.dev_err i)
      (event-IsSafe _ Event.read_done (read_done-IsSafe p len bytes h q i))
on_read-IsSafe p State.check_upload len bytes errortype q h i =
    event-IsSafe (set_cs bytes (short_checksum len p)) Event.no_upload (set_cs-IsSafe len bytes p i)
on_read-IsSafe p State.store_data_set len bytes errortype q h i =
    write_req-IsSafe Command.ul_end (set_cs bytes (short_checksum len p))
      (set_cs-IsSafe len bytes p i)
on_read-IsSafe p State.download_done len bytes errortype q h i =
    event-IsSafe (set_cs bytes (short_checksum len p)) Event.ready (set_cs-IsSafe len bytes p i)
on_read-IsSafe p _ len bytes errortype q h i = i

on_write-IsSafe : (p : Port) (s : State) → IsSafe p.ds → IsSafe (on_write s p).ds
unfolding on_write
on_write-IsSafe p State.check_upload i = event-IsSafe p Event.do_upload i
on_write-IsSafe p State.check_ds_validity i = event-IsSafe p Event.do_upload i
on_write-IsSafe p State.write_parameter i = event-IsSafe p Event.wr_done i
on_write-IsSafe p State.store_data_set i = event-IsSafe (commit p) Event.ul_done (commit-IsSafe p i)
on_write-IsSafe p State.decompose_set i = event-IsSafe p Event.download i
on_write-IsSafe p State.download_done i = read_req-IsSafe param_index subindex_checksum p i
on_write-IsSafe p State.ds_fault i =
    event-IsSafe (emit (Call.ds_fault p.ds.fault) p) Event.fault_done i
on_write-IsSafe p _ i = i

pub callback-IsSafe : (j : Job) (p : Port) → IsJob j → IsSafe p.ds → IsSafe (callback j p).ds
unfolding callback ds_startup_cb ds_delete_cb ds_upload_cb ds_init_cb ds_read_cnf_cb ds_write_cnf_cb
callback-IsSafe Job.startup p h i = event-IsSafe p Event.startup i
callback-IsSafe Job.delete p h i = event-IsSafe p Event.delete i
callback-IsSafe Job.upload p h i = event-IsSafe p Event.upload i
callback-IsSafe (Job.init cfg) p h i = event-IsSafe _ Event.init (record {
  bytes = i.bytes;
  size_max = i.size_max;
  size = i.size;
  pos = i.pos;
  entries = i.entries;
  count = i.count;
})
callback-IsSafe (Job.al_read_cnf len bytes errortype) p h i =
    branches-IsSafe (errortype == SmiError.com_err) _ _ (event-IsSafe p Event.com_err i)
      (on_read-IsSafe p p.ds.state len bytes errortype refl h i)
callback-IsSafe (Job.al_write_cnf errortype) p h i =
    branches-IsSafe (failed errortype) _ _ (event-IsSafe p Event.com_err i)
      (on_write-IsSafe p p.ds.state i)

-- Whatever jobs are worked off, if the lengths that answers carry are bytes, the data array and the
-- index list keep their sizes (2048 bytes and 70 entries), the size of the stored data is at most
-- 2048, the count of the list stays below 70, and while an upload is in progress the write position
-- is at most 2048.
pub run-IsSafe : (js : List Job) (p : Port) → AreJobs js → IsSafe p.ds → IsSafe (run js p).ds
unfolding run
run-IsSafe [] p h i = i
run-IsSafe (j ∷ js) p h i = run-IsSafe js (callback j p) h.1 (callback-IsSafe j p h.0 i)

pub init-IsSafe : (p : Port) → IsSafe (iolink_ds_init p).ds
unfolding iolink_ds_init
init-IsSafe p =
    let entry : Entry = record { index = 0; subindex = 0 } in
    record {
      bytes = length-replicate {A = ℕ} max_size 0;
      size_max = refl;
      size = omega arith;
      pos = λ h. omega arith;
      entries = length-replicate index_list_max_entries entry;
      count = omega arith;
    }

-- A client's store request keeps the state safe, when an upload does not run.
pub par_serv-IsSafe :
    (exp : ArgBlockId) (len : ℕ) (block : ArgBlockDsData) (p : Port)
    → IsSafe p.ds
    → IsSafe (ds_smi_par_serv_to_ds_req exp len block p).0.ds
unfolding ds_smi_par_serv_to_ds_req
par_serv-IsSafe exp len block p i =
    ground (arith, length-overwrite p.ds.master_ds.bytes 0 (take (ds_data_len len) block.ds_data))
