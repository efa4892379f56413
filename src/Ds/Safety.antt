-- ===== src/Ds/Safety.antt =====
-- The arrays of data storage keep their sizes, every position that is written or read through stays
-- inside them.
use iol_hat.Base.{ℕ, zero, suc, ◌+◌, ◌≤◌, ◌<◌, ◌≡◌, refl, Bool, true, false, List, [], ◌∷◌, arith}
use iol_hat.Base.{◌*◌, ◌++◌, u16, length, length-overwrite, length-set, set, take}
use iol_hat.Fsm.{iteration}
use iol_hat.Fsm.Invariant.{event_loop_inv}
use iol_hat.Ds.State.{State, Event, Entry, IndexList, Ds, Port, max_size}
use iol_hat.Ds.State.{index_list_max_entries}
use iol_hat.Ds.Actions.{ds_delete, ds_todo, ds_ul_fault, ds_dl_fault, ds_fault, ds_off, ds_chk_id}
use iol_hat.Ds.Actions.{ds_chk_mem_size, ds_chk_upload, ds_upload, ds_chk_validity, ds_chk_csum}
use iol_hat.Ds.Actions.{ds_write_param, ds_wait_ds_act, ds_dl_done, ds_readparam, ds_store_data}
use iol_hat.Ds.Actions.{ds_ready, ds_decompose_set, ds_init_dl, ds_reinit, byte_at}
use iol_hat.Ds.Table.{iolink_ds_fsm, machine, iolink_ds_event}
use iol_hat.Ds.Jobs.{Job}
use iol_hat.Ds.ReadDone.{store_parameter, read_index_list, head_bytes}
use iol_hat.Ds.ReadDone.{read_parameter_done}

-- While an upload runs, the position is inside the array.
abbrev pub uploading : State → Bool
uploading State.decompose_il = true
uploading State.read_parameter = true
uploading _ = false

pub record IsSafe (ds : Ds) : Type 0 where
  pub bytes : length ds.master_ds.bytes ≡ max_size
  pub size_max : ds.master_ds.size_max ≡ max_size
  pub size : ds.master_ds.size ≤ max_size
  pub pos : uploading ds.state ≡ true → ds.master_ds.pos ≤ max_size
  pub entries : length ds.index_list.entries ≡ index_list_max_entries
  pub count : ds.index_list.count < index_list_max_entries

iteration-IsSafe :
    (p : Port) (s : State) (e : Event)
    → p.ds.state ≡ s
    → IsSafe p.ds
    → IsSafe (iteration machine p e).0.ds
unfolding iteration iolink_ds_fsm ds_delete ds_todo ds_ul_fault ds_dl_fault ds_fault ds_off
    ds_chk_id ds_chk_mem_size ds_chk_upload ds_upload ds_chk_validity ds_chk_csum ds_write_param
    ds_wait_ds_act ds_dl_done ds_readparam ds_store_data ds_ready ds_decompose_set ds_init_dl
    ds_reinit
iteration-IsSafe p State.ds_ready Event.none q h = ground arith
iteration-IsSafe p State.off Event.none q h = ground arith
iteration-IsSafe p _ _ q h = ground arith

pub event-IsSafe : (p : Port) (e : Event) → IsSafe p.ds → IsSafe (iolink_ds_event p e).ds
unfolding iolink_ds_event
event-IsSafe p e h =
    event_loop_inv machine (λ p e. IsSafe p.ds) (λ p. IsSafe p.ds)
      (λ p e h. iteration-IsSafe p p.ds.state e refl h) (λ p e h. h) 4 p e h

store_parameter-IsSafe :
    (ds : Ds) (len : ℕ) (bytes : List ℕ)
    → len < 256
    → ds.state ≡ State.read_parameter
    → IsSafe ds
    → IsSafe (store_parameter len bytes ds)
unfolding store_parameter
store_parameter-IsSafe ds len bytes h s i = ground (
  arith,
  length-overwrite ds.master_ds.bytes ds.master_ds.pos
      (head_bytes ds.current_index ds.current_subindex len ++ take len bytes),
)

read_index_list_bounds :
    (rounds i pos : ℕ) (bytes : List ℕ) (list : IndexList)
    → i + rounds ≤ index_list_max_entries
    → list.count < index_list_max_entries
    → let list' = read_index_list rounds i pos bytes list in
      (list'.count < index_list_max_entries) × (length list'.entries ≡ length list.entries)
unfolding read_index_list
read_index_list_bounds zero i pos bytes list h k = (k, refl)
read_index_list_bounds (suc rounds) i pos bytes list h k =
    let entry : Entry = record {
      index = u16 (byte_at bytes pos * 256 + byte_at bytes (pos + 1));
      subindex = byte_at bytes (pos + 2);
    } in
    ground (
      arith,
      length-set list.entries i entry,
      read_index_list_bounds rounds (i + 1) (pos + 3) bytes
          (record list { entries = set list.entries i entry }) (omega arith),
    )

pub read_done-IsSafe :
    (p : Port) (len : ℕ) (bytes : List ℕ)
    → len < 256
    → p.ds.state ≡ State.read_parameter
    → IsSafe p.ds
    → IsSafe (read_parameter_done len bytes p.ds)
unfolding read_parameter_done
read_done-IsSafe p len bytes h s i = ground (
  arith,
  store_parameter-IsSafe p.ds len bytes h s i,
  read_index_list_bounds index_list_max_entries 0 0 bytes p.ds.index_list (omega arith) i.count,
)

-- The lengths of answers are bytes.
abbrev pub IsJob : Job → Type 0
IsJob (Job.al_read_cnf len bytes errortype) = len < 256
IsJob _ = Unit {0}

-- The lengths of the answers among jobs are bytes.
abbrev pub AreJobs : List Job → Type 0
AreJobs [] = Unit {0}
AreJobs (j ∷ js) = IsJob j × AreJobs js
