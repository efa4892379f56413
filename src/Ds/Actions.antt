-- ===== src/Ds/Actions.antt =====
-- The actions of the transitions, in the order of ilink/iolink_ds.c.
use iol_hat.Base.{ℕ, ◌+◌, ◌*◌, Bool, false, not, ◌&&◌, ◌||◌, ◌==◌, ltb, leb}
use iol_hat.Base.{if◌then◌else◌, u8, u16, bit_and, List, get_or, take, drop}
use iol_hat.Types.{DsFault}
use iol_hat.Ds.State.{Event, Command, Ds, Call, Port, emit}
use iol_hat.Ds.Requests.{ds_al_read_req, ds_al_write_ds_cmd_req, param_index, subindex_state}
use iol_hat.Ds.Requests.{subindex_size, subindex_checksum, subindex_index_list}

unfoldable pub ds_delete : Port → Event → Port × Event
ds_delete p event = (
  record p {
    ds = record p.ds {
      master_ds = record p.ds.master_ds { vid = 0; did = 0; cs = 0; valid = false; pos = 0 };
    };
  },
  Event.none,
)

unfoldable pub ds_todo : Port → Event → Port × Event
ds_todo p event = (emit Call.assert_failed p, Event.none)

unfoldable pub ds_ul_fault : Port → Event → Port × Event
ds_ul_fault p event = (p, Event.fault_ul)

unfoldable pub ds_dl_fault : Port → Event → Port × Event
ds_dl_fault p event = (p, Event.fault_dl)

-- Report the fault when the device has confirmed the break.
abbrev break_for : DsFault → Port → Port
break_for fault p =
    ds_al_write_ds_cmd_req Command.break (record p { ds = record p.ds { fault = fault } })

unfoldable pub ds_fault : Port → Event → Port × Event
ds_fault p Event.fault_id = (emit (Call.ds_fault DsFault.id) p, Event.fault_done)
ds_fault p Event.fault_size = (emit (Call.ds_fault DsFault.size) p, Event.fault_done)
ds_fault p Event.fault_ul = (break_for DsFault.up p, Event.none)
ds_fault p Event.fault_dl = (break_for DsFault.down p, Event.none)
ds_fault p Event.fault_lock = (
  emit (Call.ds_fault DsFault.lock) (record p { ds = record p.ds { ds_enable = false } }),
  Event.fault_done,
)
ds_fault p _ = (p, Event.none)

unfoldable pub ds_off : Port → Event → Port × Event
ds_off p Event.startup = (emit Call.ds_ready p, Event.none)
ds_off p _ = (p, Event.none)

unfoldable pub ds_check_vid_did : Port → Bool
ds_check_vid_did p =
    p.ds.master_ds.vid == 0 || p.ds.master_ds.vid == p.vendorid && p.ds.master_ds.did == p.deviceid

unfoldable pub ds_chk_id : Port → Event → Port × Event
unfolding ds_check_vid_did
ds_chk_id p event =
    if ds_check_vid_did p
    then (ds_al_read_req param_index subindex_size p, Event.none)
    else (p, Event.fault_id)

unfoldable pub ds_chk_mem_size : Port → Event → Port × Event
ds_chk_mem_size p event =
    if ltb p.ds.master_ds.size_max p.ds.device_ds.size_max
    then (p, Event.fault_size)
    else (ds_al_read_req param_index subindex_state p, Event.none)

-- `DS_STATE_PROPERTY_STATE_LOCKED` under its mask, and `DS_STATE_PROPERTY_UPLOAD_REQ`.
abbrev pub is_locked : Ds → Bool
is_locked ds = bit_and ds.device_ds.state_property 6 == 6

abbrev pub upload_flag : Ds → Bool
upload_flag ds = not (bit_and ds.device_ds.state_property 128 == 0)

unfoldable pub ds_chk_upload : Port → Event → Port × Event
ds_chk_upload p event =
    if is_locked p.ds
    then (p, Event.fault_lock)
    else (if upload_flag p.ds && p.ds.ds_upload
        then (ds_al_write_ds_cmd_req Command.ul_start p, Event.none)
        else (ds_al_read_req param_index subindex_checksum p, Event.none))

-- The next entry of the index list, or the checksum when none is left.
next_entry : Port → Port × Event
next_entry p =
    let list = p.ds.index_list in
    let entry = get_or list.entries list.pos (record { index = 0; subindex = 0 }) in
    if ltb list.pos list.count
    then (
      record p {
        ds = record p.ds {
          current_index = entry.index;
          current_subindex = entry.subindex;
          index_list = record list { pos = u8 (list.pos + 1) };
        };
      },
      Event.more_data,
    )
    else (
      ds_al_read_req param_index subindex_checksum (record p {
        ds = record p.ds { master_ds = record p.ds.master_ds { size = p.ds.master_ds.pos } };
      }),
      Event.store_data,
    )

unfoldable pub ds_upload : Port → Event → Port × Event
unfolding next_entry
ds_upload p Event.do_upload = (
  record p {
    ds = record p.ds {
      master_ds = record p.ds.master_ds { pos = 0 };
      index_list = record p.ds.index_list { pos = 0 };
      current_index = param_index;
      current_subindex = subindex_index_list;
    };
  },
  Event.more_data,
)
ds_upload p Event.read_done = next_entry p
ds_upload p _ = (p, Event.none)

unfoldable pub ds_chk_validity : Port → Event → Port × Event
ds_chk_validity p event =
    if p.ds.master_ds.valid
    then (p, Event.passed)
    else (ds_al_write_ds_cmd_req Command.ul_start p, Event.none)

unfoldable pub ds_chk_csum : Port → Event → Port × Event
ds_chk_csum p event =
    if p.ds.ds_download && not (p.ds.master_ds.cs == p.ds.device_ds.cs)
    then (p, Event.download)
    else (p, Event.ready)

-- A byte of the array `data`. A read past its end, which C leaves undefined, gives 0 here.
abbrev pub byte_at : List ℕ → ℕ → ℕ
byte_at bytes i = get_or bytes i 0

-- The record at `pos` in the stored data, and the position behind it.
unfoldable pub ds_write_param : Port → Event → Port × Event
ds_write_param p event =
    let bytes = p.ds.master_ds.bytes in
    let p0 = p.ds.master_ds.pos in
    let p1 = u16 (p0 + 1) in
    let p2 = u16 (p1 + 1) in
    let p3 = u16 (p2 + 1) in
    let p4 = u16 (p3 + 1) in
    let index = u16 (byte_at bytes p0 * 256 + byte_at bytes p1) in
    let subindex = byte_at bytes p2 in
    let len = byte_at bytes p3 in
    (
      emit (Call.al_write_req index subindex len (take len (drop p4 bytes))) (record p {
        ds = record p.ds {
          master_ds = record p.ds.master_ds { pos = u16 (p4 + len) };
          current_index = param_index;
          current_subindex = subindex;
        };
      }),
      Event.none,
    )

unfoldable pub ds_wait_ds_act : Port → Event → Port × Event
ds_wait_ds_act p event = (p, Event.none)

unfoldable pub ds_dl_done : Port → Event → Port × Event
ds_dl_done p event = (ds_al_write_ds_cmd_req Command.dl_end p, Event.none)

unfoldable pub ds_readparam : Port → Event → Port × Event
ds_readparam p event = (ds_al_read_req p.ds.current_index p.ds.current_subindex p, Event.none)

unfoldable pub ds_store_data : Port → Event → Port × Event
ds_store_data p event = (p, Event.none)

unfoldable pub ds_ready : Port → Event → Port × Event
ds_ready p event = (emit Call.ds_ready p, Event.ready)

-- A download starts at the front of the stored data.
rewind : Port → Event → Port
rewind p Event.download = record p {
  ds = record p.ds { master_ds = record p.ds.master_ds { pos = 0 } };
}
rewind p _ = p

unfoldable pub ds_decompose_set : Port → Event → Port × Event
unfolding rewind
ds_decompose_set p event =
    let q = rewind p event in
    if leb q.ds.master_ds.size q.ds.master_ds.pos then (q, Event.dl_done) else (q, Event.more_data)

unfoldable pub ds_init_dl : Port → Event → Port × Event
ds_init_dl p event = (ds_al_write_ds_cmd_req Command.dl_start p, Event.none)

unfoldable pub ds_reinit : Port → Event → Port × Event
ds_reinit p event = if p.ds.ds_enable then (p, Event.enable) else (p, Event.clr_disa)
