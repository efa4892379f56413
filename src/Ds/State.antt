-- ===== src/Ds/State.antt =====
-- The state of the data storage layer, `iolink_ds_port_t`, and what it calls.
use iol_hat.Base.{ℕ, Bool, List, ◌∷◌}
use iol_hat.Types.{ArgBlockId, SmiErrortype, DsFault}

-- `iolink_ds_state_t`.
pub data State : Type 0 where
  check_activation_state waiting_on_ds_activity off : State
  check_identity check_mem_size check_upload check_ds_validity check_checksum : State
  ds_ready ds_fault : State
  decompose_il read_parameter store_data_set upload_fault : State
  decompose_set write_parameter download_done download_fault : State

-- `iolink_fsm_ds_event_t`.
pub data Event : Type 0 where
  none enable startup ready upload fault_done fault_id fault_size fault_ul fault_dl : Event
  fault_lock enable_com clr_disa enable_no_c delete clear disable passed do_upload : Event
  no_upload download more_data read_done store_data ul_done dev_err com_err wr_done : Event
  dl_done init : Event

abbrev pub value : Event → ℕ
value Event.none = 0
value Event.enable = 1
value Event.startup = 2
value Event.ready = 3
value Event.upload = 4
value Event.fault_done = 5
value Event.fault_id = 6
value Event.fault_size = 7
value Event.fault_ul = 8
value Event.fault_dl = 9
value Event.fault_lock = 10
value Event.enable_com = 11
value Event.clr_disa = 12
value Event.enable_no_c = 13
value Event.delete = 14
value Event.clear = 15
value Event.disable = 16
value Event.passed = 17
value Event.do_upload = 18
value Event.no_upload = 19
value Event.download = 20
value Event.more_data = 21
value Event.read_done = 22
value Event.store_data = 23
value Event.ul_done = 24
value Event.dev_err = 25
value Event.com_err = 26
value Event.wr_done = 27
value Event.dl_done = 28
value Event.init = 29

-- `IOLINK_DS_MAX_SIZE`.
abbrev pub max_size : ℕ
max_size = 2048

-- `DS_INDEX_LIST_MAX_ENTRIES`.
abbrev pub index_list_max_entries : ℕ
index_list_max_entries = 70

-- `iolink_ds_command_t`.
pub data Command : Type 0 where
  res ul_start ul_end dl_start dl_end break : Command

abbrev pub command_value : Command → ℕ
command_value Command.res = 0
command_value Command.ul_start = 1
command_value Command.ul_end = 2
command_value Command.dl_start = 3
command_value Command.dl_end = 4
command_value Command.break = 5

-- `ds_index_list_entry_t`.
pub record Entry : Type 0 where
  pub index : ℕ  -- uint16_t
  pub subindex : ℕ  -- uint8_t

-- The `device_ds` of `iolink_ds_port_t`, without its `size`, which nothing reads or writes.
pub record DeviceDs : Type 0 where
  pub cs : ℕ
  pub size_max : ℕ
  pub state_property : ℕ

-- The `master_ds` of `iolink_ds_port_t`.
pub record MasterDs : Type 0 where
  pub cs : ℕ
  pub vid : ℕ
  pub did : ℕ
  pub fid : ℕ
  pub valid : Bool
  pub size : ℕ
  pub size_max : ℕ
  pub pos : ℕ  -- uint16_t
  pub bytes : List ℕ  -- the array `data`

-- The `index_list` of `iolink_ds_port_t`.
pub record IndexList : Type 0 where
  pub count : ℕ
  pub pos : ℕ
  pub entries : List Entry

-- `iolink_ds_port_t`.
pub record Ds : Type 0 where
  pub state : State
  pub fault : DsFault
  pub ds_enable : Bool
  pub ds_upload : Bool
  pub ds_download : Bool
  pub device_ds : DeviceDs
  pub master_ds : MasterDs
  pub index_list : IndexList
  pub command : Command
  pub current_index : ℕ
  pub current_subindex : ℕ
  pub pending_vendorid : ℕ
  pub pending_deviceid : ℕ

-- What the layer calls. A write request comes with the bytes that stand where its pointer points.
pub data Call : Type 0 where
  al_read_req : (index subindex : ℕ) → Call
  al_write_req : (index subindex len : ℕ) (bytes : List ℕ) → Call
  ds_ready : Call
  ds_fault : DsFault → Call
  smi_joberror_ind : (exp ref : ArgBlockId) (errortype : SmiErrortype) → Call
  smi_voidblock_cnf : (ref : ArgBlockId) → Call
  assert_failed : Call

-- The layer's part of `iolink_port_t`, the identity of the connected device in `port_info`, and
-- the calls, the latest first.
pub record Port : Type 0 where
  pub ds : Ds
  pub vendorid : ℕ
  pub deviceid : ℕ
  pub out : List Call

abbrev pub emit : Call → Port → Port
emit c p = record p { out = c ∷ p.out }
