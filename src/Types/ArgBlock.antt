-- ===== src/Types/ArgBlock.antt =====
-- The enumerators of `iolink_arg_block_id_t` that the layers test, and the sizes of the packed
-- argument blocks (include/ilink/iolink.h).
use iol_hat.Base.{ℕ, ◌+◌, ◌*◌}

abbrev pub masterident : ℕ
masterident = 0x0001

abbrev pub pd_in : ℕ
pd_in = 0x1001

abbrev pub pd_out : ℕ
pd_out = 0x1002

abbrev pub pd_in_out : ℕ
pd_in_out = 0x1003

abbrev pub od_wr : ℕ
od_wr = 0x3000

abbrev pub od_rd : ℕ
od_rd = 0x3001

abbrev pub ds_data : ℕ
ds_data = 0x7000

abbrev pub dev_par_bat : ℕ
dev_par_bat = 0x7001

abbrev pub port_index_list : ℕ
port_index_list = 0x7002

abbrev pub port_cfg_list : ℕ
port_cfg_list = 0x8000

abbrev pub port_status_list : ℕ
port_status_list = 0x9000

abbrev pub port_event : ℕ
port_event = 0xA001

abbrev pub void_block : ℕ
void_block = 0xFFF0

abbrev pub job_error : ℕ
job_error = 0xFFFF

-- `sizeof (arg_block_void_t)`: the id alone.
abbrev pub sizeof_void : ℕ
sizeof_void = 2

-- `sizeof (arg_block_od_t)`: id, index and subindex.
abbrev pub sizeof_od : ℕ
sizeof_od = 2 + 2 + 1

-- `sizeof (arg_block_ds_data_t)`: id, checksum, vid, did and fid.
abbrev pub sizeof_ds_data : ℕ
sizeof_ds_data = 2 + 4 + 2 + 4 + 2

-- `sizeof (arg_block_pdin_head_t)`: id, port qualifier and length.
abbrev pub sizeof_pdin_head : ℕ
sizeof_pdin_head = 2 + 1 + 1

-- `sizeof (arg_block_pdout_head_t)`: id, output enable and length.
abbrev pub sizeof_pdout_head : ℕ
sizeof_pdout_head = 2 + 1 + 1

-- `sizeof (arg_block_pdout_t)`: the head and `IOLINK_PD_MAX_SIZE` bytes.
abbrev pub sizeof_pdout : ℕ
sizeof_pdout = sizeof_pdout_head + 32

-- `sizeof (arg_block_pdinout_head_t)`: id, port qualifier and output enable.
abbrev pub sizeof_pdinout_head : ℕ
sizeof_pdinout_head = 2 + 1 + 1

-- `arg_block_masterident_head_t`, with the packed `iolink_master_type_t` in one byte.
abbrev pub sizeof_masterident_head : ℕ
sizeof_masterident_head = 2 + 2 + 4 + 1 + 1 + 1 + 1

-- `iolink_port_types_t` is not packed.
abbrev pub sizeof_port_types : ℕ
sizeof_port_types = 4

-- `arg_block_portconfiglist_t`.
abbrev pub sizeof_portconfiglist : ℕ
sizeof_portconfiglist = 2 + 1 + 1 + 1 + 1 + 2 + 4 + 1 + 1

-- `arg_block_portstatuslist_t`, which ends in a pointer of four bytes.
abbrev pub sizeof_portstatuslist : ℕ
sizeof_portstatuslist = 2 + 1 + 1 + 1 + 1 + 1 + 1 + 2 + 4 + 1 + 4

-- `arg_block_portevent_t`.
abbrev pub sizeof_portevent : ℕ
sizeof_portevent = 2 + 1 + 2

-- `arg_block_devevent_t`: id, count and six entries of a qualifier and a code.
abbrev pub sizeof_devevent : ℕ
sizeof_devevent = 2 + 1 + 6 * (1 + 2)
