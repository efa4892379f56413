-- ===== src/Types/EventCode.antt =====
-- The event codes of `iolink_eventcode_t` (include/ilink/iolink.h) that the master raises.
use iol_hat.Base.{ℕ}

abbrev pub no_event : ℕ
no_event = 0x0000

abbrev pub no_dev : ℕ
no_dev = 0x1800

abbrev pub bad_did : ℕ
bad_did = 0x1803

abbrev pub backup_incon_size : ℕ
backup_incon_size = 0x1809

abbrev pub backup_incon_id : ℕ
backup_incon_id = 0x180A

abbrev pub backup_incon : ℕ
backup_incon = 0x180B

abbrev pub port_status_change : ℕ
port_status_change = 0xFF26

abbrev pub dev_ds_upload_req : ℕ
dev_ds_upload_req = 0xFF91
