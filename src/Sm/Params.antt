-- ===== src/Sm/Params.antt =====
-- The addresses of the direct parameter page and the master commands (ilink/iolink_sm.h).
use iol_hat.Base.{ℕ}

abbrev pub master_cmd : ℕ
master_cmd = 0x00

abbrev pub master_cycl : ℕ
master_cycl = 0x01

abbrev pub min_cycl : ℕ
min_cycl = 0x02

abbrev pub mseq_cap : ℕ
mseq_cap = 0x03

abbrev pub rev_id : ℕ
rev_id = 0x04

abbrev pub pdi : ℕ
pdi = 0x05

abbrev pub pdo : ℕ
pdo = 0x06

abbrev pub vid_1 : ℕ
vid_1 = 0x07

abbrev pub vid_2 : ℕ
vid_2 = 0x08

abbrev pub did_1 : ℕ
did_1 = 0x09

abbrev pub did_2 : ℕ
did_2 = 0x0A

abbrev pub did_3 : ℕ
did_3 = 0x0B

abbrev pub fid_1 : ℕ
fid_1 = 0x0C

abbrev pub fid_2 : ℕ
fid_2 = 0x0D

abbrev pub dummy_wurq : ℕ
dummy_wurq = 0xFF

abbrev pub master_ident : ℕ
master_ident = 0x95

abbrev pub device_ident : ℕ
device_ident = 0x96

abbrev pub device_operate : ℕ
device_operate = 0x99

abbrev pub device_preop : ℕ
device_preop = 0x9A

-- `IOL_DEV_PARAMA_SERIAL_NUMBER`.
abbrev pub serial_number : ℕ
serial_number = 0x0015

-- `IOL_DIR_PARAM_REV_V10` and `IOL_DIR_PARAM_REV_V11`, which is also `IOLINK_REVISION_1_1`.
abbrev pub rev_v10 : ℕ
rev_v10 = 0x10

abbrev pub rev_v11 : ℕ
rev_v11 = 0x11
