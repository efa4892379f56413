-- ===== src/Types/SmiError.antt =====
-- The enumerators of `iolink_smi_errortypes_t` that the layers use (include/ilink/iolink.h).
use iol_hat.Base.{ℕ}

abbrev pub no_error : ℕ
no_error = 0x0000

abbrev pub idx_notavail : ℕ
idx_notavail = 0x8011

abbrev pub com_err : ℕ
com_err = 0x1000

abbrev pub argblock_not_supported : ℕ
argblock_not_supported = 0x4001

abbrev pub argblock_inconsistent : ℕ
argblock_inconsistent = 0x4002

abbrev pub dev_not_accessible : ℕ
dev_not_accessible = 0x4003

abbrev pub service_not_supported : ℕ
service_not_supported = 0x4004

abbrev pub dev_not_in_operate : ℕ
dev_not_in_operate = 0x4005

abbrev pub argblock_length_invalid : ℕ
argblock_length_invalid = 0x4034

abbrev pub service_temp_unavailable : ℕ
service_temp_unavailable = 0x4036

abbrev pub app_dev : ℕ
app_dev = 0x8000

abbrev pub i_service_timeout : ℕ
i_service_timeout = 0x1100

abbrev pub m_isdu_checksum : ℕ
m_isdu_checksum = 0x5600

abbrev pub m_isdu_illegal : ℕ
m_isdu_illegal = 0x5700
