-- ===== src/Types/Port.antt =====
-- What the layers know of a port and its device: include/ilink/iolink.h, iolink_types.h and
-- iolink_main.h.
use iol_hat.Base.{ℕ, List}
use iol_hat.Types.{PortStatusInfo, TransmissionRate}

-- `portconfiglist_t`. The packed enumerations come from the client, so they are any bytes.
pub record PortConfigList : Type 0 where
  pub portmode : ℕ
  pub validation_backup : ℕ
  pub iq_behavior : ℕ
  pub port_cycle_time : ℕ
  pub vendorid : ℕ
  pub deviceid : ℕ
  pub in_buffer_len : ℕ
  pub out_buffer_len : ℕ

-- `iolink_sm_target_mode_t`.
pub data SmTargetMode : Type 0 where
  cfgcom autocom inactive di do_ : SmTargetMode

-- `iolink_inspectionlevel_t`.
pub data InspectionLevel : Type 0 where
  no_check type_comp identical : InspectionLevel

-- `iolink_sm_portmode_t`.
pub data SmPortmode : Type 0 where
  inactive di do_ comready operate comlost revision_fault comp_fault sernum_fault : SmPortmode
  cyctime_fault : SmPortmode

-- `iolink_mhmode_t`.
pub data Mhmode : Type 0 where
  inactive com1 com2 com3 comlost estabcom startup preoperate operate : Mhmode

-- `iolink_smp_parameterlist_t`.
pub record ParameterList : Type 0 where
  pub portnumber : ℕ
  pub cycletime : ℕ
  pub mode : SmTargetMode
  pub revisionid : ℕ
  pub inspectionlevel : InspectionLevel
  pub vendorid : ℕ
  pub deviceid : ℕ
  pub functionid : ℕ
  pub serialnumber : List ℕ

-- `iolink_port_info_t`.
pub record PortInfo : Type 0 where
  pub deviceid : ℕ
  pub vendorid : ℕ
  pub functionid : ℕ
  pub revisionid : ℕ
  pub cycletime : ℕ
  pub port_quality_info : ℕ
  pub port_status_info : PortStatusInfo
  pub transmission_rate : TransmissionRate
  pub serialnumber : List ℕ

-- `mhmode_to_transmission_rate` of ilink/iolink_main.c.
unfoldable pub mhmode_to_transmission_rate : Mhmode → TransmissionRate
mhmode_to_transmission_rate Mhmode.com1 = TransmissionRate.com1
mhmode_to_transmission_rate Mhmode.com2 = TransmissionRate.com2
mhmode_to_transmission_rate Mhmode.com3 = TransmissionRate.com3
mhmode_to_transmission_rate _ = TransmissionRate.not_detected
