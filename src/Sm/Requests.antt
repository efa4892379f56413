-- ===== src/Sm/Requests.antt =====
-- The requests that system management makes of the layers below it.
use iol_hat.Base.{ℕ, leb, if◌then◌else◌, Bool, true, false, ◌&&◌}
use iol_hat.Types.Dl.{DlMode, MsequenceType, ModeValueList}
use iol_hat.Sm.State.{Call, Port, emit, assert}
use iol_hat.Sm.Params.{min_cycl, fid_2, did_3}
use iol_hat.Sm.ValueList.{set_valuelist, populate_valuelist}

-- What the data link layer returns is only logged.
unfoldable pub sm_dl_read_write_req : ℕ → ℕ → Bool → Port → Port
sm_dl_read_write_req addr value read p =
    let q = record p { sm = record p.sm { dl_addr = addr } } in
    if read
    then emit (Call.dl_read_req addr) (assert (leb min_cycl addr && leb addr fid_2) q)
    else emit (Call.dl_write_req addr value) (assert (leb addr did_3) q)

unfoldable pub sm_dl_read_req : ℕ → Port → Port
unfolding sm_dl_read_write_req
sm_dl_read_req addr p = sm_dl_read_write_req addr 0 true p

unfoldable pub sm_dl_write_req : ℕ → ℕ → Port → Port
unfolding sm_dl_read_write_req
sm_dl_write_req addr value p = sm_dl_read_write_req addr value false p

unfoldable pub sm_dl_write_devicemode_req : DlMode → Port → Port
sm_dl_write_devicemode_req devicemode p = emit (Call.dl_write_devicemode_req devicemode) p

unfoldable pub sm_dl_set_mode_req_startup : Port → Port
unfolding set_valuelist
sm_dl_set_mode_req_startup p =
    emit (Call.dl_set_mode_req DlMode.startup (set_valuelist 1 0 0 0 MsequenceType.type_0)) p

unfoldable pub sm_dl_set_mode_req_inactive : Port → Port
unfolding set_valuelist
sm_dl_set_mode_req_inactive p =
    emit (Call.dl_set_mode_req DlMode.inactive (set_valuelist 0 0 0 0 MsequenceType.none)) p

abbrev is_operate : DlMode → Bool
is_operate DlMode.operate = true
is_operate _ = false

-- A device with interleaved process data has no data storage.
abbrev enabled : MsequenceType → Bool → Bool
enabled MsequenceType.type_1_1 b = false
enabled _ b = b

-- The list for a mode, from what was read of the device.
unfoldable pub device_valuelist : DlMode → Port → ModeValueList × Bool
unfolding populate_valuelist set_valuelist
device_valuelist mode p =
    (populate_valuelist p.sm.dev_com.mseq_cap p.sm.real_paramlist.revisionid p.sm.dev_com.pdi
      p.sm.dev_com.pdo p.sm.real_paramlist.cycletime (is_operate mode)
      (set_valuelist 1 0 0 0 MsequenceType.type_0)).0

unfoldable pub sm_dl_set_mode_req_preop_op : DlMode → Port → Port
unfolding device_valuelist
sm_dl_set_mode_req_preop_op mode p =
    let (valuelist, ok) = device_valuelist mode p in
    let q = record (assert ok p) { ds_enable = enabled valuelist.type p.ds_enable } in
    emit (Call.dl_set_mode_req mode valuelist) q

unfoldable pub sm_dl_set_mode_req_preop : Port → Port
unfolding sm_dl_set_mode_req_preop_op
sm_dl_set_mode_req_preop p = sm_dl_set_mode_req_preop_op DlMode.preoperate p

unfoldable pub sm_dl_set_mode_req_operate : Port → Port
unfolding sm_dl_set_mode_req_preop_op
sm_dl_set_mode_req_operate p = sm_dl_set_mode_req_preop_op DlMode.operate p
