-- ===== src/Sm/DeviceData.antt =====
-- What system management keeps of the device's direct parameters: the first half of
-- `sm_DL_Read_cnf_cb` in ilink/iolink_sm.c.
use iol_hat.Base.{ℕ, ◌*◌, ◌==◌, ltb, if◌then◌else◌, Bool, true, false, not, ◌||◌}
use iol_hat.Base.{bit_or}
use iol_hat.Types.Port.{ParameterList, Mhmode}
use iol_hat.Sm.State.{Sm, Call, Port, emit}
use iol_hat.Sm.Params.{min_cycl, mseq_cap, rev_id, pdi, pdo, vid_1, vid_2}
use iol_hat.Sm.Params.{did_1, did_2, did_3, fid_1, fid_2}

abbrev pub set_sm : Sm → Port → Port
set_sm s p = record p { sm = s }

abbrev pub set_real : ParameterList → Port → Port
set_real l p = set_sm (record p.sm { real_paramlist = l }) p

abbrev is_com1 : Mhmode → Bool
is_com1 Mhmode.com1 = true
is_com1 _ = false

-- `MIN_CYCL_TIME_1`, `MIN_CYCL_TIME_2_3` and `FOUR_MS`.
abbrev pub min_cycl_time_1 : ℕ
min_cycl_time_1 = 92

abbrev pub min_cycl_time_2_3 : ℕ
min_cycl_time_2_3 = 80

abbrev pub four_ms : ℕ
four_ms = 40

abbrev new_cycletime : Mhmode → ℕ → ℕ
new_cycletime rate val =
    let mincycletime = if is_com1 rate then min_cycl_time_1 else min_cycl_time_2_3 in
    if ltb val mincycletime then mincycletime else val

-- The case MIN_CYCL.
unfoldable pub store_min_cycl : ℕ → Port → Port
store_min_cycl val p =
    let old = p.sm.real_paramlist.cycletime in
    let new = new_cycletime p.sm.comrate val in
    let q = set_real (record p.sm.real_paramlist { cycletime = new }) p in
    let r =
      if not (val == four_ms) || not (new == min_cycl_time_2_3) || not (old == p.older_cycletime)
      then emit (Call.pl_set_cycletime new) q
      else q in
    record r {
      older_cycletime = old;
      sm = record r.sm { dev_com = record r.sm.dev_com { mincycle = val } };
    }

-- The other cases of the `switch` on the address.
unfoldable pub store_parameter : ℕ → ℕ → Port → Port
unfolding store_min_cycl
store_parameter addr val p =
    let real = p.sm.real_paramlist in
    let dev = p.sm.dev_com in
    if addr == min_cycl
    then store_min_cycl val p
    else (if addr == mseq_cap
        then set_sm (record p.sm { dev_com = record dev { mseq_cap = val } }) p
        else (if addr == rev_id
            then set_real (record real { revisionid = val }) p
            else (if addr == pdi
                then set_sm (record p.sm { dev_com = record dev { pdi = val } }) p
                else (if addr == pdo
                    then set_sm (record p.sm { dev_com = record dev { pdo = val } }) p
                    else (if addr == vid_1
                        then set_real (record real { vendorid = val * 256 }) p
                        else (if addr == vid_2
                            then set_real (record real { vendorid = bit_or real.vendorid val }) p
                            else (if addr == did_1
                                then set_real (record real { deviceid = val * 65536 }) p
                                else (if addr == did_2
                                    then set_real
                                        (record real {
                                          deviceid = bit_or real.deviceid (val * 256);
                                        })
                                        p
                                    else (if addr == did_3
                                        then set_real
                                            (record real { deviceid = bit_or real.deviceid val }) p
                                        else (if addr == fid_1
                                            then set_real (record real { functionid = val * 256 }) p
                                            else (if addr == fid_2
                                                then set_real
                                                    (record real {
                                                      functionid = bit_or real.functionid val;
                                                    })
                                                    p
                                                else emit Call.assert_failed p)))))))))))
