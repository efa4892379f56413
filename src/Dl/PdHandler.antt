-- ===== src/Dl/PdHandler.antt =====
-- The handler of process data of ilink/iolink_dl.c, and the process data services.
use iol_hat.Base.{ℕ, ◌+◌, ◌%◌, ◌==◌, ltb, leb, Bool, if◌then◌else◌}
use iol_hat.Base.{List, [], take, set, drop, overwrite, replicate, none, some, u8}
use iol_hat.Types.{IolinkError}
use iol_hat.Types.Dl.{Direction, Controlcode}
use iol_hat.Dl.State.{Port, PdH, PdState, PdCmd, Trigger, Interleave, Call, emit, set_pd, set_od}
use iol_hat.Dl.State.{inside}
use iol_hat.Dl.Requests.{Comchannel, od_req, pd_req, ignored}

abbrev pub set_state : PdState → Port → Port
set_state s p = set_pd (record p.pd_handler { state = s }) p

abbrev pub trigger : Trigger → Port → Port
trigger t p = set_pd (record p.pd_handler { trigger = t }) p

unfoldable pub interleave_reset_od_sizes : Port → Port
interleave_reset_od_sizes p = set_od (record p.od_handler { od_rxlen = 0; od_txlen = 0 }) p

abbrev pub pd_idle : Trigger → Port → Port
unfolding pd_req
pd_idle Trigger.none p = p
pd_idle _ p = ignored (pd_req 0 0 none 0 0 (trigger Trigger.none p))

unfoldable pub pd_inactive0 : Port → Port
unfolding pd_req
pd_inactive0 p = elim p.pd_handler.phcmd [
  | PdCmd.single ↦ set_state PdState.pdsingle p
  | PdCmd.interleave ↦ set_state PdState.pdininterleave p
  | _ ↦ pd_idle p.pd_handler.trigger p
]

unfoldable pub pd_single1 : Port → Port
unfolding pd_req
pd_single1 p =
    let h = p.pd_handler in
    elim h.trigger [
      | Trigger.master_message ↦
          ignored (pd_req 0 h.pd_rxlen (some h.pdoutdata) 0 h.pd_txlen (trigger Trigger.none p))
      | Trigger.device_message ↦
          emit (Call.dl_pd_input_transport_ind (drop p.od_handler.od_rxlen p.rxbuffer) h.pd_rxlen)
            (trigger Trigger.none p)
      | Trigger.none ↦ elim h.phcmd [ PdCmd.inactive ↦ set_state PdState.inactive p | _ ↦ p ]
    ]

-- All input has come in two-byte pieces.
abbrev pub pd_in_done : Port → Port
pd_in_done p =
    let h = record p.pd_handler { pd_address = 0 } in
    let q = emit (Call.dl_pd_input_transport_ind h.pdindata h.pd_rxlen) (set_pd h p) in
    if ltb 0 h.pd_txlen then set_state PdState.pdoutinterleave q else q

abbrev pub pd_in_by_trigger : Trigger → Port → Port
unfolding od_req interleave_reset_od_sizes
pd_in_by_trigger Trigger.master_message p =
    let q = trigger Trigger.none p in
    interleave_reset_od_sizes
      (ignored (od_req Direction.read Comchannel.process p.pd_handler.pd_address 0 [] q))
pd_in_by_trigger Trigger.device_message p =
    let h = p.pd_handler in
    let moved = record h {
      pdindata = overwrite h.pdindata h.pd_address (take 2 p.rxbuffer);
      pd_address = u8 (h.pd_address + 2);
    } in
    let q = set_pd moved (inside h.pd_address 2 32 p) in
    if leb h.pd_rxlen moved.pd_address then pd_in_done q else q
pd_in_by_trigger Trigger.none p = p

unfoldable pub pd_in_interleave2 : Port → Port
unfolding od_req interleave_reset_od_sizes
pd_in_interleave2 p = elim p.pd_handler.phcmd [
  | PdCmd.inactive ↦ set_state PdState.inactive p
  | _ ↦ pd_in_by_trigger p.pd_handler.trigger p
]

-- The end of the output is compared with the length of the input.
abbrev pub pd_out_by_trigger : Trigger → Port → Port
unfolding od_req pd_req interleave_reset_od_sizes
pd_out_by_trigger Trigger.master_message p =
    let h = p.pd_handler in
    let q = trigger Trigger.none p in
    let r = ignored (pd_req 0 0 (some h.pdoutdata) h.pd_address 2 q) in
    let s = ignored (od_req Direction.write Comchannel.process h.pd_address 0 [] r) in
    set_pd (record s.pd_handler { pd_address = u8 (h.pd_address + 2) })
      (interleave_reset_od_sizes s)
pd_out_by_trigger Trigger.device_message p =
    let h = record p.pd_handler { trigger = Trigger.none } in
    if leb h.pd_rxlen h.pd_address
    then (let q = set_pd (record h { pd_address = 0 }) p in
        if ltb 0 h.pd_rxlen then set_state PdState.pdininterleave q else q)
    else set_pd h p
pd_out_by_trigger Trigger.none p = p

unfoldable pub pd_out_interleave3 : Port → Port
unfolding od_req pd_req interleave_reset_od_sizes
pd_out_interleave3 p = elim p.pd_handler.phcmd [
  | PdCmd.inactive ↦ set_state PdState.inactive p
  | _ ↦ pd_out_by_trigger p.pd_handler.trigger p
]

unfoldable pub pd_by_state : PdState → Port → Port
unfolding pd_inactive0 pd_single1 pd_in_interleave2 pd_out_interleave3
pd_by_state PdState.inactive p = pd_inactive0 p
pd_by_state PdState.pdsingle p = pd_single1 p
pd_by_state PdState.pdininterleave p = pd_in_interleave2 p
pd_by_state PdState.pdoutinterleave p = pd_out_interleave3 p

unfoldable pub iolink_dl_pd_h_sm : Port → Port
unfolding pd_by_state
iolink_dl_pd_h_sm p = pd_by_state p.pd_handler.state p

abbrev pub interleave_of : PdCmd → Interleave
interleave_of PdCmd.interleave = Interleave.pd
interleave_of _ = Interleave.none

unfoldable pub ph_conf : PdCmd → Port → Port
unfolding iolink_dl_pd_h_sm
ph_conf cmd p =
    let q = set_pd (record p.pd_handler { phcmd = cmd }) p in
    let m = record q.message_handler { interleave = interleave_of cmd } in
    iolink_dl_pd_h_sm (record q { message_handler = m })

abbrev pub interleaved : Port → Port
interleaved p =
    let m = p.message_handler in
    let h = p.pd_handler in
    let tx = if ltb 0 m.pd_txlen then 2 else h.pd_txlen in
    let rx = if ltb 0 m.pd_rxlen then 2 else h.pd_rxlen in
    let q = set_pd (record h { pd_txlen = tx; pd_rxlen = rx }) p in
    let r = set_od (record q.od_handler { odout_buffer = 2 }) q in
    if rx == 0 then set_state PdState.pdoutinterleave r else r

abbrev pub not_interleaved : Port → Port
not_interleaved p =
    let m = p.message_handler in
    let q = set_pd (record p.pd_handler { pd_txlen = m.pd_txlen; pd_rxlen = m.pd_rxlen }) p in
    set_od (record q.od_handler { odout_buffer = 2 + m.pd_txlen }) q

unfoldable pub set_mseq_change : Port → Port
set_mseq_change p =
    let q : Port = elim p.message_handler.interleave [
      | Interleave.none ↦ not_interleaved p
      | _ ↦ interleaved p
    ] in
    record q { txbuffer = replicate 64 0 }

unfoldable pub dl_pd_output_get_req : Port → IolinkError × (ℕ × List ℕ)
dl_pd_output_get_req p =
    let h = p.pd_handler in (IolinkError.none, (h.pd_txlen, take h.pd_txlen h.pdoutdata))

-- The bytes that are sent, and the zero that completes the last pair.
abbrev pub with_output : List ℕ → PdH → PdH
with_output outputdata h =
    let filled = overwrite h.pdoutdata 0 (take h.pd_txlen outputdata) in
    record h { pdoutdata = (if h.pd_txlen % 2 == 1 then set filled h.pd_txlen 0 else filled) }

abbrev pub update_by_state : PdState → List ℕ → Port → Port × IolinkError
update_by_state PdState.inactive outputdata p = (p, IolinkError.conditions_not_correct)
update_by_state _ outputdata p = (set_pd (with_output outputdata p.pd_handler) p, IolinkError.none)

unfoldable pub dl_pd_output_update_req : List ℕ → Port → Port × IolinkError
dl_pd_output_update_req outputdata p = update_by_state p.pd_handler.state outputdata p

unfoldable pub pd_in_status_ind : Controlcode → Port → Port × IolinkError
pd_in_status_ind Controlcode.none p = (p, IolinkError.none)
pd_in_status_ind Controlcode.valid p =
    (emit (Call.dl_control_ind Controlcode.valid) p, IolinkError.none)
pd_in_status_ind Controlcode.invalid p =
    (emit (Call.dl_control_ind Controlcode.invalid) p, IolinkError.none)
pd_in_status_ind _ p = (p, IolinkError.status_invalid)

unfoldable pub iolink_dl_get_pd_valid_status : Port → Bool
iolink_dl_get_pd_valid_status p = p.pd_handler.pd_valid
