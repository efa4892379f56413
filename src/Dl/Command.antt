-- ===== src/Dl/Command.antt =====
-- The command handler of ilink/iolink_dl.c, which writes the master command of a control code or of
-- a device mode.
use iol_hat.Base.{ℕ, ◌==◌, ◌||◌, if◌then◌else◌, [], ◌∷◌}
use iol_hat.Types.{IolinkError}
use iol_hat.Types.Dl.{Status, Direction, Controlcode, DlMode}
use iol_hat.Dl.State.{Port, ModeState, CommandState, ChCmd, Call, emit, set_command}
use iol_hat.Dl.Requests.{Comchannel, od_req, ignored}
use iol_hat.Sm.Params.{device_operate, device_preop}

abbrev pub fallback : ℕ
fallback = 0x5A

abbrev pub device_startup : ℕ
device_startup = 0x97

abbrev pub device_pd_out_op : ℕ
device_pd_out_op = 0x98

unfoldable pub write_master_command : Status → Port → Port
write_master_command errorinfo p =
    let master_command = p.cmd_handler.master_command in
    let q = set_command (record p.cmd_handler { master_command = 0 }) p in
    if (master_command == device_operate)
      || (master_command == device_preop)
      || (master_command == fallback)
    then emit (Call.dl_write_devicemode_cnf errorinfo master_command) q
    else q

abbrev pub with_command : ℕ → Port → Port
with_command master_command p =
    set_command
      (record p.cmd_handler { master_command = master_command; state = CommandState.mastercommand })
      p

abbrev pub command_idle : Controlcode → Port → Port
command_idle Controlcode.pdoutvalid p = with_command device_pd_out_op p
command_idle Controlcode.pdoutinvalid p = with_command device_operate p
command_idle Controlcode.devicemode p = with_command p.cmd_handler.master_command p
command_idle _ p = p

unfoldable pub command_by_state : CommandState → ChCmd → Port → Port
unfolding od_req
command_by_state CommandState.inactive ChCmd.active p =
    set_command (record p.cmd_handler { state = CommandState.idle }) p
command_by_state CommandState.inactive ChCmd.inactive p = p
command_by_state CommandState.idle ChCmd.inactive p =
    set_command (record p.cmd_handler { state = CommandState.inactive }) p
command_by_state CommandState.idle ChCmd.active p = command_idle p.cmd_handler.control_code p
command_by_state CommandState.mastercommand chcmd p =
    let bytes = p.cmd_handler.master_command ∷ [] in
    let q = ignored (od_req Direction.write Comchannel.page 0 1 bytes p) in
    let h = record q.cmd_handler { control_code = Controlcode.none; state = CommandState.idle } in
    set_command h q

unfoldable pub iolink_dl_cmd_h_sm : Port → Port
unfolding command_by_state
iolink_dl_cmd_h_sm p = command_by_state p.cmd_handler.state p.cmd_handler.chcmd p

abbrev pub command : Controlcode → Port → Port × IolinkError
unfolding iolink_dl_cmd_h_sm
command controlcode p = (
  iolink_dl_cmd_h_sm (set_command (record p.cmd_handler { control_code = controlcode }) p),
  IolinkError.none,
)

unfoldable pub dl_control_req : Controlcode → Port → Port × IolinkError
dl_control_req Controlcode.none p = (p, IolinkError.controlcode_invalid)
dl_control_req Controlcode.devicemode p = (p, IolinkError.controlcode_invalid)
dl_control_req controlcode p = command controlcode p

abbrev pub command_of_mode : DlMode → ℕ
command_of_mode DlMode.inactive = fallback
command_of_mode DlMode.startup = device_startup
command_of_mode DlMode.preoperate = device_preop
command_of_mode DlMode.operate = device_operate

-- What follows in preoperate, where the message handler has to be told.
abbrev pub after_devicemode : ModeState → DlMode → Port → Port
after_devicemode ModeState.preoperate DlMode.inactive p =
    emit (Call.dl_write_devicemode_cnf Status.no_error fallback) p
after_devicemode ModeState.preoperate _ p = emit Call.mh_event p
after_devicemode _ devicemode p = p

abbrev pub write_devicemode : DlMode → Port → Port × IolinkError
unfolding iolink_dl_cmd_h_sm
write_devicemode devicemode p =
    let h = record p.cmd_handler {
      master_command = command_of_mode devicemode;
      control_code = Controlcode.devicemode;
    } in
    let q = iolink_dl_cmd_h_sm (set_command h p) in
    (after_devicemode q.mode_handler.state devicemode q, IolinkError.none)

abbrev pub devicemode_by_state : ModeState → DlMode → Port → Port × IolinkError
devicemode_by_state ModeState.startup devicemode p =
    (emit (Call.dl_write_devicemode_cnf Status.state_conflict 0) p, IolinkError.state_invalid)
devicemode_by_state _ devicemode p = write_devicemode devicemode p

unfoldable pub dl_write_devicemode_req : DlMode → Port → Port × IolinkError
dl_write_devicemode_req devicemode p = devicemode_by_state p.mode_handler.state devicemode p
