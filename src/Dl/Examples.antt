-- ===== src/Dl/Examples.antt =====
-- Runs of ilink/iolink_dl.c on small inputs.
use iol_hat.Base.{ℕ, ◌≡◌, refl, arith, true, false, List, [], ◌∷◌, replicate, take, some}
use iol_hat.Types.{IolinkError}
use iol_hat.Types.Dl.{read_response_pos}
use iol_hat.Types.Dl.{ValueList, Direction, DlMode, Controlcode, MsequenceType}
use iol_hat.Dl.State.{Port, ModeState, MessageState, Interleave, PdState, OdState, IsduState}
use iol_hat.Dl.State.{CommandState, EventState, ChCmd, OhCmd, IhCmd, EhCmd, PdCmd, RwCmd, Trigger}
use iol_hat.Dl.State.{Mhinfo, set_isdu, slice}
use iol_hat.Dl.Isdu.{calc_chkpdu, isdu_timer_elapsed, get_isdu_response_data, get_isdu_len}
use iol_hat.Dl.Events.{no_entry}
use iol_hat.Dl.Api.{dl_isdu_transport_req, encode, body}
use iol_hat.Dl.Decoding.{decode}
use iol_hat.Dl.Sending.{IsQuiet, Reply, device_message}
use iol_hat.Dl.OdHandler.{oh_conf}
use iol_hat.Dl.Transfer.{transfer, IsWaiting}
use iol_hat.Dl.Delivered.{IsReady, octets_of, request-delivered}
use iol_hat.Dl.Reception.{IsConfirmed}
use iol_hat.Dl.Receiving.{IsResponse, receive}
use iol_hat.Dl.PdHandler.{iolink_dl_pd_h_sm, trigger}
use iol_hat.Dl.Output.{IsSingle, process_data, output-sent}
use iol_hat.Al.State as Al
use iol_hat.Al.Jobs.{init_al}
use iol_hat.Al.ProcessData.{al_set_output_req, al_get_input_output_req}
use iol_hat.Dl.Stuck.{IsRead, IsMisread, deactivate-state, extended_length_stale}
use iol_hat.Dl.Response.{IsAwaiting, response-IsConfirmed}

-- A device in operate, with `od_len` octets of on-request data in a message.
abbrev port : ℕ → IsduState → Port
port od_len state = record {
  mode_handler = record {
    state = ModeState.operate;
    dl_mode = DlMode.operate;
    mhinfo = Mhinfo.none;
  };
  message_handler = record {
    state = MessageState.aw_reply_16;
    rwcmd = RwCmd.isdutransport;
    pd_rxlen = 0;
    pd_txlen = 0;
    od_len = od_len;
    cks = 0;
    interleave = Interleave.none;
  };
  pd_handler = record {
    state = PdState.inactive;
    phcmd = PdCmd.inactive;
    trigger = Trigger.none;
    pd_address = 0;
    pd_rxlen = 0;
    pd_txlen = 0;
    pdoutdata = replicate 32 0;
    pdindata = replicate 32 0;
    pd_valid = true;
  };
  od_handler = record {
    state = OdState.isdu;
    ohcmd = OhCmd.active;
    trigger = Trigger.none;
    od_rxlen = 0;
    od_txlen = 0;
    data_addr = 0;
    data_value = 0;
    odout_buffer = 2;
  };
  cmd_handler = record {
    state = CommandState.idle;
    chcmd = ChCmd.active;
    control_code = Controlcode.none;
    master_command = 0;
  };
  isdu_handler = record {
    state = state;
    ihcmd = IhCmd.active;
    total_isdu_len = 0;
    current_isdu_seg = 0;
    total_isdu_seg = 0;
    isdu_data = replicate 241 0;
    isdu_timer = 900;
    data_dir_read = true;
  };
  event_handler = record {
    state = EventState.idle;
    ehcmd = EhCmd.active;
    event_flag = false;
    event_confirmation = false;
    ev_addr = 0;
    status_code = 0;
    num_entries = 0;
    ev_cnt = 0;
    ev_current = 0;
    events = replicate 6 no_entry;
  };
  cycbyte = 0;
  mseq = MsequenceType.type_0;
  first_read_min_cycl = true;
  txbuffer = replicate 64 0;
  rxbuffer = replicate 64 0;
  now = 1000;
  out = [];
}

quiet : (m : ℕ) (s : IsduState) → IsQuiet (port m s)
quiet m s = record { od_state = refl; ohcmd = refl; control_code = refl; event_flag = refl }

abbrev read_vendor : ValueList
read_vendor = record {
  index = 16;
  subindex = 0;
  bytes = [];
  length = 0;
  readwrite = Direction.read;
}

idle_port-IsReady : IsReady (port 2 IsduState.idle)
idle_port-IsReady = record {
  quiet = quiet 2 IsduState.idle;
  comm = refl;
  linked = refl;
  idle = refl;
  ihcmd = refl;
  array = refl;
  some_octets = omega arith;
  octets = omega arith;
  buffer = omega arith;
}

-- A reply to a write, without an event.
abbrev empty : Reply
empty = record { octets = []; cks = 0x15 }

request-delivered_example :
    (dl_isdu_transport_req read_vendor (port 2 IsduState.idle)).1 ≡ IolinkError.none
    × (decode (
          take
            (octets_of read_vendor)
            (transfer
              (empty ∷ empty ∷ [])
              (dl_isdu_transport_req read_vendor (port 2 IsduState.idle)).0).1)
        ≡ some read_vendor)
    × IsWaiting 2
        (transfer
          (empty ∷ empty ∷ [])
          (dl_isdu_transport_req read_vendor (port 2 IsduState.idle)).0).0
request-delivered_example =
    request-delivered read_vendor (port 2 IsduState.idle) idle_port-IsReady (omega arith)
      (omega arith) (omega arith) refl (omega arith) (empty ∷ empty ∷ []) refl (refl, (refl, tt))

-- A response of the service 13 with the data 7 and 8, and its checksum.
abbrev wire : List ℕ
wire = 212 ∷ 7 ∷ 8 ∷ 219 ∷ []

wire-IsResponse : IsResponse true wire 4 2 2
wire-IsResponse = record {
  named = refl;
  proper = omega arith;
  serves = refl;
  octet = omega arith;
  segments = refl;
  whole = refl;
  fits = omega arith;
}

wait_port-IsAwaiting : IsAwaiting true 2 [] (port 2 IsduState.isduwait)
unfolding isdu_timer_elapsed
wait_port-IsAwaiting = record {
  waiting = record {
    quiet = quiet 2 IsduState.isduwait;
    waiting = refl;
    live = refl;
    segment = refl;
    od_len = refl;
  };
  in_time = refl;
  asked = refl;
  array = refl;
  calls = refl;
}

abbrev replies : List Reply
replies =
    record { octets = 212 ∷ 7 ∷ []; cks = 1 } ∷ record { octets = 8 ∷ 219 ∷ 5 ∷ []; cks = 2 } ∷ []

response-IsConfirmed_example : IsConfirmed wire 4 [] (receive replies (port 2 IsduState.isduwait))
response-IsConfirmed_example =
    response-IsConfirmed wire 4 2 2 true wire-IsResponse (omega arith) (omega arith) (omega arith)
      [] replies (port 2 IsduState.isduwait) wait_port-IsAwaiting refl
      (refl, refl, (refl, refl, refl))

-- The first octet of a response of the service 13 with an extended length.
abbrev extended : Reply
extended = record { octets = 209 ∷ []; cks = 0 }

-- The array still holds a request of the index 16.
abbrev asked_port : Port
asked_port =
    let p = port 1 IsduState.isduwait in
    set_isdu (record p.isdu_handler { isdu_data = 147 ∷ 16 ∷ 131 ∷ replicate 238 0 }) p

asked_port-IsAwaiting : IsAwaiting true 1 [] asked_port
unfolding isdu_timer_elapsed
asked_port-IsAwaiting = record {
  waiting = record {
    quiet = record { od_state = refl; ohcmd = refl; control_code = refl; event_flag = refl };
    waiting = refl;
    live = refl;
    segment = refl;
    od_len = refl;
  };
  in_time = refl;
  asked = refl;
  array = refl;
  calls = refl;
}

asked_port-IsRead : IsRead read_vendor (replicate 241 0) asked_port
unfolding encode body calc_chkpdu
asked_port-IsRead = record {
  request = record { counted = refl; fits = omega arith };
  empty = refl;
  two = omega arith;
  byte = omega arith;
  array = refl;
  held = refl;
}

extended_length_stale_example :
    IsMisread 16 read_response_pos (131 ∷ replicate 238 0) [] (device_message extended asked_port)
unfolding get_isdu_response_data get_isdu_len
extended_length_stale_example =
    extended_length_stale read_vendor (replicate 241 0) asked_port extended [] asked_port-IsAwaiting
      asked_port-IsRead read_response_pos refl refl refl

deactivate-state_example :
    (oh_conf OhCmd.inactive (port 8 IsduState.idle)).od_handler.state ≡ OdState.inactive
deactivate-state_example = deactivate-state (port 8 IsduState.idle)

-- Three octets of output, and one of input.
abbrev single_port : Port
single_port =
    let p = port 1 IsduState.idle in
    record p {
      pd_handler = record p.pd_handler { state = PdState.pdsingle; pd_txlen = 3; pd_rxlen = 1 };
    }

single_port-IsSingle : IsSingle (1 ∷ 2 ∷ 3 ∷ []) single_port
single_port-IsSingle = record {
  single = refl;
  array = refl;
  tx = omega arith;
  rx = omega arith;
  given = omega arith;
  buffer = refl;
}

abbrev al_port : Al.Port
al_port =
    let p : Al.Port = record { al = init_al; out = [] } in
    record p { al = record p.al { pdin_data = 9 ∷ replicate 31 0; pdin_data_len = 1 } }

output-sent_example :
    (al_set_output_req process_data (1 ∷ 2 ∷ 3 ∷ []) single_port).1 ≡ IolinkError.none
    × ((al_get_input_output_req process_data al_port
          (al_set_output_req process_data (1 ∷ 2 ∷ 3 ∷ []) single_port).0).1.1
        ≡ 1 ∷ 9 ∷ 3 ∷ 1 ∷ 2 ∷ 3 ∷ [])
    × (slice
          (iolink_dl_pd_h_sm (
            trigger Trigger.master_message
              (al_set_output_req process_data (1 ∷ 2 ∷ 3 ∷ []) single_port).0)).txbuffer
          2
          3
        ≡ 1 ∷ 2 ∷ 3 ∷ [])
output-sent_example = output-sent (1 ∷ 2 ∷ 3 ∷ []) single_port single_port-IsSingle al_port
