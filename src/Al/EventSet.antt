-- ===== src/Al/EventSet.antt =====
-- The state machine of the device's events, and `AL_Event_ind`, which hands a complete set of them
-- on.
use iol_hat.Base.{ℕ, ◌==◌, ltb, if◌then◌else◌, Bool, false, ◌||◌, List, [], ◌∷◌, take}
use iol_hat.Fsm.{Transition, Machine, event_loop}
use iol_hat.Types.ArgBlock
use iol_hat.Types.EventCode
use iol_hat.Al.State.{EventState, EventEvent, event_value, DiagEntry, Call, Port, emit}

-- The loop over the six entries of the array, however many the set has.
unfoldable pub has_upload_req : List DiagEntry → Bool
has_upload_req [] = false
has_upload_req (e ∷ es) = e.event_code == EventCode.dev_ds_upload_req || has_upload_req es

unfoldable pub al_event_ind : ℕ → List DiagEntry → Port → Port
al_event_ind event_cnt events p =
    let q = emit Call.al_event_rsp p in
    if has_upload_req (take 6 events)
    then emit Call.ds_upload q
    else (if ltb 6 event_cnt
        then q
        else emit
            (Call.smi_cnf_devevent ArgBlock.void_block ArgBlock.sizeof_devevent event_cnt
              (take event_cnt events))
            q)

unfoldable pub al_event_wait_read : Port → EventEvent → Port × EventEvent
al_event_wait_read p event = (p, EventEvent.none)

unfoldable pub al_event_du_handle : Port → EventEvent → Port × EventEvent
unfolding al_event_ind
al_event_du_handle p event = (al_event_ind p.al.event_cnt p.al.events p, EventEvent.none)

abbrev ready : Port → Port × EventEvent
ready p = (record p { al = record p.al { event_cnt = 0 } }, EventEvent.none)

unfoldable pub al_event_idle : Port → EventEvent → Port × EventEvent
al_event_idle p EventEvent.al_event_rsp = ready p
al_event_idle p EventEvent.al_event_req = ready p
al_event_idle p _ = ready (emit Call.assert_failed p)

abbrev EventTransition : Type 0
EventTransition = Transition EventState EventEvent Port

abbrev row : EventEvent → EventState → (Port → EventEvent → Port × EventEvent) → EventTransition
row e s a = record { event = e; next_state = s; action = a }

abbrev al_event_trans_s0 : List EventTransition
al_event_trans_s0 =
    row EventEvent.dl_event_ind_more EventState.read_event_set al_event_wait_read
    ∷ row EventEvent.dl_event_ind_done EventState.du_event_handling al_event_du_handle
    ∷ row EventEvent.al_event_req EventState.event_idle al_event_idle
    ∷ []

abbrev al_event_trans_s1 : List EventTransition
al_event_trans_s1 =
    row EventEvent.dl_event_ind_more EventState.read_event_set al_event_wait_read
    ∷ row EventEvent.dl_event_ind_done EventState.du_event_handling al_event_du_handle
    ∷ []

abbrev al_event_trans_s2 : List EventTransition
al_event_trans_s2 = row EventEvent.al_event_rsp EventState.event_idle al_event_idle ∷ []

unfoldable pub iolink_al_event_fsm : EventState → List EventTransition
iolink_al_event_fsm EventState.event_inactive = []
iolink_al_event_fsm EventState.event_idle = al_event_trans_s0
iolink_al_event_fsm EventState.read_event_set = al_event_trans_s1
iolink_al_event_fsm EventState.du_event_handling = al_event_trans_s2

abbrev pub event_machine : Machine EventState EventEvent Port
event_machine = record {
  fsm = iolink_al_event_fsm;
  state = λ p. p.al.event_state;
  set_state = λ s p. record p { al = record p.al { event_state = s } };
  value = event_value;
  no_event = EventEvent.none;
}

-- One round is enough: `Al.Termination.iolink_al_event_event-Settles`.
unfoldable pub iolink_al_event_event : Port → EventEvent → Port
iolink_al_event_event = event_loop event_machine 1
