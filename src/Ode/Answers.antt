-- ===== src/Ode/Answers.antt =====
-- Every request of a client is answered once, or is the one that the device still works on.
use iol_hat.Base.{◌==◌, if◌then◌else◌}
use iol_hat.Base.{ℕ, suc, ◌+◌, ◌≡◌, ◌≢◌, refl, true, List, [], ◌∷◌, ◌||◌, arith}
use iol_hat.Fsm.{iteration, event_loop}
use iol_hat.Types.{ArgBlockId, SmiErrortype}
use iol_hat.Types.ArgBlock
use iol_hat.Types.SmiError
use iol_hat.Ode.State.{State, SmiServiceReq, Call, Port}
use iol_hat.Ode.Actions.{ode_smi_od_err, ode_od_start, ode_od_stop, ode_smi_rw, ode_smi_done}
use iol_hat.Ode.Actions.{ode_wait, is_read, is_write}
use iol_hat.Ode.Table.{iolink_ode_fsm, iolink_ode_event}
use iol_hat.Ode.Jobs.{Job, smi_rw_req_cb, callback, run, store_read}

-- The confirmations and error indications that reached the client.
abbrev pub answers : List Call → ℕ
answers [] = 0
answers (Call.smi_joberror_ind exp ref errortype ∷ cs) = suc (answers cs)
answers (Call.smi_cnf ref len block ∷ cs) = suc (answers cs)
answers (Call.smi_voidblock_cnf ref ∷ cs) = suc (answers cs)
answers (_ ∷ cs) = answers cs

abbrev pub assertions : List Call → ℕ
assertions [] = 0
assertions (Call.assert_failed ∷ cs) = suc (assertions cs)
assertions (_ ∷ cs) = assertions cs

-- The services that the application layer was asked for.
abbrev pub services : List Call → ℕ
services [] = 0
services (Call.al_read_req index subindex ∷ cs) = suc (services cs)
services (Call.al_write_req index subindex len bytes ∷ cs) = suc (services cs)
services (_ ∷ cs) = services cs

-- A blocked port owes one answer.
abbrev pub owed : State → ℕ
owed State.od_blocked = 1
owed _ = 0

abbrev pub requests : Job → ℕ
requests (Job.smi_rw_req req) = 1
requests _ = 0

-- A stop drops the request that is being worked on.
abbrev pub dropped : Job → State → ℕ
dropped Job.od_stop s = owed s
dropped _ _ = 0

-- While a request is worked on it is one of the two kinds that `ode_smi_done` can confirm.
abbrev pub IsServed : Port → Type 0
IsServed p =
    p.ode.state ≡ State.od_blocked → (is_read p.ode.smi_req || is_write p.ode.smi_req) ≡ true

record Balanced (p : Port) (j : Job) : Type 0 where
  served : IsServed (callback j p)
  asserted : assertions (callback j p).out ≡ assertions p.out
  balance :
      answers (callback j p).out + owed (callback j p).ode.state + dropped j p.ode.state
      ≡ answers p.out + owed p.ode.state + requests j

callback-Balanced : (p : Port) (j : Job) (s : State) → p.ode.state ≡ s → IsServed p → Balanced p j
unfolding callback store_read iolink_ode_event event_loop iteration iolink_ode_fsm ode_smi_od_err
    ode_od_start ode_od_stop ode_smi_rw ode_smi_done ode_wait
callback-Balanced p Job.od_start State.inactive q h = ground arith
callback-Balanced p Job.od_start State.od_active q h = ground arith
callback-Balanced p Job.od_start State.od_blocked q h = ground arith
callback-Balanced p _ _ q h = ground arith

abbrev pub all_requests : List Job → ℕ
all_requests [] = 0
all_requests (j ∷ js) = requests j + all_requests js

abbrev pub all_dropped : List Job → Port → ℕ
all_dropped [] p = 0
all_dropped (j ∷ js) p = dropped j p.ode.state + all_dropped js (callback j p)

-- Whatever jobs the main thread works off, in whatever order, the answers and the one that a
-- blocked port still owes grow by exactly the requests that came in, less those that a stop
-- dropped while they were worked on.
pub run-answers :
    (js : List Job) (p : Port)
    → IsServed p
    → answers (run js p).out + owed (run js p).ode.state + all_dropped js p
      ≡ answers p.out + owed p.ode.state + all_requests js
unfolding run
run-answers [] p h = omega arith
run-answers (j ∷ js) p h =
    let b = callback-Balanced p j p.ode.state refl h in
    omega (arith, b.balance, run-answers js (callback j p) b.served)

-- No assertion of the layer fails, whatever jobs are worked off.
pub run-assertions :
    (js : List Job) (p : Port) → IsServed p → assertions (run js p).out ≡ assertions p.out
unfolding run
run-assertions [] p h = refl
run-assertions (j ∷ js) p h =
    let b = callback-Balanced p j p.ode.state refl h in
    omega (arith, b.asserted, run-assertions js (callback j p) b.served)

-- What a request is told that meets a port which is not ready, by the port's state.
abbrev pub refusal : State → ArgBlockId → SmiErrortype
refusal State.inactive ref =
    if ref == ArgBlock.od_rd || ref == ArgBlock.od_wr
    then SmiError.idx_notavail
    else (if ref == ArgBlock.port_index_list || ref == ArgBlock.dev_par_bat
        then SmiError.service_not_supported
        else SmiError.argblock_not_supported)
refusal _ ref =
    if ref == ArgBlock.od_rd || ref == ArgBlock.od_wr
    then SmiError.service_temp_unavailable
    else (if ref == ArgBlock.port_index_list || ref == ArgBlock.dev_par_bat
        then SmiError.service_not_supported
        else SmiError.argblock_not_supported)

refused :
    (p : Port) (req : SmiServiceReq) (s : State)
    → p.ode.state ≡ s
    → s ≢ State.od_active
    → let q = smi_rw_req_cb req p in
      (q.ode.state ≡ s)
      × (q.ode.smi_req ≡ p.ode.smi_req)
      × (q.out
          ≡ Call.smi_joberror_ind req.exp_arg_block_id req.arg_block.id (refusal s req.arg_block.id)
            ∷ p.out)
unfolding smi_rw_req_cb iolink_ode_event event_loop iteration iolink_ode_fsm ode_smi_od_err
refused p req State.od_active e h = absurd (h refl)
refused p req _ e h = ground arith

-- A request to a port that is inactive or blocked is answered at once, by one error that names
-- its blocks and depends on the state and the referenced block; the state and the request that
-- is being worked on stay as they were.
pub smi_rw_req_cb_refused :
    (p : Port) (req : SmiServiceReq)
    → p.ode.state ≢ State.od_active
    → let q = smi_rw_req_cb req p in
      (q.ode.state ≡ p.ode.state)
      × (q.ode.smi_req ≡ p.ode.smi_req)
      × (q.out
          ≡ Call.smi_joberror_ind req.exp_arg_block_id req.arg_block.id
              (refusal p.ode.state req.arg_block.id)
            ∷ p.out)
smi_rw_req_cb_refused p req h = refused p req p.ode.state refl h

one_service_at :
    (p : Port) (j : Job) (s : State)
    → p.ode.state ≡ s
    → services (callback j p).out ≢ services p.out
    → (s ≡ State.od_active)
      × ((callback j p).ode.state ≡ State.od_blocked)
      × (services (callback j p).out ≡ services p.out + 1)
unfolding callback store_read iolink_ode_event event_loop iteration iolink_ode_fsm ode_smi_od_err
    ode_od_start ode_od_stop ode_smi_rw ode_smi_done ode_wait
one_service_at p Job.od_start State.inactive q h = ground arith
one_service_at p Job.od_start State.od_active q h = ground arith
one_service_at p Job.od_start State.od_blocked q h = ground arith
one_service_at p _ _ q h = ground arith

-- The application layer is asked for a service only while no request is worked on, for one at a
-- time, and the port is blocked from then on.
pub callback-services :
    (p : Port) (j : Job)
    → services (callback j p).out ≢ services p.out
    → (p.ode.state ≡ State.od_active)
      × ((callback j p).ode.state ≡ State.od_blocked)
      × (services (callback j p).out ≡ services p.out + 1)
callback-services p j h = one_service_at p j p.ode.state refl h
