-- ===== src/Ode/ReadCnf.antt =====
-- What `ode_read_cnf_cb` writes into the client's block.
use iol_hat.Base.{ℕ, ◌+◌, ◌≤◌, ◌<◌, ◌≡◌, ◌∙◌, refl, true, List, ◌∷◌, arith, length, take, replicate}
use iol_hat.Base.{
  sub8, u8, overwrite, length-overwrite, length-take, take-overwrite_block, leb, le→leb,
}
use iol_hat.Fsm.{iteration, event_loop}
use iol_hat.Types.ArgBlock
use iol_hat.Types.SmiError
use iol_hat.Ode.State.{State, Event, Call, Port, SmiServiceReq}
use iol_hat.Ode.Actions.{ode_smi_done, is_read}
use iol_hat.Ode.Table.{iolink_ode_fsm, iolink_ode_event}
use iol_hat.Ode.Jobs.{ode_read_cnf_cb, store_read}

-- The client's promise: the length that it names is that of its block, and fits a byte.
pub record IsSized (req : SmiServiceReq) : Type 0 where
  pub exact : req.arg_block_len ≡ length req.arg_block.bytes + ArgBlock.sizeof_od
  pub small : req.arg_block_len < 256

-- What a read confirmation leaves in the client's block of a request.
pub record IsStored (len : ℕ) (bytes : List ℕ) (req req' : SmiServiceReq) : Type 0 where
  pub front : take len req'.arg_block.bytes ≡ take len bytes
  pub kept : length req'.arg_block.bytes ≡ length req.arg_block.bytes
  pub named : req'.arg_block_len ≡ len + ArgBlock.sizeof_od
  pub result : req'.result ≡ req.result

-- If the device's answer fits the client's block, its bytes stand at the front of the block,
-- nothing is written past the block's end, and the new length counts the head and these bytes.
pub store_read-IsStored :
    (len : ℕ) (bytes : List ℕ) (req : SmiServiceReq)
    → IsSized req
    → len ≤ length bytes
    → len ≤ length req.arg_block.bytes
    → IsStored len bytes req (store_read len bytes req)
unfolding store_read
store_read-IsStored len bytes req s h k = ground (
  arith,
  length-overwrite req.arg_block.bytes 0 zeros,
  length-overwrite cleared 0 (take len bytes),
  take-overwrite_block cleared 0 len (take len bytes),
  length-take len bytes,
)
  where
    zeros : List ℕ
    zeros = replicate (sub8 (u8 req.arg_block_len) ArgBlock.sizeof_od) 0

    cleared : List ℕ
    cleared = overwrite req.arg_block.bytes 0 zeros

-- If the answer does not fit, the client gets the error for a wrong length and its block as it was.
pub store_read_too_long :
    (len : ℕ) (bytes : List ℕ) (req : SmiServiceReq)
    → IsSized req
    → length req.arg_block.bytes < len
    → store_read len bytes req ≡ record req { result = SmiError.argblock_length_invalid }
unfolding store_read
store_read_too_long len bytes req s h = ground (arith, s.exact, s.small)

-- The loop's way from a blocked port to an active one.
unblocked :
    (p : Port)
    → p.ode.state ≡ State.od_blocked
    → iolink_ode_event p Event.od_unblock
      ≡ (ode_smi_done
          (record p { ode = record p.ode { state = State.od_active } })
          Event.od_unblock).0
unfolding iolink_ode_event event_loop iteration iolink_ode_fsm ode_smi_done
unblocked p b = ground arith

same_ids :
    (len : ℕ) (bytes : List ℕ) (req : SmiServiceReq)
    → ((store_read len bytes req).exp_arg_block_id ≡ req.exp_arg_block_id)
      × ((store_read len bytes req).arg_block.id ≡ req.arg_block.id)
unfolding store_read
same_ids len bytes req = ground arith

-- A read that the device answers, and whose answer fits, is confirmed to the client with the block
-- that holds the answer, and the port takes the next request. The length that the client named is
-- that of its block, head included, and fits a byte.
pub ode_read_cnf_cb-IsStored :
    (p : Port) (len : ℕ) (bytes : List ℕ)
    → p.ode.state ≡ State.od_blocked
    → is_read p.ode.smi_req ≡ true
    → IsSized p.ode.smi_req
    → len ≤ length bytes
    → len ≤ length p.ode.smi_req.arg_block.bytes
    → let q = ode_read_cnf_cb len bytes SmiError.no_error p in
      (q.ode.state ≡ State.od_active)
      × (q.out
          ≡ Call.smi_cnf ArgBlock.od_rd (len + ArgBlock.sizeof_od) q.ode.smi_req.arg_block ∷ p.out)
      × IsStored len bytes p.ode.smi_req (record q.ode.smi_req { result = p.ode.smi_req.result })
unfolding ode_read_cnf_cb ode_smi_done
ode_read_cnf_cb-IsStored p len bytes b r s h k =
    let req = record p.ode.smi_req { result = SmiError.no_error } in
    let stored : IsStored len bytes req (store_read len bytes req) =
      store_read-IsStored len bytes req (record { exact = s.exact; small = s.small }) h k in
    rw (unblocked (record p { ode = record p.ode { smi_req = store_read len bytes req } }) b) (
      refl,
      ground (arith, stored.named, stored.result, same_ids len bytes req),
      ground (arith, stored),
    )

stored_short :
    (len : ℕ) (bytes : List ℕ) (req : SmiServiceReq)
    → req.arg_block_len < ArgBlock.sizeof_od
    → len ≤ 250
    → let r = store_read len bytes req in
      (r.arg_block_len ≡ len + ArgBlock.sizeof_od)
      × (length r.arg_block.bytes ≡ length req.arg_block.bytes)
      × (r.result ≡ req.result)
unfolding store_read
stored_short len bytes req s h =
    let room = sub8 (u8 req.arg_block_len) ArgBlock.sizeof_od in
    let fits : leb len room ≡ true = le→leb _ _ (omega arith) in
    let cleared = overwrite req.arg_block.bytes 0 (replicate room 0) in
    rw fits (
      omega arith,
      length-overwrite cleared 0 (take len bytes)
          ∙ length-overwrite req.arg_block.bytes 0 (replicate room 0),
      refl,
    )

-- A block that is named shorter than its own head is not refused: an answer of any length up to 250
-- bytes to a read that a blocked port waits for is confirmed to the client with that length, though
-- the block has no more bytes than it had, and the port takes the next request.
pub ode_read_cnf_cb_short :
    (p : Port) (len : ℕ) (bytes : List ℕ)
    → p.ode.state ≡ State.od_blocked
    → is_read p.ode.smi_req ≡ true
    → p.ode.smi_req.arg_block_len < ArgBlock.sizeof_od
    → len ≤ 250
    → let q = ode_read_cnf_cb len bytes SmiError.no_error p in
      (q.ode.state ≡ State.od_active)
      × (q.out
          ≡ Call.smi_cnf ArgBlock.od_rd (len + ArgBlock.sizeof_od) q.ode.smi_req.arg_block ∷ p.out)
      × (length q.ode.smi_req.arg_block.bytes ≡ length p.ode.smi_req.arg_block.bytes)
unfolding ode_read_cnf_cb ode_smi_done
ode_read_cnf_cb_short p len bytes b r s h =
    let req = record p.ode.smi_req { result = SmiError.no_error } in
    let stored = stored_short len bytes req s h in
    rw (unblocked (record p { ode = record p.ode { smi_req = store_read len bytes req } }) b)
      (refl, ground (arith, stored.0, stored.2, same_ids len bytes req), ground (arith, stored.1))
