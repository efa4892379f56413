-- ===== src/Fsm.antt =====
-- The table-driven state machine that iolink_ode.c, iolink_ds.c and iolink_cm.c each spell out:
-- a transition table for every state, a search for the first transition of the event, and a
-- do-while loop that goes on with the event that the action returns.
pub mod Settles
pub mod Invariant
pub mod Rounds
use iol_hat.Base.{ℕ, zero, suc, Bool, true, false, Option, none, some, List, [], ◌∷◌}
use iol_hat.Base.{◌==◌, if◌then◌else◌}

-- `iolink_fsm_*_transition_t`, over the states, the events and what an action reads and writes.
pub record Transition (S E P : Type 0) : Type 0 where
  pub event : E
  pub next_state : S
  pub action : P → E → P × E

-- What the three loops differ in: the table, where the state is kept, and the events' values,
-- of which 0 is the event NONE.
pub record Machine (S E P : Type 0) : Type 0 where
  pub fsm : S → List (Transition S E P)
  pub state : P → S
  pub set_state : S → P → P
  pub value : E → ℕ
  pub no_event : E

module _ {S E P : Type 0} (m : Machine S E P) where
  -- The `for` loop over the transitions of a state.
  unfoldable pub find_trans : List (Transition S E P) → E → Option (Transition S E P)
  find_trans [] e = none
  find_trans (t ∷ ts) e = if m.value t.event == m.value e then some t else find_trans ts e

  -- One round of the do-while loop. The `return` at an event without a transition leaves the loop
  -- as the event NONE does.
  unfoldable pub take_trans : Option (Transition S E P) → P → E → P × E
  take_trans none p e = (p, m.no_event)
  take_trans (some t) p e = t.action (m.set_state t.next_state p) e

  unfoldable pub iteration : P → E → P × E
  unfolding take_trans find_trans
  iteration p e = take_trans (find_trans (m.fsm (m.state p)) e) p e

  abbrev pub is_none : E → Bool
  is_none e = m.value e == 0

  -- The do-while loop, with at most so many rounds.
  unfoldable pub event_loop : ℕ → P → E → P
  event_loop zero p e = p
  event_loop (suc fuel) p e =
      let (p', e') = iteration p e in
      elim (is_none e') [ true ↦ p' | false ↦ event_loop fuel p' e' ]
