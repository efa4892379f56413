-- ===== src/Fsm/Invariant.antt =====
-- What every round of the loop keeps holds after the loop.
use iol_hat.Base.{ℕ, zero, suc, inl, inr, Bool-cases}
use iol_hat.Fsm.{Machine, iteration, is_none, event_loop}

module _ {κ} {S E P : Type 0} (m : Machine S E P) (I : P → E → Type κ) (J : P → Type κ) where
  pub event_loop_inv :
      ((p : P) (e : E) → I p e → I (iteration m p e).0 (iteration m p e).1)
      → ((p : P) (e : E) → I p e → J p)
      → (n : ℕ) (p : P) (e : E) → I p e
      → J (event_loop m n p e)
  unfolding event_loop
  event_loop_inv keep ends zero p e h = ends p e h
  event_loop_inv keep ends (suc n) p e h =
      let q = (iteration m p e).0 in
      let e' = (iteration m p e).1 in
      let h' = keep p e h in
      elim (Bool-cases (is_none m e')) [
        | inl done ↦ rw (done, event_loop) (ends q e' h')
        | inr more ↦ rw (more, event_loop) (event_loop_inv keep ends n q e' h')
      ]
