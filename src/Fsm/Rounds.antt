-- ===== src/Fsm/Rounds.antt =====
-- What the loop makes of its first rounds.
use iol_hat.Base.{ℕ, suc, ◌≡◌, ◌∙◌, refl, false, inl, inr, Bool-cases}
use iol_hat.Fsm.{Machine, iteration, is_none, event_loop}

module _ {S E P : Type 0} (m : Machine S E P) where
  event_loop_one : (p : P) (e : E) → event_loop m 1 p e ≡ (iteration m p e).0
  unfolding event_loop
  event_loop_one p e = elim (Bool-cases (is_none m (iteration m p e).1)) [
    | inl done ↦ rw (done, event_loop) refl
    | inr more ↦ rw (more, event_loop) refl
  ]

  event_loop_more :
      (n : ℕ) (p : P) (e : E)
      → is_none m (iteration m p e).1 ≡ false
      → event_loop m (suc n) p e ≡ event_loop m n (iteration m p e).0 (iteration m p e).1
  unfolding event_loop
  event_loop_more n p e more = rw (more, event_loop) refl

  -- An event that leads to another one takes two rounds.
  pub event_loop_two :
      (p : P) (e : E)
      → is_none m (iteration m p e).1 ≡ false
      → event_loop m 2 p e ≡ (iteration m (iteration m p e).0 (iteration m p e).1).0
  event_loop_two p e more =
      event_loop_more 1 p e more ∙ event_loop_one (iteration m p e).0 (iteration m p e).1
