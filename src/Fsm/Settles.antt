-- ===== src/Fsm/Settles.antt =====
-- The do-while loop as a relation, and when a bounded number of rounds computes it.
use iol_hat.Base.{ℕ, zero, suc, ◌≤◌, ◌<◌, ◌≡◌, refl, true, false, inl, inr, Bool-cases, arith}
use iol_hat.Fsm.{Machine, iteration, is_none, event_loop}

module _ {S E P : Type 0} (m : Machine S E P) where
  -- `Settles p e q`: started with the event `e` at `p`, the loop ends, and it ends at `q`.
  pub data Settles : P → E → P → Type 0 where
    stop : {p q : P} {e e' : E} → iteration m p e ≡ (q, e') → is_none m e' ≡ true → Settles p e q
    again :
        {p p' q : P} {e e' : E}
        → iteration m p e ≡ (p', e')
        → is_none m e' ≡ false
        → Settles p' e' q
        → Settles p e q

module _ {S E P : Type 0} (m : Machine S E P) (rank : S → E → ℕ) where
  -- Each further event ranks below the one that led to it, and none ranks 0.
  abbrev pub Falls : Type 0
  Falls =
      (p : P) (e : E)
      → is_none m (iteration m p e).1 ≡ false
      → suc (rank (m.state (iteration m p e).0) (iteration m p e).1) ≤ rank (m.state p) e

  abbrev pub Positive : Type 0
  Positive = (s : S) (e : E) → 0 < rank s e

  pub event_loop-Settles :
      Positive
      → Falls
      → (n : ℕ) (p : P) (e : E) → rank (m.state p) e ≤ n
      → Settles m p e (event_loop m n p e)
  unfolding event_loop
  event_loop-Settles pos falls zero p e h = absurd (omega (arith, pos (m.state p) e))
  event_loop-Settles pos falls (suc n) p e h = elim (Bool-cases (is_none m (iteration m p e).1)) [
    | inl done ↦ rw (done, event_loop) (stop refl done)
    | inr more ↦
        rw (more, event_loop)
          (again refl more (
            event_loop-Settles pos falls n (iteration m p e).0 (iteration m p e).1
              (omega (arith, falls p e more))))
  ]
