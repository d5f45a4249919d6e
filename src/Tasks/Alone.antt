-- ===== src/Tasks/Alone.antt =====
-- A task that no other interrupts.
use edge_copilot_backend.Prelude.{ℕ, zero, suc, ◌≤◌, ◌≡◌, refl, sym, ◌∙◌, ap, arith}
use edge_copilot_backend.Errors.{Exception, Result, ok, raise}
use edge_copilot_backend.Exec.{Exec, resume}
use edge_copilot_backend.Tasks.{landed}

module _ {P W A : Type 0} (ended : Result A → P) where
  -- The place where a segment leads, as its outcome says.
  abbrev pub Lands : (P → Type 0) → Result P × W → Type 0
  Lands Q p = Q (landed ended p).0

  -- What holds where a raise ends the task, and wherever the rest of a segment leads, holds where
  -- the segment leads.
  pub resume-Lands :
      {B : Type 0} (Q : P → Type 0) (f : B → Exec W P) (p : Result B × W)
      → ((e : Exception) → Q (ended (raise e)))
      → ((b : B) → Lands Q (f b p.1))
      → Lands Q (resume f p)
  resume-Lands Q f (ok b, w) fails h = h b
  resume-Lands Q f (raise e, w) fails h = fails e

  module _ (segment : P → Exec W P) where
    -- Several segments, with no other task in between.
    unfoldable pub alone : ℕ → P × W → P × W
    alone zero p = p
    alone (suc n) (place, w) = alone n (landed ended (segment place w))

    -- `remaining` is what is left of the method at a place, and `left` bounds the segments that it
    -- takes.
    module _ (remaining : P → Exec W A) (left : P → ℕ)
        (at_end : (r : Result A) (w : W) → remaining (ended r) w ≡ (r, w))
        (segment-remaining : (place : P) (w : W)
          → remaining place w ≡ resume remaining (segment place w))
        (segment-Lands : (n : ℕ) (place : P) (w : W)
          → left place ≤ suc n
          → Lands (λ q. left q ≤ n) (segment place w))
        (left_none : (place : P) → left place ≡ 0 → (r : Result A) × (place ≡ ended r)) where
      landed-remaining :
          (p : Result P × W) → remaining (landed ended p).0 (landed ended p).1 ≡ resume remaining p
      landed-remaining (ok place, w) = refl
      landed-remaining (raise e, w) = at_end (raise e) w

      alone-remaining :
          (n : ℕ) (p : P × W) → remaining (alone n p).0 (alone n p).1 ≡ remaining p.0 p.1
      unfolding alone
      alone-remaining zero p = refl
      alone-remaining (suc n) (place, w) =
          alone-remaining n (landed ended (segment place w))
          ∙ landed-remaining (segment place w)
          ∙ sym (segment-remaining place w)

      left-alone : (n : ℕ) (p : P × W) → left p.0 ≤ n → left (alone n p).0 ≡ 0
      unfolding alone
      left-alone zero p h = omega (arith, h)
      left-alone (suc n) (place, w) h =
          left-alone n (landed ended (segment place w)) (segment-Lands n place w h)

      -- Enough segments bring the task to its end, with the outcome and the state of the method.
      pub alone_lem :
          (n : ℕ) (place : P) (w : W)
          → left place ≤ n
          → alone n (place, w) ≡ (ended (remaining place w).0, (remaining place w).1)
      alone_lem n place w enough =
          let (r, at) = left_none _ (left-alone n (place, w) enough) in
          let v = (alone n (place, w)).1 in
          let same' : (r, v) ≡ remaining place w =
            sym (at_end r v) ∙ ap (λ q. remaining q v) (sym at) ∙ alone-remaining n (place, w) in
          ap (λ q. (q, v)) at ∙ ap (λ p. (ended p.0, p.1)) same'
