-- ===== src/Checker/Breaker/Threshold.antt =====
-- When the circuit opens, and how long it stays so.
use ip_proxy_pool.Base.{
  ℕ, ◌+◌, ◌≤◌, ◌<◌, ◌≡◌, ◌↔◌, ◌⊎◌, inl, inr, true, List, [], ◌∷◌, String, length, arith,
}
use ip_proxy_pool.Models.{seconds}
use ip_proxy_pool.Checker.Breaker.Defs.{
  closed, open_state, Circuit, Settings, state_of, count_of, opened_of, before_probe,
  record_failure,
}

-- Failures at the given times.
abbrev pub fail_at : Settings → Circuit → List ℕ → Circuit
fail_at cfg c [] = c
fail_at cfg c (now ∷ later) = fail_at cfg (record_failure cfg now c) later

record_failure-open :
    (cfg : Settings) (now : ℕ) (c : Circuit)
    → state_of c ≡ open_state
    → state_of (record_failure cfg now c) ≡ open_state
unfolding record_failure
record_failure-open cfg now c e = ground arith

fail_at-open :
    (cfg : Settings) (times : List ℕ) (c : Circuit)
    → state_of c ≡ open_state
    → state_of (fail_at cfg c times) ≡ open_state
fail_at-open cfg [] c e = e
fail_at-open cfg (t ∷ ts) c e =
    fail_at-open cfg ts (record_failure cfg t c) (record_failure-open cfg t c e)

-- One failure of a closed circuit either opens it, or leaves it closed with one failure more.
record_failure-closed :
    (cfg : Settings) (now : ℕ) (c : Circuit)
    → state_of c ≡ closed
    → let c' = record_failure cfg now c in
      ((cfg.failures ≤ count_of c + 1) × (state_of c' ≡ open_state))
      ⊎ ((count_of c + 1 < cfg.failures) × (state_of c' ≡ closed) × (count_of c' ≡ count_of c + 1))
unfolding record_failure
record_failure-closed cfg now c e = ground arith

-- A closed circuit opens with the failure that makes the count since the last success reach the
-- threshold, and not before: after any run of failures it is open exactly when they and the count
-- before them are at least the threshold.
pub opens_at_threshold :
    (cfg : Settings) (times : List ℕ) (c : Circuit)
    → state_of c ≡ closed
    → count_of c < cfg.failures
    → (state_of (fail_at cfg c times) ≡ open_state) ↔ (cfg.failures ≤ count_of c + length times)
opens_at_threshold cfg [] c e low = (λ o. cc, λ h. absurd (omega arith))
opens_at_threshold cfg (t ∷ ts) c e low = elim (record_failure-closed cfg t c e) [
  | inl (reached, o) ↦ (λ _. omega arith, λ _. fail_at-open cfg ts (record_failure cfg t c) o)
  | inr (below, still, counted) ↦
      let ih = opens_at_threshold cfg ts (record_failure cfg t c) still (omega arith) in
      (λ o. let h = ih.0 o in omega arith, λ h. ih.1 (omega arith))
]

-- An open circuit admits nobody until its cooldown is over, and then the worker that asks, who
-- becomes the owner of the half-open circuit.
pub cooldown_gate :
    (cfg : Settings) (owner : String) (now : ℕ) (c : Circuit)
    → state_of c ≡ open_state
    → ((before_probe cfg owner now c).1.allowed ≡ true) ↔ (opened_of c + seconds cfg.cooldown ≤ now)
unfolding before_probe
cooldown_gate cfg owner now c e = (λ h. ground arith, λ h. ground arith)
