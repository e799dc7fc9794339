-- ===== src/Pipeline/Circuit.antt =====
-- core/proxy_handler.py, the circuit breaker of the upstream. Times are in milliseconds.
use anti_bot_gw.Common.{
  ℕ, suc, ◌+◌, ◌≤◌, ◌<◌, Bool, true, ltb, leb, if◌then◌else◌, ◌≡◌, arith, List, [], ◌∷◌, ◌↔◌, inl,
  inr, Bool-cases,
}

pub record Config : Type 0 where
  pub fail_threshold : ℕ
  pub open_time : ℕ

pub record Circuit : Type 0 where
  pub fail_count : ℕ
  pub open_until : ℕ
  pub half_open_attempts : ℕ

abbrev pub closed : Circuit
closed = record { fail_count = 0; open_until = 0; half_open_attempts = 0 }

unfoldable pub circuit_is_open : ℕ → Circuit → Bool
circuit_is_open now c = ltb now c.open_until

unfoldable pub record_failure : Config → ℕ → Circuit → Circuit
record_failure cfg now c =
    let fails = suc c.fail_count in
    if leb cfg.fail_threshold fails
    then record c { fail_count = fails; open_until = now + cfg.open_time; half_open_attempts = 0 }
    else record c { fail_count = fails }

unfoldable pub record_success : Circuit → Circuit
record_success c = record c { fail_count = 0; open_until = 0; half_open_attempts = 0 }

-- the outcome of a request, a failure with its time
pub data Outcome : Type 0 where
  failure : ℕ → Outcome
  success : Outcome

unfoldable pub run : Config → List Outcome → Circuit → Circuit
unfolding record_failure record_success
run cfg [] c = c
run cfg (failure now ∷ outcomes) c = run cfg outcomes (record_failure cfg now c)
run cfg (success ∷ outcomes) c = run cfg outcomes (record_success c)

-- How many failures there are after the last success, on top of `k` before, and the time of the
-- last of them.
unfoldable pub trailing : List Outcome → ℕ → ℕ
trailing [] k = k
trailing (failure now ∷ outcomes) k = trailing outcomes (suc k)
trailing (success ∷ outcomes) k = trailing outcomes 0

unfoldable pub last_failure : List Outcome → ℕ → ℕ
last_failure [] t = t
last_failure (failure now ∷ outcomes) t = last_failure outcomes now
last_failure (success ∷ outcomes) t = last_failure outcomes t

-- The state is the one that `k` failures since the last success leave, the last at `t`.
record Reflects (cfg : Config) (k t : ℕ) (c : Circuit) : Type 0 where
  pub fails : c.fail_count ≡ k
  pub opened : (cfg.fail_threshold ≤ k) → (1 ≤ k) → c.open_until ≡ t + cfg.open_time
  pub shut : (k < cfg.fail_threshold) → c.open_until ≡ 0
  pub fresh_shut : k ≡ 0 → c.open_until ≡ 0

run-Reflects :
    (cfg : Config) (outcomes : List Outcome) (k t : ℕ) (c : Circuit)
    → Reflects cfg k t c
    → Reflects cfg (trailing outcomes k) (last_failure outcomes t) (run cfg outcomes c)
unfolding run trailing last_failure
run-Reflects cfg [] k t c r = r
run-Reflects cfg (failure now ∷ outcomes) k t c r =
    run-Reflects cfg outcomes (suc k) now (record_failure cfg now c) (record {
      fails = ground (arith, r.fails);
      opened = λ h g. ground (arith, r.fails, h);
      shut = λ h. ground (arith, r.fails, r.shut, h);
      fresh_shut = λ h. absurd (omega (arith, h));
    })
run-Reflects cfg (success ∷ outcomes) k t c r =
    run-Reflects cfg outcomes 0 t (record_success c) (record {
      fails = ground arith;
      opened = λ h g. absurd (omega (arith, g));
      shut = λ h. ground arith;
      fresh_shut = λ h. ground arith;
    })

closed-Reflects : (cfg : Config) → Reflects cfg 0 0 closed
closed-Reflects cfg = record {
  fails = ground arith;
  opened = λ h g. absurd (omega (arith, g));
  shut = λ h. ground arith;
  fresh_shut = λ h. ground arith;
}

-- Whatever the outcomes so far, with a positive threshold the circuit is open exactly if there were
-- that many failures since the last success and the last failure is less than the open time ago.
pub is_open_iff :
    (cfg : Config) (outcomes : List Outcome) (now : ℕ)
    → 1 ≤ cfg.fail_threshold
    → (circuit_is_open now (run cfg outcomes closed) ≡ true) ↔ (
        (cfg.fail_threshold ≤ trailing outcomes 0)
        × (now < last_failure outcomes 0 + cfg.open_time))
unfolding circuit_is_open
is_open_iff cfg outcomes now pos =
    let r = run-Reflects cfg outcomes 0 0 closed (closed-Reflects cfg) in
    (
      λ h. elim (Bool-cases (leb cfg.fail_threshold (trailing outcomes 0))) [
        | inl many ↦ ground (arith, h, many, r.opened)
        | inr few ↦ ground (arith, h, few, r.shut)
      ],
      λ h. ground (arith, h.0, h.1, r.opened),
    )
