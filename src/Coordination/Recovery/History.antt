-- ===== src/Coordination/Recovery/History.antt =====
-- When a replica is ready again (internal/coordination/recovery.go).
use vllm_priority_gateway.Base.{
  ℕ, ◌+◌, ◌%◌, ◌≤◌, ◌<◌, ◌≡◌, refl, sym, subst, ◌≢◌, ◌⊎◌, inl, inr, ◌↔◌, Option, none, some, List,
  [], ◌∷◌, arith, length,
}
use vllm_priority_gateway.Coordination.Recovery.{
  RecoveryManager, Failure, StepRun, absent, ran, recovered, ready, permanent_fault, next_failures,
  coordination_failure, report, run_steps, after_steps, recover,
}

-- Nothing failed: no step returned an error, and no failure came in while the steps ran.
abbrev pub Quiet : List StepRun → Type 0
Quiet [] = Unit
Quiet (absent ∷ steps) = Quiet steps
Quiet (ran during e ∷ steps) = (during ≡ []) × (e ≡ none) × Quiet steps

-- The failures that can be reported in one recovery.
abbrev pub reports : List StepRun → ℕ
reports [] = 0
reports (absent ∷ steps) = reports steps
reports (ran during e ∷ steps) = length during + 1 + reports steps

coordination_failure_count :
    (e : Failure) (m : RecoveryManager)
    → ((coordination_failure e m).failures ≡ next_failures m.failures)
      ⊎ ((coordination_failure e m ≡ m) × (m.status.state ≡ permanent_fault))
unfolding coordination_failure
coordination_failure_count e m = ground arith

coordination_failure_fault :
    (e : Failure) (m : RecoveryManager) → (coordination_failure e m).status.state ≢ ready
unfolding coordination_failure
coordination_failure_fault e m = ground arith

coordination_failure_permanent :
    (e : Failure) (m : RecoveryManager)
    → m.status.state ≡ permanent_fault
    → (coordination_failure e m).status.state ≡ permanent_fault
unfolding coordination_failure
coordination_failure_permanent e m h = ground arith

report_permanent :
    (es : List Failure) (m : RecoveryManager)
    → m.status.state ≡ permanent_fault
    → (report es m).status.state ≡ permanent_fault
unfolding report
report_permanent [] m h = h
report_permanent (e ∷ es) m h =
    report_permanent es (coordination_failure e m) (coordination_failure_permanent e m h)

-- A permanent fault is final: neither further failures nor a recovery end it.
pub permanent_absorbs :
    (now : ℕ) (steps : List StepRun) (es : List Failure) (m : RecoveryManager)
    → m.status.state ≡ permanent_fault
    → let later = report es m in
      (later.status.state ≡ permanent_fault)
      × ((recover now steps later).0 ≡ later)
      × ((recover now steps later).1 ≢ recovered)
unfolding recover
permanent_absorbs now steps es m h = ground (arith, report_permanent es m h)

abbrev modulus : ℕ
modulus = 18446744073709551616

-- Between two moments, the counter of failures has moved by `k`, modulo 2^64.
abbrev Moved : RecoveryManager → RecoveryManager → ℕ → Type 0
Moved m m' k = m'.failures ≡ (m.failures + k) % modulus

coordination_failure_moves :
    (e : Failure) (m : RecoveryManager)
    → m.failures < modulus
    → (k : ℕ) × (k ≤ 1)
      × Moved m (coordination_failure e m) k
      × (m.status.state ≢ permanent_fault → 0 < k)
      × ((coordination_failure e m).failures < modulus)
coordination_failure_moves e m h = elim (coordination_failure_count e m) [
  | inl c ↦ (1, omega arith, c, λ _. omega arith, omega (arith, c))
  | inr (c, p) ↦ (0, omega arith, rw c (omega arith), λ q. absurd (q p), rw c h)
]

report_moves :
    (es : List Failure) (m : RecoveryManager)
    → m.failures < modulus
    → (k : ℕ) × (k ≤ length es)
      × Moved m (report es m) k
      × ((es ≡ []) ⊎ (m.status.state ≢ permanent_fault → 0 < k))
      × ((report es m).failures < modulus)
unfolding report
report_moves [] m h = (0, omega arith, omega arith, inl refl, h)
report_moves (e ∷ es) m h =
    let (a, a1, moved, pos, below) = coordination_failure_moves e m h in
    let (b, b1, rest, _, last) = report_moves es (coordination_failure e m) below in
    (a + b, omega arith, omega arith, inr (λ q. omega (arith, pos q)), last)

run_steps_moves :
    (steps : List StepRun) (m : RecoveryManager)
    → m.failures < modulus
    → (k : ℕ) × (k ≤ reports steps)
      × Moved m (run_steps steps m).0 k
      × (m.status.state ≢ permanent_fault → (run_steps steps m).1 ≡ none → (Quiet steps) ⊎ (0 < k))
unfolding run_steps report
run_steps_moves [] m h = (0, omega arith, omega arith, λ _ _. inl tt)
run_steps_moves (absent ∷ steps) m h = run_steps_moves steps m h
run_steps_moves (ran during none ∷ steps) m h =
    let (a, a1, moved, came, below) = report_moves during m h in
    let (b, b1, rest, q) = run_steps_moves steps (report during m) below in
    (
      a + b,
      omega arith,
      omega arith,
      λ np e. elim came [
        | inl nothing ↦
            elim (q (subst (λ es. (report es m).status.state ≢ permanent_fault) (sym nothing) np)
              e) [ inl quiet ↦ inl (nothing, refl, quiet) | inr more ↦ inr (omega arith) ]
        | inr some_came ↦ inr (omega (arith, some_came np))
      ],
    )
run_steps_moves (ran during (some x) ∷ steps) m h =
    let (a, a1, moved, came, below) = report_moves during m h in
    let (b, b1, rest, _, _) = coordination_failure_moves x (report during m) below in
    (a + b, omega arith, omega arith, λ np e. cc)

run_steps-Quiet :
    (steps : List StepRun) (m : RecoveryManager) → Quiet steps → run_steps steps m ≡ (m, none)
unfolding run_steps report
run_steps-Quiet [] m q = refl
run_steps-Quiet (absent ∷ steps) m q = run_steps-Quiet steps m q
run_steps-Quiet (ran during none ∷ steps) m q = rw q.0 (run_steps-Quiet steps m q.2)
run_steps-Quiet (ran during (some x) ∷ steps) m q = cc

after_steps_recovered :
    (now starting : ℕ) (m : RecoveryManager) (e : Option Failure)
    → (after_steps now starting (m, e)).1 ≡ recovered
    → (e ≡ none)
      × (m.failures ≡ starting)
      × ((after_steps now starting (m, e)).0.status.state ≡ ready)
after_steps_recovered now starting m none h = ground arith
after_steps_recovered now starting m (some x) h = cc

recover_started :
    (now : ℕ) (steps : List StepRun) (m : RecoveryManager)
    → m.status.state ≢ permanent_fault
    → recover now steps m ≡ after_steps now m.failures (run_steps steps m)
unfolding recover
recover_started now steps m np = ground arith

recovered-Quiet :
    (now : ℕ) (steps : List StepRun) (m : RecoveryManager)
    → m.status.state ≢ permanent_fault
    → m.failures < modulus
    → reports steps < modulus
    → (after_steps now m.failures (run_steps steps m)).1 ≡ recovered
    → Quiet steps
recovered-Quiet now steps m np h r e =
    let (none_left, same, _) =
      after_steps_recovered now m.failures (run_steps steps m).0 (run_steps steps m).1 e in
    let (k, k1, moved, q) = run_steps_moves steps m h in
    elim (q np none_left) [ inl quiet ↦ quiet | inr more ↦ absurd (omega (arith, same, moved)) ]

-- A replica that is not in a permanent fault recovers exactly when no step returned an error and no
-- failure was reported while the steps ran (of which there are fewer than 2^64), and is ready then.
pub recover_iff :
    (now : ℕ) (steps : List StepRun) (m : RecoveryManager)
    → m.status.state ≢ permanent_fault
    → m.failures < modulus
    → reports steps < modulus
    → ((recover now steps m).1 ≡ recovered ↔ Quiet steps)
      × (Quiet steps
          ↔ ((recover now steps m).1 ≡ recovered) × ((recover now steps m).0.status.state ≡ ready))
recover_iff now steps m np h r = rw (recover_started now steps m np) (
  (recovered-Quiet now steps m np h r, from_quiet),
  (
    (λ quiet. (
      from_quiet quiet,
      (after_steps_recovered now m.failures (run_steps steps m).0 (run_steps steps m).1
          (from_quiet quiet)).2,
    )),
    λ both. recovered-Quiet now steps m np h r both.0,
  ),
)
  where
    from_quiet : Quiet steps → (after_steps now m.failures (run_steps steps m)).1 ≡ recovered
    from_quiet quiet = rw (run_steps-Quiet steps m quiet) (ground arith)
