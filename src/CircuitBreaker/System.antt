-- ===== src/CircuitBreaker/System.antt =====
-- A breaker together with the completion closures that it has handed out. Each closure runs its
-- body once (`sync.Once` in `completion`), and the calls come in any order
-- (internal/circuitbreaker/breaker.go).
use mathlib.Core.List.{append-nil}
use vllm_priority_gateway.Base.{
  ℕ, ◌+◌, ◌≤◌, ◌<◌, ◌≡◌, refl, sym, ◌⊎◌, inl, inr, Bool, true, false, List, [], ◌∷◌, ◌++◌, ◌&&◌,
  not, Option, none, some, arith, ◌==◌, length, get_elem?, set, count_if, count_if-append,
  count_if-set, All, All-append, All-set, All-get_elem?, if◌then◌else◌, Option-cases, Bool-cases,
}
use vllm_priority_gateway.Domain.{InferenceOutcome}
use vllm_priority_gateway.CircuitBreaker.{
  Options, Breaker, Completion, fresh, next_generation, acquire, snapshot, complete,
}
use vllm_priority_gateway.CircuitBreaker.Invariant.{
  IsValid, acquire-IsValid, snapshot-IsValid, complete-IsValid,
}

-- A closure of `completion`, with the state of its `sync.Once`.
pub record Handle : Type 0 where
  pub completion : Completion
  pub done : Bool

pub record System : Type 0 where
  pub breaker : Breaker
  pub handles : List Handle

pub data Event : Type 0 where
  acquires : ℕ → Event
  snapshots : ℕ → Event
  completes : ℕ → InferenceOutcome → ℕ → Event

abbrev handed_out : Option Completion → List Handle → List Handle
handed_out none hs = hs
handed_out (some c) hs = hs ++ record { completion = c; done = false } ∷ []

abbrev run_handle : ℕ → Handle → InferenceOutcome → ℕ → System → System
run_handle i h outcome at s = if h.done then s else record {
  breaker = complete h.completion outcome at s.breaker;
  handles = set s.handles i (record h { done = true });
}

unfoldable pub step : System → Event → System
step s (acquires now) =
    let (b, c) = acquire now s.breaker in record { breaker = b; handles = handed_out c s.handles }
step s (snapshots now) = record s { breaker = (snapshot now s.breaker).0 }
step s (completes i outcome at) = elim (get_elem? s.handles i) [
  | none ↦ s
  | some h ↦ run_handle i h outcome at s
]

unfoldable pub run : System → List Event → System
run s [] = s
run s (e ∷ es) = run (step s e) es

unfoldable pub start : Options → System
start o = record { breaker = fresh o; handles = [] }

-- A probe of the current generation whose outcome is still to come.
abbrev pub is_pending_probe : ℕ → Handle → Bool
is_pending_probe g h = not h.done && (h.completion.probe && (h.completion.generation == g))

abbrev pub pending_probes : System → ℕ
pending_probes s = count_if (is_pending_probe s.breaker.generation) s.handles

abbrev Issued : ℕ → Handle → Type 0
Issued g h = h.completion.generation ≤ g

pub record Accounts (s : System) : Type 0 where
  pub valid : IsValid s.breaker
  pub counted : s.breaker.probes_in_flight ≡ pending_probes s
  pub issued : All (Issued s.breaker.generation) s.handles

complete-probes :
    (c : Completion) (outcome : InferenceOutcome) (at : ℕ) (b : Breaker)
    → IsValid b
    → (if is_pending_probe b.generation (record { completion = c; done = false }) then 1 else 0)
      ≤ b.probes_in_flight
    → (((complete c outcome at b).generation ≡ b.generation)
        × ((complete c outcome at b).probes_in_flight
              + (if is_pending_probe b.generation (record { completion = c; done = false })
                  then 1
                  else 0)
            ≡ b.probes_in_flight))
      ⊎ (((complete c outcome at b).generation ≡ next_generation b.generation)
          × ((complete c outcome at b).probes_in_flight ≡ 0))
unfolding complete
complete-probes c outcome at b v h = ground arith

acquire-probes :
    (now : ℕ) (b : Breaker)
    → let b' = (acquire now b).0 in
      let n = count_if (is_pending_probe b'.generation) (handed_out (acquire now b).1 []) in
      ((b'.generation ≡ b.generation) × (b'.probes_in_flight ≡ b.probes_in_flight + n))
      ⊎ ((b'.generation ≡ next_generation b.generation) × (b'.probes_in_flight ≡ n))
unfolding acquire
acquire-probes now b = ground arith

acquire-Issued :
    (now : ℕ) (b : Breaker)
    → All (Issued (acquire now b).0.generation) (handed_out (acquire now b).1 [])
unfolding acquire
acquire-Issued now b = ground arith

snapshot-probes :
    (now : ℕ) (b : Breaker)
    → let b' = (snapshot now b).0 in
      ((b'.generation ≡ b.generation) × (b'.probes_in_flight ≡ b.probes_in_flight))
      ⊎ ((b'.generation ≡ next_generation b.generation) × (b'.probes_in_flight ≡ 0))
unfolding snapshot
snapshot-probes now b = ground arith

handed_out-append :
    (c : Option Completion) (hs : List Handle) → handed_out c hs ≡ hs ++ handed_out c []
handed_out-append none hs = sym (append-nil hs)
handed_out-append (some c) hs = refl

-- No closure was handed out under a generation that is still to come.
count_future :
    (g g' : ℕ) (hs : List Handle)
    → All (Issued g) hs
    → g < g'
    → count_if (is_pending_probe g') hs ≡ 0
count_future g g' [] a h = refl
count_future g g' (x ∷ xs) a h = ground (arith, count_future g g' xs a.1)

Issued-mono : (g g' : ℕ) (hs : List Handle) → g ≤ g' → All (Issued g) hs → All (Issued g') hs
Issued-mono g g' [] h a = tt
Issued-mono g g' (x ∷ xs) h a = (omega arith, Issued-mono g g' xs h a.1)

acquires-Accounts :
    (now : ℕ) (s : System)
    → Accounts s
    → s.breaker.generation + 1 < 18446744073709551616
    → Accounts (step s (acquires now))
unfolding step
acquires-Accounts now s a fits = record {
  valid = acquire-IsValid now s.breaker a.valid;
  counted = rw (handed_out-append c s.handles) (
      ground (
        arith,
        acquire-probes now s.breaker,
        a.counted,
        count_if-append (is_pending_probe b'.generation) s.handles (handed_out c []),
        count_future s.breaker.generation b'.generation s.handles a.issued,
      ));
  issued = rw (handed_out-append c s.handles) (
      All-append (Issued b'.generation) s.handles (handed_out c []) (
        Issued-mono s.breaker.generation b'.generation s.handles
            (ground (arith, acquire-probes now s.breaker)) a.issued,
        acquire-Issued now s.breaker,
      ));
}
  where
    b' : Breaker
    b' = (acquire now s.breaker).0

    c : Option Completion
    c = (acquire now s.breaker).1

snapshots-Accounts :
    (now : ℕ) (s : System)
    → Accounts s
    → s.breaker.generation + 1 < 18446744073709551616
    → Accounts (step s (snapshots now))
unfolding step
snapshots-Accounts now s a fits = record {
  valid = snapshot-IsValid now s.breaker a.valid;
  counted = ground (
    arith,
    snapshot-probes now s.breaker,
    a.counted,
    count_future s.breaker.generation b'.generation s.handles a.issued,
  );
  issued =
      Issued-mono s.breaker.generation b'.generation s.handles
        (ground (arith, snapshot-probes now s.breaker)) a.issued;
}
  where
    b' : Breaker
    b' = (snapshot now s.breaker).0

run_handle-Accounts :
    (i : ℕ) (h : Handle) (outcome : InferenceOutcome) (at : ℕ) (s : System)
    → get_elem? s.handles i ≡ some h
    → h.done ≡ false
    → Accounts s
    → s.breaker.generation + 1 < 18446744073709551616
    → Accounts (record {
      breaker = complete h.completion outcome at s.breaker;
      handles = set s.handles i (record h { done = true });
    })
run_handle-Accounts i h outcome at s e d a fits = record {
  valid = complete-IsValid h.completion outcome at s.breaker a.valid;
  counted = ground (
    arith,
    moves,
    a.counted,
    count_if-set (is_pending_probe b'.generation) s.handles i (record h { done = true }) h e,
    count_future s.breaker.generation b'.generation s.handles a.issued,
  );
  issued =
      All-set (Issued b'.generation) s.handles i (record h { done = true })
        (All-get_elem? (Issued b'.generation) s.handles i e later) later;
}
  where
    b' : Breaker
    b' = complete h.completion outcome at s.breaker

    moves :
        ((b'.generation ≡ s.breaker.generation)
          × (b'.probes_in_flight
                + (if is_pending_probe s.breaker.generation
                      (record { completion = h.completion; done = false })
                    then 1
                    else 0)
              ≡ s.breaker.probes_in_flight))
        ⊎ ((b'.generation ≡ next_generation s.breaker.generation) × (b'.probes_in_flight ≡ 0))
    moves = complete-probes h.completion outcome at s.breaker a.valid (
        ground (
          arith,
          a.counted,
          count_if-set (is_pending_probe s.breaker.generation) s.handles i
              (record h { done = true }) h e,
        ))

    later : All (Issued b'.generation) s.handles
    later =
        Issued-mono s.breaker.generation b'.generation s.handles (ground (arith, moves)) a.issued

completes-Accounts :
    (i : ℕ) (outcome : InferenceOutcome) (at : ℕ) (s : System)
    → Accounts s
    → s.breaker.generation + 1 < 18446744073709551616
    → Accounts (step s (completes i outcome at))
unfolding step
completes-Accounts i outcome at s a fits = elim (Option-cases (get_elem? s.handles i)) [
  | inl e ↦ rw (e, step) a
  | inr (h, e) ↦
      rw (e, step)
        (elim (Bool-cases h.done) [
          | inl d ↦ rw d a
          | inr d ↦ rw d (run_handle-Accounts i h outcome at s e d a fits)
        ])
]

-- Every call, in any order, keeps the accounts: the breaker is well formed and its slots in use are
-- exactly the probes of this generation that are still out.
pub step-Accounts :
    (s : System) (e : Event)
    → Accounts s
    → s.breaker.generation + 1 < 18446744073709551616
    → Accounts (step s e)
step-Accounts s (acquires now) a fits = acquires-Accounts now s a fits
step-Accounts s (snapshots now) a fits = snapshots-Accounts now s a fits
step-Accounts s (completes i outcome at) a fits = completes-Accounts i outcome at s a fits

complete-generation :
    (c : Completion) (outcome : InferenceOutcome) (at : ℕ) (b : Breaker)
    → (complete c outcome at b).generation ≤ b.generation + 1
unfolding complete
complete-generation c outcome at b = ground arith

step-generation :
    (s : System) (e : Event) → (step s e).breaker.generation ≤ s.breaker.generation + 1
unfolding step
step-generation s (acquires now) = ground (arith, acquire-probes now s.breaker)
step-generation s (snapshots now) = ground (arith, snapshot-probes now s.breaker)
step-generation s (completes i outcome at) = elim (Option-cases (get_elem? s.handles i)) [
  | inl e ↦ rw (e, step) (omega arith)
  | inr (h, e) ↦
      rw (e, step) (ground (arith, complete-generation h.completion outcome at s.breaker))
]

run-Accounts :
    (s : System) (es : List Event)
    → Accounts s
    → s.breaker.generation + length es < 18446744073709551616
    → Accounts (run s es)
unfolding run
run-Accounts s [] a h = a
run-Accounts s (e ∷ es) a h =
    run-Accounts (step s e) es (step-Accounts s e a (omega arith))
      (omega (arith, step-generation s e))

start-Accounts :
    (o : Options)
    → 0 < o.failure_threshold
    → 0 < o.failure_window
    → 0 < o.open_cooldown
    → 0 < o.half_open_max_probes
    → Accounts (start o)
unfolding start fresh
start-Accounts o t w c p = ground arith

-- After any history of fewer than 2^64 calls on a new breaker with positive options, the breaker is
-- well formed and `probesInFlight` counts exactly the probes of the current generation whose
-- closure has not run yet, so never more than `HalfOpenMaxProbes` of them are out.
pub run-start_accounts :
    (o : Options) (es : List Event)
    → 0 < o.failure_threshold
    → 0 < o.failure_window
    → 0 < o.open_cooldown
    → 0 < o.half_open_max_probes
    → length es < 18446744073709551616
    → IsValid (run (start o) es).breaker
      × ((run (start o) es).breaker.probes_in_flight ≡ pending_probes (run (start o) es))
unfolding start fresh
run-start_accounts o es t w c p h =
    let a = run-Accounts (start o) es (start-Accounts o t w c p) (omega arith) in
    (a.valid, a.counted)
