-- ===== src/Registry/RevisionGuard.antt =====
-- internal/registry/revision_guard.go: the highest revision seen, and the fault once a fresh read
-- has gone back behind what was seen before it. The two atomics are fields, and an operation is a
-- step; the compare-and-swap loop of `ObservePublished` ends at the first success.
use vllm_priority_gateway.Base.{
  ◌≡◌, ◌⊎◌, Bool, true, false, List, [], ◌∷◌, arith, if◌then◌else◌, ℤ, pos, leb_ℤ, ltb_ℤ, ◌≤ℤ◌,
  ◌<ℤ◌,
}

pub record RevisionGuard : Type 0 where
  pub highest : ℤ
  pub faulted : Bool

abbrev pub new_guard : RevisionGuard
new_guard = record { highest = pos 0; faulted = false }

unfoldable pub observe_published : ℤ → RevisionGuard → RevisionGuard
observe_published revision g =
    if leb_ℤ revision g.highest then g else record g { highest = revision }

-- The guard after it, and whether the revision is accepted.
unfoldable pub verify_fresh : ℤ → ℤ → RevisionGuard → RevisionGuard × Bool
unfolding observe_published
verify_fresh captured fresh g =
    if g.faulted
    then (g, false)
    else if ltb_ℤ fresh captured
    then (record g { faulted = true }, false)
    else (observe_published fresh g, true)

pub data GuardCall : Type 0 where
  observes : ℤ → GuardCall
  verifies : ℤ → ℤ → GuardCall

unfoldable pub step : RevisionGuard → GuardCall → RevisionGuard
step g (observes revision) = observe_published revision g
step g (verifies captured fresh) = (verify_fresh captured fresh g).0

unfoldable pub run : RevisionGuard → List GuardCall → RevisionGuard
run g [] = g
run g (c ∷ cs) = run (step g c) cs

step_advances :
    (g : RevisionGuard) (c : GuardCall)
    → (g.highest ≤ℤ (step g c).highest) × ((g.faulted ≡ false) ⊎ ((step g c).faulted ≡ true))
unfolding step observe_published verify_fresh
step_advances g (observes revision) = ground arith
step_advances g (verifies captured fresh) = ground arith

run_advances :
    (g : RevisionGuard) (cs : List GuardCall)
    → (g.highest ≤ℤ (run g cs).highest) × ((g.faulted ≡ false) ⊎ ((run g cs).faulted ≡ true))
unfolding run
run_advances g [] = ground arith
run_advances g (c ∷ cs) =
    let first = step_advances g c in
    let rest = run_advances (step g c) cs in ground (arith, first, rest)

-- A fresh read behind the revision captured before it is a fault for good: it is refused, and so is
-- every read after it, whatever calls come between; the highest revision never goes back.
pub verify_fresh_faults :
    (g : RevisionGuard) (captured fresh : ℤ) (cs : List GuardCall) (captured' fresh' : ℤ)
    → fresh <ℤ captured
    → let first = verify_fresh captured fresh g in
      let later = run first.0 cs in
      (first.1 ≡ false)
      × ((verify_fresh captured' fresh' later).1 ≡ false)
      × (g.highest ≤ℤ later.highest)
unfolding verify_fresh
verify_fresh_faults g captured fresh cs captured' fresh' h =
    ground (arith, h, run_advances (verify_fresh captured fresh g).0 cs)
