-- ===== src/Coordination/Local/Probes.antt =====
-- internal/coordination/local/circuit.go: `RenewProbes`.
use vllm_priority_gateway.Base.{
  ℕ, Bool, ◌||◌, not, Option, none, some, List, [], ◌∷◌, ◌==◌, if◌then◌else◌, ℤ, pos, leb_ℤ,
  add_time,
}
use vllm_priority_gateway.Base.Maps.{lookup, insert}
use vllm_priority_gateway.Coordination.Types.{ProbeIdentity, LeaseIdentity, RenewResult, lease_lost}
use vllm_priority_gateway.Coordination.Local.ExpiryQueue.{circuit_permit, add}
use vllm_priority_gateway.Coordination.Local.Attempts.{CircuitAttempt, CircuitCoordinator, expire}

abbrev pub no_lease : LeaseIdentity
no_lease = record {
  lease_id = 0;
  client_id = 0;
  pool_id = 0;
  request_id = 0;
  replica_id = 0;
  expires_at = 0;
  ttl = pos 0;
}

abbrev pub lost_probe : LeaseIdentity → RenewResult
lost_probe lease = record { lease = lease; reason = some lease_lost }

-- The time to live that a permit is renewed with: its own, or the one that comes with the probe.
abbrev pub probe_ttl : CircuitAttempt → ProbeIdentity → ℤ
probe_ttl a p = if leb_ℤ a.ttl (pos 0) then p.ttl else a.ttl

abbrev pub renew_permit :
    ℕ
    → ProbeIdentity
    → CircuitAttempt
    → ProbeIdentity
    → CircuitCoordinator
    → CircuitCoordinator × RenewResult
renew_permit now p a permit c =
    let at = add_time now (probe_ttl a p) in
    if leb_ℤ (probe_ttl a p) (pos 0)
    then (c, lost_probe (record no_lease { lease_id = p.permit_id }))
    else (
      record c {
        attempts =
            insert p.permit_id (record a { permit = some (record permit { expires_at = at }) })
              c.attempts;
        expiries = add circuit_permit p.permit_id at c.expiries;
      },
      record {
        lease = record no_lease { lease_id = p.permit_id; expires_at = at; ttl = probe_ttl a p };
        reason = none;
      },
    )

abbrev pub renew_held :
    ℕ
    → ProbeIdentity
    → CircuitAttempt
    → Option ProbeIdentity
    → CircuitCoordinator
    → CircuitCoordinator × RenewResult
renew_held now p a none c = (c, lost_probe no_lease)
renew_held now p a (some permit) c =
    if a.terminal || not (permit.generation == p.generation)
    then (c, lost_probe no_lease)
    else renew_permit now p a permit c

abbrev pub renew_known :
    ℕ
    → ProbeIdentity
    → Option CircuitAttempt
    → CircuitCoordinator
    → CircuitCoordinator × RenewResult
renew_known now p none c = (c, lost_probe no_lease)
renew_known now p (some a) c = renew_held now p a a.permit c

unfoldable pub renew_all :
    ℕ → List ProbeIdentity → CircuitCoordinator → CircuitCoordinator × List RenewResult
renew_all now [] c = (c, [])
renew_all now (p ∷ probes) c =
    let (c', r) = renew_known now p (lookup p.permit_id c.attempts) c in
    let (c'', rs) = renew_all now probes c' in (c'', r ∷ rs)

unfoldable pub renew_probes :
    Bool
    → ℕ
    → List ProbeIdentity
    → CircuitCoordinator
    → CircuitCoordinator × Option (List RenewResult)
unfolding renew_all expire
renew_probes ended now probes c =
    let (c', rs) = renew_all now probes (expire now c) in if ended then (c, none) else (c', some rs)
