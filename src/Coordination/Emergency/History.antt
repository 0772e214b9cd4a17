-- ===== src/Coordination/Emergency/History.antt =====
-- Emergency admission over any history of calls (internal/coordination/emergency.go).
use mathlib.Core.List.{append-nil}
use vllm_priority_gateway.Base.{
  ℕ, ◌+◌, ◌≤◌, ◌≡◌, refl, sym, inl, inr, Bool, ◌&&◌, not, Option, none, some, List, [], ◌∷◌, ◌++◌,
  arith, ◌==◌, if◌then◌else◌, ℤ, pos_part, get_elem?, set, count_if, count_if-append, count_if-set,
  count_if-member, Option-cases, ◌<◌, ◌∙◌,
}
use vllm_priority_gateway.Domain.{PriorityClass, class_code}
use vllm_priority_gateway.Coordination.Emergency.{
  EmergencyAdmission, Hold, new_emergency_admission, acquire, give_back,
}

pub record System : Type 0 where
  pub admission : EmergencyAdmission
  pub holds : List Hold

pub data Call : Type 0 where
  acquires : PriorityClass → ℕ → ℤ → Call
  gives_back : ℕ → Call

abbrev handed_out : Option Hold → List Hold → List Hold
handed_out none hs = hs
handed_out (some h) hs = hs ++ h ∷ []

unfoldable pub step : System → Call → System
step s (acquires class client limit) =
    let (e, h) = acquire s.admission class client limit in
    record { admission = e; holds = handed_out h s.holds }
step s (gives_back i) = elim (get_elem? s.holds i) [
  | none ↦ s
  | some h ↦
      let (e, h') = give_back s.admission h in record { admission = e; holds = set s.holds i h' }
]

unfoldable pub run : System → List Call → System
run s [] = s
run s (c ∷ cs) = run (step s c) cs

unfoldable pub start : ℤ → ℤ → System
start critical high = record { admission = new_emergency_admission critical high; holds = [] }

-- Holds that are not given back yet, of one class and of one client.
abbrev pub of_class : ℕ → Hold → Bool
of_class k h = not h.done && (class_code h.class == k)

abbrev pub of_client : ℕ → Hold → Bool
of_client k h = not h.done && (h.client_id == k)

record Accounts (s : System) : Type 0 where
  classes : (k : ℕ) → s.admission.by_class k ≡ count_if (of_class k) s.holds
  clients : (k : ℕ) → s.admission.by_client k ≡ count_if (of_client k) s.holds

acquire_counts :
    (e : EmergencyAdmission) (class : PriorityClass) (client k : ℕ) (limit : ℤ)
    → let r = acquire e class client limit in
      (r.0.by_class k ≡ e.by_class k + count_if (of_class k) (handed_out r.1 []))
      × (r.0.by_client k ≡ e.by_client k + count_if (of_client k) (handed_out r.1 []))
unfolding acquire
acquire_counts e class client k limit = ground arith

give_back_counts :
    (e : EmergencyAdmission) (h : Hold) (k : ℕ)
    → (if of_class (class_code h.class) h then 1 else 0) ≤ e.by_class (class_code h.class)
    → (if of_client h.client_id h then 1 else 0) ≤ e.by_client h.client_id
    → let r = give_back e h in
      (r.0.by_class k + (if of_class k h then 1 else 0)
        ≡ e.by_class k + (if of_class k r.1 then 1 else 0))
      × (r.0.by_client k + (if of_client k h then 1 else 0)
          ≡ e.by_client k + (if of_client k r.1 then 1 else 0))
unfolding give_back
give_back_counts e h k a b = ground arith

handed_out-append : (h : Option Hold) (hs : List Hold) → handed_out h hs ≡ hs ++ handed_out h []
handed_out-append none hs = sym (append-nil hs)
handed_out-append (some h) hs = refl

acquires-Accounts :
    (s : System) (class : PriorityClass) (client : ℕ) (limit : ℤ)
    → Accounts s
    → Accounts (step s (acquires class client limit))
unfolding step
acquires-Accounts s class client limit a =
    let h = (acquire s.admission class client limit).1 in
    record {
      classes = λ k. rw (handed_out-append h s.holds) (
          omega (
            arith,
            (acquire_counts s.admission class client k limit).0,
            a.classes k,
            count_if-append (of_class k) s.holds (handed_out h []),
          ));
      clients = λ k. rw (handed_out-append h s.holds) (
          omega (
            arith,
            (acquire_counts s.admission class client k limit).1,
            a.clients k,
            count_if-append (of_client k) s.holds (handed_out h []),
          ));
    }

gives_back-Accounts :
    (s : System) (i : ℕ) (h : Hold)
    → get_elem? s.holds i ≡ some h
    → Accounts s
    → let r = give_back s.admission h in
      Accounts (record { admission = r.0; holds = set s.holds i r.1 })
gives_back-Accounts s i h e a =
    let r = give_back s.admission h in
    record {
      classes =
          λ k. omega (arith, (kept k).0, a.classes k, count_if-set (of_class k) s.holds i r.1 h e);
      clients =
          λ k. omega (arith, (kept k).1, a.clients k, count_if-set (of_client k) s.holds i r.1 h e);
    }
  where
    kept :
        (k : ℕ)
        → ((give_back s.admission h).0.by_class k + (if of_class k h then 1 else 0)
            ≡ s.admission.by_class k + (if of_class k (give_back s.admission h).1 then 1 else 0))
          × ((give_back s.admission h).0.by_client k + (if of_client k h then 1 else 0)
              ≡ s.admission.by_client k
                + (if of_client k (give_back s.admission h).1 then 1 else 0))
    kept k =
        give_back_counts s.admission h k
          (omega (
            arith,
            a.classes (class_code h.class),
            count_if-member (of_class (class_code h.class)) s.holds i h e,
          ))
          (omega
            (arith, a.clients h.client_id, count_if-member (of_client h.client_id) s.holds i h e))

step-Accounts : (s : System) (c : Call) → Accounts s → Accounts (step s c)
unfolding step
step-Accounts s (acquires class client limit) a = acquires-Accounts s class client limit a
step-Accounts s (gives_back i) a = elim (Option-cases (get_elem? s.holds i)) [
  | inl e ↦ rw (e, step) a
  | inr (h, e) ↦ rw (e, step) (gives_back-Accounts s i h e a)
]

run-Accounts : (s : System) (cs : List Call) → Accounts s → Accounts (run s cs)
unfolding run
run-Accounts s [] a = a
run-Accounts s (c ∷ cs) a = run-Accounts (step s c) cs (step-Accounts s c a)

-- The caps never change, and no class goes beyond its own.
record Capped (critical high : ℤ) (e : EmergencyAdmission) : Type 0 where
  same_critical : e.critical ≡ critical
  same_high : e.high ≡ high
  critical_capped : e.by_class 0 ≤ pos_part critical
  high_capped : e.by_class 1 ≤ pos_part high
  others_none : (k : ℕ) → 1 < k → e.by_class k ≡ 0

acquire-Capped :
    (critical high : ℤ) (e : EmergencyAdmission) (class : PriorityClass) (client : ℕ) (limit : ℤ)
    → Capped critical high e
    → Capped critical high (acquire e class client limit).0
unfolding acquire
acquire-Capped critical high e class client limit c = record {
  same_critical = ground (arith, c.same_critical);
  same_high = ground (arith, c.same_high);
  critical_capped = ground (arith, c.same_critical, c.critical_capped);
  high_capped = ground (arith, c.same_high, c.high_capped);
  others_none = λ k h. ground (arith, c.others_none k h);
}

give_back-Capped :
    (critical high : ℤ) (e : EmergencyAdmission) (h : Hold)
    → Capped critical high e
    → Capped critical high (give_back e h).0
unfolding give_back
give_back-Capped critical high e h c = record {
  same_critical = ground (arith, c.same_critical);
  same_high = ground (arith, c.same_high);
  critical_capped = ground (arith, c.critical_capped);
  high_capped = ground (arith, c.high_capped);
  others_none = λ k lt. ground (arith, c.others_none k lt);
}

step-Capped :
    (critical high : ℤ) (s : System) (c : Call)
    → Capped critical high s.admission
    → Capped critical high (step s c).admission
unfolding step
step-Capped critical high s (acquires class client limit) p =
    acquire-Capped critical high s.admission class client limit p
step-Capped critical high s (gives_back i) p = elim (Option-cases (get_elem? s.holds i)) [
  | inl e ↦ rw (e, step) p
  | inr (h, e) ↦ rw (e, step) (give_back-Capped critical high s.admission h p)
]

run-Capped :
    (critical high : ℤ) (s : System) (cs : List Call)
    → Capped critical high s.admission
    → Capped critical high (run s cs).admission
unfolding run
run-Capped critical high s [] p = p
run-Capped critical high s (c ∷ cs) p =
    run-Capped critical high (step s c) cs (step-Capped critical high s c p)

-- After any history, the holds that are out are at most the cap of their class, in number, and
-- there are none of a class other than critical and high; the count of each client is the number of
-- its holds that are out.
pub run-start_bounds :
    (critical high : ℤ) (cs : List Call) (k client : ℕ)
    → 1 < k
    → let s = run (start critical high) cs in
      (count_if (of_class (class_code PriorityClass.critical)) s.holds ≤ pos_part critical)
      × (count_if (of_class (class_code PriorityClass.high)) s.holds ≤ pos_part high)
      × (count_if (of_class k) s.holds ≡ 0)
      × (s.admission.by_client client ≡ count_if (of_client client) s.holds)
unfolding start new_emergency_admission
run-start_bounds critical high cs k client h =
    let a =
      run-Accounts (start critical high) cs (record { classes = λ j. refl; clients = λ j. refl }) in
    let c = run-Capped critical high (start critical high) cs (record {
      same_critical = refl;
      same_high = refl;
      critical_capped = omega arith;
      high_capped = omega arith;
      others_none = λ j lt. refl;
    }) in
    (
      omega (arith, a.classes 0, c.critical_capped),
      omega (arith, a.classes 1, c.high_capped),
      sym (a.classes k) ∙ c.others_none k h,
      a.clients client,
    )
