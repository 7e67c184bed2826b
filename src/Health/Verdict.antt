-- ===== src/Health/Verdict.antt =====
-- health/health.go, Check and Handler: reports and their status codes.
use hanami.Base.{
  ℕ, ◌≤◌, ◌<◌, ◌==◌, ==_iff, ◌≡◌, refl, subst, Bool, true, false, List, arith, length, length-map,
  ◌↔◌, ◌&&◌, not, ◌+◌, String, if◌then◌else◌, Bool-cases, inl, inr, str_eq,
}
use hanami.Health.{RunResult, Status, effective_status, Outcome}
use hanami.Health.{
  status_pass, status_ok, status_service_unavailable, Registry, Kind, readiness, status_warn,
  status_fail, status_name, check, selected, handler, blank_results,
}
use hanami.Health.Arrivals.{rows, arrivals, IsOrder, collect-rows}
use hanami.Health.Worst.{worst, worst-below, worst-pass, worst-above, collect-worst}

name_fails : (s : Status) → 1 ≤ s → (str_eq (status_name s) "fail" ≡ false) ↔ (s ≤ status_warn)
name_fails s h = elim (Bool-cases (s == status_pass)) [
  | inl e ↦ rw e (λ _. omega (arith, (==_iff s status_pass).0 e), λ _. refl)
  | inr e ↦ rw e (elim (Bool-cases (s == status_warn)) [
    | inl f ↦ rw f (λ _. omega (arith, (==_iff s status_warn).0 f), λ _. refl)
    | inr f ↦ rw f (λ k. absurd (cc), λ k. absurd (ground arith))
  ])
]

code_cases :
    {P : Type 0} (failed : Bool)
    → (failed ≡ false) ↔ P
    → (((if failed then status_service_unavailable else status_ok) ≡ 200) ↔ P)
      × (((if failed then status_service_unavailable else status_ok) ≡ 503) ↔ ¬ P)
code_cases true h =
    ((λ e. absurd (omega arith), λ p. absurd (cc (h.1 p))), (λ _ p. cc (h.1 p), λ _. refl))
code_cases false h =
    ((λ _. h.0 refl, λ _. refl), (λ e. absurd (omega arith), λ n. absurd (n (h.0 refl))))

module _ {F E : Type 0} (message : E → String) (reveal : Bool) (r : Registry F) (kind : Kind)
    (outcome : ℕ → RunResult E) (order : List ℕ) (o : IsOrder (selected kind r) order) where
  abbrev arrived : List (Outcome E)
  arrived = arrivals outcome order

  -- Whatever the order in which the outcomes of the selected checks arrive, the report has one row
  -- for each, in the registry's order, and its status is the worst of theirs, except that
  -- readiness fails while the application takes no work.
  pub check-arrivals : check message reveal r kind arrived ≡ record {
    version = "v1";
    status = status_name (
        if kind == readiness && not r.admission.is_open
        then status_fail
        else worst outcome 0 (selected kind r));
    checks = rows message reveal (selected kind r) outcome 0 (selected kind r);
  }
  unfolding check
  check-arrivals =
      rw
        (
          collect-rows message reveal (selected kind r) outcome order
              (blank_results (selected kind r)) 1 o (length-map _ (selected kind r)),
          collect-worst message reveal (selected kind r) outcome order
              (blank_results (selected kind r)) o,
        )
        refl

  worst-warn :
      (worst outcome 0 (selected kind r) ≤ status_warn)
      ↔ ((i : ℕ) → i < length (selected kind r) → effective_status (outcome i) ≤ status_warn)
  worst-warn = (
    λ h i l.
        let e : 0 + i ≡ i = omega arith in
        let above = worst-above message reveal (selected kind r) outcome 0 i (selected kind r) l in
        let same =
          subst (λ z. effective_status (outcome z) ≤ worst outcome 0 (selected kind r)) e above in
        omega (arith, same, h),
    λ h.
        worst-below message reveal (selected kind r) outcome 2 0 (selected kind r)
          (λ i l.
            let e : i ≡ 0 + i = omega arith in
            subst (λ z. effective_status (outcome z) ≤ status_warn) e (h i l))
          (omega arith),
  )

  shown_status : Status
  shown_status =
      if kind == readiness && not r.admission.is_open
      then status_fail
      else worst outcome 0 (selected kind r)

  shown_status-healthy : (str_eq (check message reveal r kind arrived).status "fail" ≡ false) ↔ (
      ((i : ℕ) → i < length (selected kind r) → effective_status (outcome i) ≤ status_warn)
      × (kind ≡ readiness → r.admission.is_open ≡ true))
  unfolding shown_status
  shown_status-healthy =
      let name =
        name_fails shown_status (
          ground
            (arith, worst-pass message reveal (selected kind r) outcome 0 (selected kind r))) in
      rw check-arrivals (
        λ h. let bound = name.0 h in (worst-warn.0 (ground arith), λ k. ground arith),
        λ h.
            let bound = worst-warn.1 h.0 in
            name.1 (elim (Bool-cases (kind == readiness)) [
              | inl e ↦ ground (arith, h.1 ((==_iff kind readiness).0 e))
              | inr e ↦ ground arith
            ]),
      )

  -- The handler answers 200 exactly when every selected check passed or warned and, for
  -- readiness, the application takes work; otherwise it answers 503.
  pub handler-healthy :
      let healthy =
        ((i : ℕ) → i < length (selected kind r) → effective_status (outcome i) ≤ status_warn)
        × (kind ≡ readiness → r.admission.is_open ≡ true) in
      (((handler message reveal r kind arrived).0 ≡ 200) ↔ healthy)
      × (((handler message reveal r kind arrived).0 ≡ 503) ↔ ¬ healthy)
  unfolding handler
  handler-healthy = code_cases _ shown_status-healthy
