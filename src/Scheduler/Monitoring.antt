-- ===== src/Scheduler/Monitoring.antt =====
-- scheduler/scheduler.go, monitor: the failure that is kept.
use hanami.Base.{
  ◌≡◌, refl, sym, ap, ◌∙◌, Bool, false, Option, none, some, List, [], ◌∷◌, String, contains, arith,
  if◌then◌else◌, Bool-cases, inl, inr,
}
use hanami.Scheduler.{
  Monitor, SchedulerError, stopped_unexpectedly, job_failed, fail, Event, scheduler_started,
  scheduler_stopped, only_logged, job_failed_event, observe, observe_all,
}

module _ {E : Type 0} where
  -- The first failure among the events: a failed required job, or a stop that was not intended, where
  -- `intended` says whether the next stop is.
  unfoldable pub first_failure : List String → Bool → List (Event E) → Option (SchedulerError E)
  first_failure required intended [] = none
  first_failure required intended (scheduler_started ∷ os) = first_failure required false os
  first_failure required intended (scheduler_stopped ∷ os) =
      let rest = first_failure required false os in
      if intended then rest else some stopped_unexpectedly
  first_failure required intended (only_logged ∷ os) = first_failure required intended os
  first_failure required intended (job_failed_event name e ∷ os) =
      let rest = first_failure required intended os in
      if contains name required then some (job_failed name e) else rest

  observe-kept :
      (o : Event E) (v : Monitor E) (e : SchedulerError E)
      → v.failure ≡ some e
      → (observe o v).failure ≡ some e
  unfolding observe fail
  observe-kept scheduler_started v e h = h
  observe-kept scheduler_stopped v e h = ground arith
  observe-kept only_logged v e h = h
  observe-kept (job_failed_event name f) v e h = ground arith

  observe_all-kept :
      (os : List (Event E)) (v : Monitor E) (e : SchedulerError E)
      → v.failure ≡ some e
      → (observe_all os v).failure ≡ some e
  unfolding observe_all
  observe_all-kept [] v e h = h
  observe_all-kept (o ∷ os) v e h = observe_all-kept os (observe o v) e (observe-kept o v e h)

  observe_all-first :
      (os : List (Event E)) (v : Monitor E)
      → v.failure ≡ none
      → (observe_all os v).failure ≡ first_failure v.required v.intentional_stop os
  unfolding observe_all observe fail first_failure
  observe_all-first [] v h = h
  observe_all-first (scheduler_started ∷ os) v h =
      observe_all-first os (record v { intentional_stop = false }) h
  observe_all-first (scheduler_stopped ∷ os) v h = elim (Bool-cases v.intentional_stop) [
    | inl e ↦ rw e (observe_all-first os (record v { intentional_stop = false }) h)
    | inr e ↦ rw (e, h) (observe_all-kept os _ stopped_unexpectedly refl)
  ]
  observe_all-first (only_logged ∷ os) v h = observe_all-first os v h
  observe_all-first (job_failed_event name e ∷ os) v h =
      elim (Bool-cases (contains name v.required)) [
        | inl k ↦
            let kept : (observe (job_failed_event name e) v).failure ≡ some (job_failed name e) =
              ground arith in
            let first : first_failure v.required v.intentional_stop (job_failed_event name e ∷ os)
                ≡ some (job_failed name e) =
              ground arith in
            observe_all-kept os (observe (job_failed_event name e) v) (job_failed name e) kept
            ∙ sym first
        | inr k ↦
            let same : observe (job_failed_event name e) v ≡ v = rw (observe, k) refl in
            let first : first_failure v.required v.intentional_stop (job_failed_event name e ∷ os)
                ≡ first_failure v.required v.intentional_stop os =
              ground arith in
            ap (λ z. (observe_all os z).failure) same ∙ observe_all-first os v h ∙ sym first
      ]

  -- What the monitor keeps after any events is the failure that it had or else the first among them:
  -- a required job that failed, or a stop of the scheduler that was not intended.
  pub observe_all-failure :
      (os : List (Event E)) (v : Monitor E)
      → ((e : SchedulerError E) → v.failure ≡ some e → (observe_all os v).failure ≡ some e)
        × (v.failure ≡ none
            → (observe_all os v).failure ≡ first_failure v.required v.intentional_stop os)
  observe_all-failure os v = (observe_all-kept os v, observe_all-first os v)
