-- ===== src/Scheduler/Starting.antt =====
-- scheduler/scheduler.go: the start of the scheduler and its readiness check.
use hanami.Base.{
  ◌≡◌, refl, Bool, true, false, none, some, List, [], ◌∷◌, String, contains, is_blank, arith,
  if◌then◌else◌, Option-cases, Result-cases, inl, inr, ok, err, sort_by,
}
use hanami.Scheduler.{
  Monitor, SchedulerError, fail, Native, Runtime, Job, Registration, register_jobs, set_required,
  construct_and_register, initialize, ref_start, ref_shutdown, stop, check, running, failing,
  stopping, given_up, name_empty, no_registration, registered_twice, register_failed,
  construct_failed, by_name,
}

module _ {S E : Type 0} (g : Native S E) where
  -- No failure is touched, and whatever error ends it, the native scheduler is shut down.
  abbrev IsSafe : Monitor E → Registration S E → Type 0
  IsSafe v d =
      (d.monitor.failure ≡ v.failure)
      × ((e : SchedulerError E) → d.error ≡ some e → (s : S) × (d.native ≡ (g.shutdown s).0))

  given_up-IsSafe : (s : S) (v : Monitor E) (e : SchedulerError E) → IsSafe v (given_up g s v e)
  given_up-IsSafe s v e = (refl, λ f h. (s, refl))

  if-IsSafe :
      (v : Monitor E) (b : Bool) (x y : Registration S E)
      → IsSafe v x
      → IsSafe v y
      → IsSafe v (if b then x else y)
  if-IsSafe v true x y h k = h
  if-IsSafe v false x y h k = k

  register_jobs-IsSafe :
      (js : List (Job S E)) (seen : List String) (s : S) (v : Monitor E)
      → IsSafe v (register_jobs g seen js s v)
  unfolding register_jobs set_required
  register_jobs-IsSafe [] seen s v = (refl, λ e h. absurd (cc))
  register_jobs-IsSafe (j ∷ js) seen s v =
      if-IsSafe v (is_blank j.name) _ _ (given_up-IsSafe s v name_empty)
        (elim (Option-cases j.register) [
          | inl p ↦ rw p (given_up-IsSafe s v (no_registration j.name))
          | inr (register, p) ↦ rw p (
              if-IsSafe v (contains j.name seen) _ _ (given_up-IsSafe s v (registered_twice j.name))
                (elim (Result-cases (register s)) [
                  | inl ((e, s'), q) ↦ rw q (given_up-IsSafe s' v (register_failed j.name e))
                  | inr (s', q) ↦
                      rw q (register_jobs-IsSafe js (j.name ∷ seen) s' (set_required j.name v))
                ]))
        ])

  -- If the construction of the scheduler ends with an error, no native scheduler is left behind the
  -- reference: either gocron made none, or it is shut down.
  pub construct-shutdown :
      (r : Runtime S E) (e : SchedulerError E)
      → (construct_and_register g r).1 ≡ some e
      → ((construct_and_register g r).0.native ≡ r.native)
        × ((f : E) → g.new_scheduler ≡ err f → e ≡ construct_failed f)
        × ((s : S)
            → g.new_scheduler ≡ ok s
            → (s' : S) × ((register_jobs g [] (sort_by by_name r.jobs) s r.monitor).native
                ≡ (g.shutdown s').0))
  unfolding construct_and_register
  construct-shutdown r e h = (
    ground arith,
    λ f k. ground arith,
    λ s k. (register_jobs-IsSafe (sort_by by_name r.jobs) [] s r.monitor).1 e (ground arith),
  )

  -- Once the startup condition has run on a fresh runtime, the readiness check tells what happened: it
  -- passes if there was no error, and otherwise fails with that error, the runtime not started.
  pub initialize-check :
      (r : Runtime S E)
      → r.monitor.failure ≡ none
      → r.stopping ≡ false
      → r.started ≡ false
      → ((initialize g r).1 ≡ none → check (initialize g r).0 ≡ running)
        × ((e : SchedulerError E)
            → (initialize g r).1 ≡ some e
            → (check (initialize g r).0 ≡ failing "scheduler failed" (some e))
              × ((initialize g r).0.started ≡ false))
  unfolding initialize check fail ref_start construct_and_register
  initialize-check r h p q =
      let safe : (s : S)
          → (register_jobs g [] (sort_by by_name r.jobs) s r.monitor).monitor.failure
            ≡ r.monitor.failure =
        λ s. (register_jobs-IsSafe (sort_by by_name r.jobs) [] s r.monitor).0 in
      elim (Result-cases g.new_scheduler) [
        | inl (f, k) ↦ (λ e. ground arith, λ e z. (ground arith, ground arith))
        | inr (s, k) ↦ (λ e. ground (arith, safe s), λ e z. (ground (arith, safe s), ground arith))
      ]

  -- A runtime that was stopped, started or not, refuses to start and fails its check.
  pub initialize-stop :
      (r : Runtime S E)
      → (initialize g (stop g r).0 ≡ ((stop g r).0, some stopping)) × ((stop g r).0.stopping ≡ true)
  unfolding initialize stop ref_shutdown
  initialize-stop r = (ground arith, ground arith)
