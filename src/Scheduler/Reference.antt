-- ===== src/Scheduler/Reference.antt =====
-- scheduler/scheduler.go: the gocron interface that the application holds, a reference to the native
-- scheduler of the runtime.
use hanami.Base.{
  ℕ, ◌≡◌, refl, ap, ◌∙◌, Option, none, some, List, [], ◌∷◌, String, Result, ok, err, arith,
}
use hanami.Scheduler.{
  Native, SchedulerError, Runtime, initialize, construct_and_register, not_started, native_failed,
  ref_start, ref_shutdown, ref_stop_jobs,
}

-- The other calls of the native scheduler: `J` is the type of gocron's jobs, `D` that of a definition with
-- its task and options, `U` that of the ids.
pub record NativeJobs (S E J D U : Type 0) : Type 0 where
  pub jobs : S → List J
  pub new_job : D → S → S × Result E J
  pub remove_by_tags : List String → S → S
  pub remove_job : U → S → S × Option E
  pub update : U → D → S → S × Result E J
  pub jobs_waiting : S → ℕ

module _ {S E J D U : Type 0} (n : NativeJobs S E J D U) where
  unfoldable pub ref_jobs : Runtime S E → List J
  ref_jobs r = elim r.native [ none ↦ [] | some s ↦ n.jobs s ]

  abbrev pub of_native : Result E J → Result (SchedulerError E) J
  of_native (ok j) = ok j
  of_native (err e) = err (native_failed e)

  unfoldable pub ref_new_job : D → Runtime S E → Runtime S E × Result (SchedulerError E) J
  ref_new_job d r = elim r.native [
    | none ↦ (r, err not_started)
    | some s ↦ (record r { native = some (n.new_job d s).0 }, of_native (n.new_job d s).1)
  ]

  unfoldable pub ref_remove_by_tags : List String → Runtime S E → Runtime S E
  ref_remove_by_tags tags r = elim r.native [
    | none ↦ r
    | some s ↦ record r { native = some (n.remove_by_tags tags s) }
  ]

  unfoldable pub ref_remove_job : U → Runtime S E → Runtime S E × Option (SchedulerError E)
  ref_remove_job id r = elim r.native [
    | none ↦ (r, some not_started)
    | some s ↦ (
      record r { native = some (n.remove_job id s).0 },
      elim (n.remove_job id s).1 [ none ↦ none | some e ↦ some (native_failed e) ],
    )
  ]

  unfoldable pub ref_update : U → D → Runtime S E → Runtime S E × Result (SchedulerError E) J
  ref_update id d r = elim r.native [
    | none ↦ (r, err not_started)
    | some s ↦ (record r { native = some (n.update id d s).0 }, of_native (n.update id d s).1)
  ]

  unfoldable pub ref_jobs_waiting : Runtime S E → ℕ
  ref_jobs_waiting r = elim r.native [ none ↦ 0 | some s ↦ n.jobs_waiting s ]

-- The calls that an application can make of the reference and that may change something.
pub data Call (D U : Type 0) : Type 0 where
  call_start call_shutdown call_stop_jobs : Call D U
  call_new_job : D → Call D U
  call_remove_by_tags : List String → Call D U
  call_remove_job : U → Call D U
  call_update : U → D → Call D U

module _ {S E J D U : Type 0} (g : Native S E) (n : NativeJobs S E J D U) where
  abbrev pub after_call : Call D U → Runtime S E → Runtime S E
  after_call call_start r = ref_start g r
  after_call call_shutdown r = (ref_shutdown g r).0
  after_call call_stop_jobs r = (ref_stop_jobs g r).0
  after_call (call_new_job d) r = (ref_new_job n d r).0
  after_call (call_remove_by_tags tags) r = ref_remove_by_tags n tags r
  after_call (call_remove_job id) r = (ref_remove_job n id r).0
  after_call (call_update id d) r = (ref_update n id d r).0

  abbrev pub after_calls : List (Call D U) → Runtime S E → Runtime S E
  after_calls [] r = r
  after_calls (c ∷ cs) r = after_calls cs (after_call c r)

  after_call-absent : (c : Call D U) (r : Runtime S E) → r.native ≡ none → after_call c r ≡ r
  unfolding ref_start ref_shutdown ref_stop_jobs ref_new_job ref_remove_by_tags ref_remove_job
      ref_update
  after_call-absent call_start r h = ground arith
  after_call-absent call_shutdown r h = ground arith
  after_call-absent call_stop_jobs r h = ground arith
  after_call-absent (call_new_job d) r h = ground arith
  after_call-absent (call_remove_by_tags tags) r h = ground arith
  after_call-absent (call_remove_job id) r h = ground arith
  after_call-absent (call_update id d) r h = ground arith

  after_calls-absent :
      (cs : List (Call D U)) (r : Runtime S E) → r.native ≡ none → after_calls cs r ≡ r
  after_calls-absent [] r h = refl
  after_calls-absent (c ∷ cs) r h =
      ap (after_calls cs) (after_call-absent c r h) ∙ after_calls-absent cs r h

  initialize_failed :
      (r r' : Runtime S E) (e : SchedulerError E)
      → r.native ≡ none
      → initialize g r ≡ (r', some e)
      → r'.native ≡ none
  unfolding initialize construct_and_register ref_start
  initialize_failed r r' e h i = ground arith

  -- After a startup that failed no call of the application creates or runs a native scheduler.
  pub initialize_failed_unused :
      (r r' : Runtime S E) (e : SchedulerError E) (cs : List (Call D U))
      → r.native ≡ none
      → initialize g r ≡ (r', some e)
      → after_calls cs r' ≡ r'
  initialize_failed_unused r r' e cs h i = after_calls-absent cs r' (initialize_failed r r' e h i)
