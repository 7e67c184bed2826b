-- ===== src/Runner/Phases/Holding.antt =====
-- hanami.go, Run: what the first integration holds over the run.
use mathlib.Core.List.{reverse-cons}
use hanami.Base.{
  String, ◌≡◌, refl, sym, ap, ◌∙◌, subst, Option, some, List, [], ◌∷◌, ◌++◌, map, reverse, ok,
  Result-cases, option_elim, result_elim, inl, inr,
}
use hanami.Runner.Settings.{Integration, Prepared}
use hanami.Runner.Phases.{
  Composition, build_modules, prepare_from, prepare_integrations, Application, Effect, acquired,
  released, composed, started, initialized, admission_opened, admission_closed, stopped, Exit,
  run_cleanups, launch, run_prepared, list_of,
}
use hanami.Runner.Phases.Cleaning.{releases, run_cleanups-effects, prepare_integrations-effects}
use hanami.Runner.Phases.Trace.{supervise-effects}

-- The last effect is the release of `k`.
abbrev pub EndsWith : {K : Type 0} → K → List (Effect K) → Type 0
EndsWith {K} k es = (before : List (Effect K)) × (es ≡ before ++ (released k ∷ []))

-- The first effect is the acquisition of `k`, the last its release.
abbrev pub IsHeld : {K : Type 0} → K → List (Effect K) → Type 0
IsHeld {K} k es = (between : List (Effect K)) × (es ≡ acquired k ∷ (between ++ (released k ∷ [])))

module _ {K : Type 0} (k : K) where
  cons-EndsWith : (e : Effect K) (es : List (Effect K)) → EndsWith k es → EndsWith k (e ∷ es)
  cons-EndsWith e es (before, h) = (e ∷ before, ap (λ x. e ∷ x) h)

  append-EndsWith : (xs es : List (Effect K)) → EndsWith k es → EndsWith k (xs ++ es)
  append-EndsWith [] es h = h
  append-EndsWith (x ∷ xs) es h = cons-EndsWith x (xs ++ es) (append-EndsWith xs es h)

  held : (es : List (Effect K)) → EndsWith k es → IsHeld k (acquired k ∷ es)
  held es (before, h) = (before, ap (λ x. acquired k ∷ x) h)

  map-EndsWith : (ks : List K) → EndsWith k (map released (ks ++ (k ∷ [])))
  map-EndsWith [] = ([], refl)
  map-EndsWith (x ∷ ks) = cons-EndsWith _ _ (map-EndsWith ks)

  releases-EndsWith : (ks : List K) → EndsWith k (releases (k ∷ ks))
  releases-EndsWith ks =
      subst (λ xs. EndsWith k (map released xs)) (sym (reverse-cons k ks))
        (map-EndsWith (reverse ks))

-- The cleanups that are held already stay the first.
prepare_from-first :
    {C K V E : Type 0} (k : K) (config : C) (is : List (Integration C K V E)) (cs : List K)
    (vs : List V) (es : List (Effect K))
    → (ks : List K) × ((prepare_from (k ∷ cs) vs es config is).cleanups ≡ k ∷ ks)
unfolding prepare_from
prepare_from-first k config [] cs vs es = (cs, refl)
prepare_from-first k config (i ∷ is) cs vs es = elim (Result-cases (i.prepare config)) [
  | inl (e, q) ↦ (cs, rw (prepare_from, q) refl)
  | inr (p, q) ↦
      let (ks, h) =
        prepare_from-first k config is (cs ++ list_of p.cleanup) (vs ++ p.values)
          (es ++ map acquired (list_of p.cleanup)) in
      (ks, rw (prepare_from, q) h)
]

module _ {K E : Type 0} (clean : K → Option E) (k : K) (ks : List K) where
  run_cleanups-EndsWith : EndsWith k (run_cleanups clean (k ∷ ks)).effects
  run_cleanups-EndsWith =
      subst (EndsWith k) (sym (run_cleanups-effects clean (k ∷ ks))) (releases-EndsWith k ks)

  launch-IsHeld :
      (app : Application E) (rest : List (Effect K))
      → IsHeld k (launch clean (k ∷ ks) app (acquired k ∷ rest)).effects
  unfolding launch
  launch-IsHeld app rest =
      let P = λ (x : Exit K E). IsHeld k x.effects in
      let last = run_cleanups-EndsWith in
      option_elim P app.composition_err _ _ (λ e q. held k _ (append-EndsWith k rest _ last))
        (λ q.
          option_elim P app.start _ _
            (λ e q.
              held k _
                (append-EndsWith k rest _ (append-EndsWith k (composed ∷ stopped ∷ []) _ last)))
            (λ q.
              option_elim P app.initialize _ _
                (λ e q. held k _ (
                  append-EndsWith k rest _ (
                    append-EndsWith k (composed ∷ started ∷ admission_closed ∷ stopped ∷ []) _
                      last)))
                (λ q.
                  subst (IsHeld k)
                    (sym (
                      supervise-effects clean (k ∷ ks) app
                        (acquired k ∷ (rest ++ (composed ∷ started ∷ initialized ∷ [])))))
                    (held k _ (
                      append-EndsWith k _ _ (
                        append-EndsWith k (admission_opened ∷ admission_closed ∷ stopped ∷ []) _
                          last))))))

prepared_first :
    {C K V E : Type 0} (config : C) (i : Integration C K V E) (is : List (Integration C K V E))
    (p : Prepared K V) (k : K)
    → i.prepare config ≡ ok p
    → p.cleanup ≡ some k
    → (ks : List K) × ((prepare_integrations config (i ∷ is)).cleanups ≡ k ∷ ks)
unfolding prepare_integrations
prepared_first config i is p k prepares cleans =
    let (ks, first) = prepare_from-first k config is [] p.values (acquired k ∷ []) in
    (ks, rw (prepare_from, prepares, cleans) first)

-- What the first integration acquires is acquired before anything else happens and released after
-- everything else, however the run ends.
pub run_prepared-IsHeld :
    {C K V M L E : Type 0} (default_logger : String → L) (clean : K → Option E)
    (application : M → List V → Application E) (factory : C → Composition M E) (config : C)
    (i : Integration C K V E) (is : List (Integration C K V E)) (p : Prepared K V) (k : K)
    → i.prepare config ≡ ok p
    → p.cleanup ≡ some k
    → IsHeld k (run_prepared default_logger clean application factory config (i ∷ is)).effects
unfolding run_prepared
run_prepared-IsHeld default_logger clean application factory config i is p k prepares cleans =
    let P = λ (x : Exit _ _). IsHeld k x.effects in
    let prepared = prepare_integrations config (i ∷ is) in
    let (ks, same) = prepared_first config i is p k prepares cleans in
    let first : prepared.effects ≡ acquired k ∷ map acquired ks =
      prepare_integrations-effects config (i ∷ is) ∙ ap (λ cs. map acquired cs) same in
    let unwound : IsHeld k (prepared.effects ++ (run_cleanups clean prepared.cleanups).effects) =
      subst (λ es. IsHeld k (es ++ (run_cleanups clean prepared.cleanups).effects)) (sym first)
        (subst (λ cs. IsHeld k ((acquired k ∷ map acquired ks) ++ (run_cleanups clean cs).effects))
          (sym same)
          (held k _ (append-EndsWith k (map acquired ks) _ (run_cleanups-EndsWith clean k ks)))) in
    option_elim P prepared.failure _ _ (λ e q. unwound)
      (λ q.
        result_elim P (build_modules factory config) _ _ (λ e r. unwound)
          (λ m r.
            subst
              (λ es.
                IsHeld k
                  (launch clean prepared.cleanups (application m prepared.values) es).effects)
              (sym first)
              (subst
                (λ cs.
                  IsHeld k
                    (launch clean cs (application m prepared.values)
                      (acquired k ∷ map acquired ks)).effects)
                (sym same)
                (launch-IsHeld clean k ks (application m prepared.values) (map acquired ks)))))
