-- ===== src/Bootstrap/Startup.antt =====
-- bootstrap/condition.go, Initialize: a run of the startup conditions.
use mathlib.Core.List.{filter_map, filter_map-cons-none, filter_map-cons-some}
use mathlib.Core.List.Perm
use mathlib.Core.List.{append-nil, append_assoc}
use hanami.Base.{
  ◌≡◌, refl, sym, ◌∙◌, ap, ◌↔◌, false, Option, none, some, List, [], ◌∷◌, ◌++◌, map, arith, All,
  Perm, Option-cases, inl, inr, All-map, subst,
}
use hanami.Bootstrap.{
  Condition, Coordinator, Failure, Race, Outcome, condition_outcome, join_outcomes, initialize,
}

module _ {E : Type 0} where
  abbrev pub failure_of : Outcome E → Option (Failure E)
  failure_of o = elim o.err [
    | none ↦ none
    | some e ↦ some (record { condition = o.name; error = e })
  ]

  -- The failures among the outcomes, in their order.
  abbrev pub failures : List (Outcome E) → List (Failure E)
  failures = filter_map failure_of

  failures-empty : failures [] ≡ []
  unfolding filter_map
  failures-empty = refl

  join_outcomes-passed :
      (result : List (Failure E)) (o : Outcome E) (os : List (Outcome E))
      → o.err ≡ none
      → join_outcomes result (o ∷ os) ≡ join_outcomes result os
  unfolding join_outcomes
  join_outcomes-passed result o os e = rw (e, join_outcomes)

  join_outcomes-failed :
      (result : List (Failure E)) (o : Outcome E) (os : List (Outcome E)) (x : E)
      → o.err ≡ some x
      → join_outcomes result (o ∷ os)
        ≡ join_outcomes (result ++ record { condition = o.name; error = x } ∷ []) os
  unfolding join_outcomes
  join_outcomes-failed result o os x e = rw (e, join_outcomes)

  join_outcomes-failures :
      (result : List (Failure E)) (os : List (Outcome E))
      → join_outcomes result os ≡ result ++ failures os
  unfolding join_outcomes
  join_outcomes-failures result [] = rw failures-empty (sym (append-nil result))
  join_outcomes-failures result (o ∷ os) = elim (Option-cases o.err) [
    | inl e ↦
        join_outcomes-passed result o os e
        ∙ join_outcomes-failures result os
        ∙ ap (◌++◌ result) (sym (filter_map-cons-none failure_of o os (rw e)))
    | inr (x, e) ↦
        let f : Failure E = record { condition = o.name; error = x } in
        join_outcomes-failed result o os x e
        ∙ join_outcomes-failures (result ++ (f ∷ [])) os
        ∙ append_assoc result (f ∷ []) (failures os)
        ∙ ap (◌++◌ result) (sym (filter_map-cons-some failure_of o os {b = f} (rw e)))
  ]

  failures-nil : (os : List (Outcome E)) → (failures os ≡ []) ↔ All (λ o. o.err ≡ none) os
  failures-nil [] = (λ _. tt, λ _. failures-empty)
  failures-nil (o ∷ os) = elim (Option-cases o.err) [
    | inl e ↦
        let k = filter_map-cons-none failure_of o os (rw e) in
        (λ h. (e, (failures-nil os).0 (sym k ∙ h)), λ h. k ∙ (failures-nil os).1 h.1)
    | inr (x, e) ↦
        let k =
          filter_map-cons-some failure_of o os {b = record { condition = o.name; error = x }}
            (rw e) in
        (λ h. absurd (cc (k, h)), λ h. absurd (cc (h.0, e)))
  ]

module _ {R E : Type 0} (race : Condition R → Race E) (c : Coordinator R E)
    (arrivals : List (Outcome E)) where
  -- In whatever order the outcomes arrive, the first run records each failed condition once, with
  -- its error, and nothing else; so its result is nil exactly when every condition passed.
  pub initialize-failures :
      c.initialized ≡ false
      → Perm arrivals (map (condition_outcome race) c.conditions)
      → Perm (initialize arrivals c).result (failures (map (condition_outcome race) c.conditions))
        × (((initialize arrivals c).result ≡ [])
            ↔ All (λ k. (condition_outcome race k).err ≡ none) c.conditions)
  unfolding initialize
  initialize-failures h p =
      let e : (initialize arrivals c).result ≡ failures arrivals =
        rw (h, initialize) (join_outcomes-failures [] arrivals) in
      let q = Perm.filter_map failure_of p in
      let every = All-map (λ o. o.err ≡ none) (condition_outcome race) c.conditions in
      (
        rw e q,
        (
          λ n. every.0 (
              (failures-nil _).0 (
                sym (
                  Perm.nil-eq (
                    subst (λ z. Perm z (failures (map (condition_outcome race) c.conditions)))
                      (sym e ∙ n) q)))),
          λ a.
              e ∙ Perm.eq-nil (subst (Perm (failures arrivals)) ((failures-nil _).1 (every.1 a)) q),
        ),
      )

  -- A second call, with whatever outcomes, runs nothing: it returns the first result.
  pub initialize-initialize :
      (later : List (Outcome E)) → initialize later (initialize arrivals c) ≡ initialize arrivals c
  unfolding initialize
  initialize-initialize later = ground arith
