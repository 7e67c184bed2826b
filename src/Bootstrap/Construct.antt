-- ===== src/Bootstrap/Construct.antt =====
-- bootstrap/condition.go, newCoordinator: the coordinators that are built.
use hanami.Base.{
  ◌≡◌, refl, ◌↔◌, false, none, List, map, arith, All, Nodup, Perm, contains, contains→mem,
  mem→contains, check_each_sound, check_each_complete, IsSorted, sort_by, sort_by-perm,
  sort_by-IsSorted, text_le-total, is_negative, is_blank, is_none, [], ◌∷◌, Mem, not-mem-nil,
}
use hanami.Bootstrap.{
  Condition, check_condition, by_name, condition_errors, new_coordinator, Coordinator, built,
}

-- A condition with a name, a runner and a timeout that is not negative.
abbrev pub IsUsable : {R : Type 0} → Condition R → Type 0
IsUsable c = (is_blank c.name ≡ false) × (is_none c.run ≡ false) × (is_negative c.timeout ≡ false)

module _ {R : Type 0} where
  check_condition-IsUsable : (c : Condition R) → (check_condition c ≡ none) ↔ IsUsable c
  unfolding check_condition
  check_condition-IsUsable c = ground arith

  All-IsUsable :
      (cs : List (Condition R)) → All (λ c. check_condition c ≡ none) cs → All IsUsable cs
  All-IsUsable [] h = tt
  All-IsUsable (c ∷ cs) h = ((check_condition-IsUsable c).0 h.0, All-IsUsable cs h.1)

  All-check_condition :
      (cs : List (Condition R)) → All IsUsable cs → All (λ c. check_condition c ≡ none) cs
  All-check_condition [] h = tt
  All-check_condition (c ∷ cs) h = ((check_condition-IsUsable c).1 h.0, All-check_condition cs h.1)

  All-unseen : (cs : List (Condition R)) → All (λ c. ¬ Mem c.name []) cs
  All-unseen [] = tt
  All-unseen (c ∷ cs) = (not-mem-nil, All-unseen cs)

  condition_errors-none :
      (cs : List (Condition R))
      → (condition_errors cs ≡ none) ↔ (All IsUsable cs × Nodup (map (λ c. c.name) cs))
  unfolding condition_errors
  condition_errors-none cs = (
    λ h.
        let d = check_each_sound contains _ _ _ contains→mem mem→contains [] cs h in
        (All-IsUsable cs d.passes, d.nodup),
    λ h.
        check_each_complete contains _ _ _ contains→mem mem→contains [] cs
          (record { passes = All-check_condition cs h.0; nodup = h.1; unseen = All-unseen cs }),
  )

module _ {R E : Type 0} where
  -- A coordinator is built exactly when every condition has a name, a runner and a timeout that is
  -- not negative, and no two share a name.
  pub new_coordinator-built :
      (cs : List (Condition R))
      → ((c : Coordinator R E) × (new_coordinator cs ≡ built c))
        ↔ (All IsUsable cs × Nodup (map (λ c. c.name) cs))
  unfolding new_coordinator
  new_coordinator-built cs = (
    λ (c, e). (condition_errors-none cs).0 (ground arith),
    λ h. (
      record { conditions = sort_by by_name cs; initialized = false; result = [] },
      rw ((condition_errors-none cs).1 h, new_coordinator) refl,
    ),
  )

  -- The coordinator that is built holds the given conditions, in the order of their names, and
  -- has not run.
  pub new_coordinator-IsSorted :
      (cs : List (Condition R)) (c : Coordinator R E)
      → new_coordinator cs ≡ built c
      → Perm c.conditions cs × IsSorted by_name c.conditions × (c.initialized ≡ false)
  unfolding new_coordinator
  new_coordinator-IsSorted cs c h =
      let e : c.conditions ≡ sort_by by_name cs = ground arith in
      (
        rw e (sort_by-perm by_name cs),
        rw e (sort_by-IsSorted by_name (λ a b. text_le-total a.name b.name) cs),
        ground arith,
      )
