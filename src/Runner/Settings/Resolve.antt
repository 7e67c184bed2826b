-- ===== src/Runner/Settings/Resolve.antt =====
-- hanami.go, resolveSettings: the settings of a run.
use mathlib.Core.List.{append-nil, append_assoc}
use hanami.Base.{
  ◌≡◌, refl, sym, ◌∙◌, ap, subst, false, none, some, List, [], ◌∷◌, ◌++◌, map, arith, All, Nodup,
  contains, contains→mem, mem→contains, check_each_sound, is_blank, is_none, is_nonpositive, ok,
  String, >>=-succeeds, if◌then◌else◌,
}
use hanami.Runner.Settings.{
  Spec, Integration, RunSettings, RunOption, RunError, nil_option, with_integration, with_timeouts,
  with_logger, apply, apply_all, integration_errors, integration_name_empty, resolve_settings,
  default_timeouts,
}

module _ {C K V L E : Type 0} where
  -- The integrations that the options select, in their order.
  abbrev pub selected : List (RunOption C K V L E) → List (Integration C K V E)
  selected [] = []
  selected (with_integration (some i) ∷ os) = i ∷ selected os
  selected (_ ∷ os) = selected os

  abbrev pub HasPositiveTimeouts : RunSettings C K V L E → Type 0
  HasPositiveTimeouts s =
      (is_nonpositive s.timeouts.startup ≡ false) × (is_nonpositive s.timeouts.shutdown ≡ false)

  apply-HasPositiveTimeouts :
      (o : RunOption C K V L E) (s s' : RunSettings C K V L E)
      → HasPositiveTimeouts s
      → apply o s ≡ ok s'
      → HasPositiveTimeouts s'
  unfolding apply
  apply-HasPositiveTimeouts nil_option s s' h e = absurd (cc)
  apply-HasPositiveTimeouts (with_integration none) s s' h e = absurd (cc)
  apply-HasPositiveTimeouts (with_integration (some i)) s s' h e = ground arith
  apply-HasPositiveTimeouts (with_timeouts t) s s' h e = ground arith
  apply-HasPositiveTimeouts (with_logger none) s s' h e = absurd (cc)
  apply-HasPositiveTimeouts (with_logger (some l)) s s' h e = ground arith

  apply-selected :
      (o : RunOption C K V L E) (s s' : RunSettings C K V L E)
      → apply o s ≡ ok s'
      → s'.integrations ≡ s.integrations ++ selected (o ∷ [])
  unfolding apply
  apply-selected nil_option s s' e = absurd (cc)
  apply-selected (with_integration none) s s' e = absurd (cc)
  apply-selected (with_integration (some i)) s s' e = ground arith
  apply-selected (with_timeouts t) s s' e = ground (arith, append-nil s.integrations)
  apply-selected (with_logger none) s s' e = absurd (cc)
  apply-selected (with_logger (some l)) s s' e = ground (arith, append-nil s.integrations)

  selected-cons :
      (o : RunOption C K V L E) (os : List (RunOption C K V L E))
      → selected (o ∷ os) ≡ selected (o ∷ []) ++ selected os
  selected-cons nil_option os = refl
  selected-cons (with_integration none) os = refl
  selected-cons (with_integration (some i)) os = refl
  selected-cons (with_timeouts t) os = refl
  selected-cons (with_logger l) os = refl

  apply_all-step :
      (o : RunOption C K V L E) (os : List (RunOption C K V L E)) (s s' : RunSettings C K V L E)
      → apply_all (o ∷ os) s ≡ ok s'
      → (t : RunSettings C K V L E) × (apply o s ≡ ok t) × (apply_all os t ≡ ok s')
  unfolding apply_all
  apply_all-step o os s s' e = >>=-succeeds (apply_all os) (apply o s) e

  apply_all-HasPositiveTimeouts :
      (os : List (RunOption C K V L E)) (s s' : RunSettings C K V L E)
      → HasPositiveTimeouts s
      → apply_all os s ≡ ok s'
      → HasPositiveTimeouts s'
  unfolding apply_all
  apply_all-HasPositiveTimeouts [] s s' h e = ground arith
  apply_all-HasPositiveTimeouts (o ∷ os) s s' h e =
      let (t, f, g) = apply_all-step o os s s' e in
      apply_all-HasPositiveTimeouts os t s' (apply-HasPositiveTimeouts o s t h f) g

  apply_all-selected :
      (os : List (RunOption C K V L E)) (s s' : RunSettings C K V L E)
      → apply_all os s ≡ ok s'
      → s'.integrations ≡ s.integrations ++ selected os
  unfolding apply_all
  apply_all-selected [] s s' e = ground (arith, append-nil s.integrations)
  apply_all-selected (o ∷ os) s s' e =
      let (t, f, g) = apply_all-step o os s s' e in
      apply_all-selected os t s' g
      ∙ ap (λ l. l ++ selected os) (apply-selected o s t f)
      ∙ append_assoc s.integrations (selected (o ∷ [])) (selected os)
      ∙ ap (◌++◌ s.integrations) (sym (selected-cons o os))

abbrev unnamed : (E : Type 0) → RunError E
unnamed E = integration_name_empty

module _ {C K V E : Type 0} where
  All-named :
      (is : List (Integration C K V E))
      → All (λ i. (if is_blank i.name then some (unnamed E) else none) ≡ none) is
      → All (λ i. is_blank i.name ≡ false) is
  All-named [] h = tt
  All-named (i ∷ is) h = (ground arith, All-named is h.1)

  integration_errors-none :
      (is : List (Integration C K V E))
      → integration_errors is ≡ none
      → All (λ i. is_blank i.name ≡ false) is × Nodup (map (λ i. i.name) is)
  unfolding integration_errors
  integration_errors-none is h =
      let d = check_each_sound contains _ _ _ contains→mem mem→contains [] is h in
      (All-named is d.passes, d.nodup)

module _ {C K V M L E : Type 0} (default_logger : String → L) where
  -- Settings come only from a specification with a name, a loader and a module factory; their
  -- timeouts are positive, and their integrations are those that the options select, in that order,
  -- with names that are not blank and all different.
  pub resolve_settings-ok :
      (spec : Spec C M E) (options : List (RunOption C K V L E)) (s : RunSettings C K V L E)
      → resolve_settings default_logger spec options ≡ ok s
      → ((is_blank spec.name ≡ false)
          × (is_none spec.load ≡ false)
          × (is_none spec.modules ≡ false))
        × (HasPositiveTimeouts s
            × (s.integrations ≡ selected options)
            × All (λ i. is_blank i.name ≡ false) s.integrations
            × Nodup (map (λ i. i.name) s.integrations))
  unfolding resolve_settings
  resolve_settings-ok spec options s h =
      let spec_ok : (is_blank spec.name ≡ false)
          × (is_none spec.load ≡ false)
          × (is_none spec.modules ≡ false) =
        ground arith in
      let initial : RunSettings C K V L E = record {
        integrations = [];
        timeouts = default_timeouts;
        logger = default_logger spec.name;
      } in
      let (t, applied, checked) =
        >>=-succeeds _ (apply_all options initial) (rw (spec_ok.0, spec_ok.1, spec_ok.2) at h) in
      let e : (integration_errors t.integrations ≡ none) × (t ≡ s) = ground arith in
      (
        spec_ok,
        subst
            (λ z.
              HasPositiveTimeouts z
              × (z.integrations ≡ selected options)
              × All (λ i. is_blank i.name ≡ false) z.integrations
              × Nodup (map (λ i. i.name) z.integrations))
            e.1
            (
              apply_all-HasPositiveTimeouts options initial t (refl, refl) applied,
              apply_all-selected options initial t applied,
              (integration_errors-none t.integrations e.0).0,
              (integration_errors-none t.integrations e.0).1,
            ),
      )
