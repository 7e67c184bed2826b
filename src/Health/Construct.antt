-- ===== src/Health/Construct.antt =====
-- health/health.go, New: the registries that are built.
use mathlib.Core.List.{mem-cons}
use mathlib.Core.Logic.Or
use hanami.Base.{
  ◌≡◌, refl, ap, ◌↔◌, true, false, none, List, map, arith, All, Nodup, Perm, check_each_sound,
  check_each_complete, IsSorted, sort_by, sort_by-perm, sort_by-IsSorted, compare-flip, is_negative,
  is_blank, is_none, [], ◌∷◌, Mem, not-mem-nil, String, str_eq, eq_iff, ◌==◌, ◌&&◌, ==_iff, ◌⊎◌,
  inl, inr, Bool-cases, Bool,
}
use hanami.Bootstrap.{Admission}
use hanami.Health.{
  Kind, Check, check_error, check_key, has_key, check_errors, check_le, new_registry, Registry,
  built, liveness, readiness,
}

has_key→mem : (k : Kind × String) (xs : List (Kind × String)) → has_key k xs ≡ true → Mem k xs
has_key→mem k [] h = absurd (cc)
has_key→mem k (x ∷ xs) h = elim (Bool-cases (k.0 == x.0 && str_eq k.1 x.1)) [
  | inl e ↦
      let kind : k.0 ≡ x.0 = ground (arith, ==_iff k.0 x.0) in
      let name : k.1 ≡ x.1 = ground (arith, eq_iff k.1 x.1) in
      mem-cons.1 (Or.inl (λ i. (kind i, name i)))
  | inr e ↦ mem-cons.1 (Or.inr (has_key→mem k xs (ground arith)))
]

Bool-set : IsSet Bool
Bool-set = hlevel

mem→has_key : (k : Kind × String) (xs : List (Kind × String)) → Mem k xs → has_key k xs ≡ true
mem→has_key k [] m = absurd (not-mem-nil m)
mem→has_key k (x ∷ xs) m =
    Or.elim (Bool-set _ _) (mem-cons.0 m)
      (λ e.
        let kind : k.0 ≡ x.0 = ap (λ z. z.0) e in
        let name : k.1 ≡ x.1 = ap (λ z. z.1) e in
        ground (arith, ==_iff k.0 x.0, eq_iff k.1 x.1, kind, name))
      (λ r. ground (arith, mem→has_key k xs r))

-- A name, a runner, a kind that exists and a timeout that is not negative.
abbrev pub IsUsable : {F : Type 0} → Check F → Type 0
IsUsable c =
    (is_blank c.name ≡ false)
    × (is_none c.run ≡ false)
    × ((c.kind ≡ liveness) ⊎ (c.kind ≡ readiness))
    × (is_negative c.timeout ≡ false)

module _ {F : Type 0} where
  check_error-IsUsable : (c : Check F) → (check_error c ≡ none) ↔ IsUsable c
  unfolding check_error
  check_error-IsUsable c = ground (arith)

  All-IsUsable : (cs : List (Check F)) → All (λ c. check_error c ≡ none) cs → All IsUsable cs
  All-IsUsable [] h = tt
  All-IsUsable (c ∷ cs) h = ((check_error-IsUsable c).0 h.0, All-IsUsable cs h.1)

  All-check_error : (cs : List (Check F)) → All IsUsable cs → All (λ c. check_error c ≡ none) cs
  All-check_error [] h = tt
  All-check_error (c ∷ cs) h = ((check_error-IsUsable c).1 h.0, All-check_error cs h.1)

  All-unseen : (cs : List (Check F)) → All (λ c. ¬ Mem (check_key c) []) cs
  All-unseen [] = tt
  All-unseen (c ∷ cs) = (not-mem-nil, All-unseen cs)

  check_errors-none :
      (cs : List (Check F))
      → (check_errors cs ≡ none) ↔ (All IsUsable cs × Nodup (map check_key cs))
  unfolding check_errors
  check_errors-none cs = (
    λ h.
        let d = check_each_sound has_key _ _ _ has_key→mem mem→has_key [] cs h in
        (All-IsUsable cs d.passes, d.nodup),
    λ h.
        check_each_complete has_key _ _ _ has_key→mem mem→has_key [] cs
          (record { passes = All-check_error cs h.0; nodup = h.1; unseen = All-unseen cs }),
  )

  check_le-total : (a b : Check F) → check_le a b ≡ false → check_le b a ≡ true
  unfolding check_le
  check_le-total a b h = ground (arith, compare-flip a.name b.name)

  -- A registry is built exactly when every check has a name, a runner, a kind that exists and a
  -- timeout that is not negative, and no two checks share both kind and name.
  pub new_registry-built :
      (cs : List (Check F)) (a : Admission)
      → ((r : Registry F) × (new_registry cs a ≡ built r))
        ↔ (All IsUsable cs × Nodup (map check_key cs))
  unfolding new_registry
  new_registry-built cs a = (
    λ (r, e). (check_errors-none cs).0 (ground arith),
    λ h. (
      record { checks = sort_by check_le cs; admission = a },
      rw ((check_errors-none cs).1 h, new_registry) refl,
    ),
  )

  -- A registry holds exactly the checks it was given, ordered by name and then by kind.
  pub new_registry-IsSorted :
      (cs : List (Check F)) (a : Admission) (r : Registry F)
      → new_registry cs a ≡ built r
      → Perm r.checks cs × IsSorted check_le r.checks
  unfolding new_registry
  new_registry-IsSorted cs a r e =
      let s : r.checks ≡ sort_by check_le cs = ground arith in
      rw s (sort_by-perm check_le cs, sort_by-IsSorted check_le check_le-total cs)
