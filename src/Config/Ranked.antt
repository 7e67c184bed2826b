-- ===== src/Config/Ranked.antt =====
-- config/config.go: the reflection over a type that does not contain itself.
use hanami.Base.{
  ℕ, zero, suc, ◌+◌, ◌≤◌, ◌<◌, ◌==◌, ◌≡◌, refl, sym, Bool, false, Option, none, some, subst, List,
  [], ◌∷◌, ◌++◌, not, branch_elim, option_elim, result_elim, String, Result, arith, inl, inr, ◌⊎◌,
  All,
}
use hanami.Config.{
  StructField, Shape, pointer_to, structure, other_kind, Reflection, field_name, FieldName, skipped,
  named, field_prefix, deref, nested_keys, own_key, append_keys, field_keys, struct_keys, Viper,
  Source, LoadError, load, file_read, bind_all,
}

pub Shape-cases :
    (s : Shape)
    → ((u : ℕ) × (s ≡ pointer_to u))
      ⊎ ((fields : List StructField) × (s ≡ structure fields))
      ⊎ (s ≡ other_kind)
Shape-cases (pointer_to u) = inl (u, refl)
Shape-cases (structure fields) = inr (inl (fields, refl))
Shape-cases other_kind = inr (inr refl)

-- The fuel was enough.
abbrev pub Ends : Option (List String) → Type 0
Ends o = (keys : List String) × (o ≡ some keys)

name_elim :
    (name : FieldName) (x : Option (List String)) (y : String → Bool → Option (List String))
    → Ends x
    → ((text : String) (inline : Bool) → Ends (y text inline))
    → Ends (elim name [ skipped ↦ x | named text inline ↦ y text inline ])
name_elim skipped x y h k = h
name_elim (named text inline) x y h k = k text inline

append_keys_end : (a b : Option (List String)) → Ends a → Ends b → Ends (append_keys a b)
unfolding append_keys
append_keys_end none b h k = absurd (ground arith)
append_keys_end (some xs) none h k = absurd (ground arith)
append_keys_end (some xs) (some ys) h k = (xs ++ ys, refl)

-- What a rank says of the parts of a type: a pointer's type, and the types of the exported fields.
abbrev pub DecreasesBelow : (ℕ → ℕ) → ℕ → Shape → Type 0
DecreasesBelow rank bound (pointer_to u) = rank u < bound
DecreasesBelow rank bound (structure fields) =
    All (λ (f : StructField). (f.exported ≡ false) ⊎ (rank f.type < bound)) fields
DecreasesBelow rank bound other_kind = Unit

module _ (r : Reflection) where
  nested_keys_end :
      (keys : ℕ → String → Option (List String)) (u : ℕ) (s : Shape) (prefix : String)
      → Ends (keys u prefix)
      → Ends (nested_keys r keys (some (u, s)) prefix)
  unfolding nested_keys
  nested_keys_end keys u (structure fields) prefix h =
      branch_elim Ends (not (u == r.context_type)) (keys u prefix) (some (own_key prefix)) (λ _. h)
        (λ _. (own_key prefix, refl))
  nested_keys_end keys u (pointer_to v) prefix h = (own_key prefix, refl)
  nested_keys_end keys u other_kind prefix h = (own_key prefix, refl)

  -- No type is reached from itself through pointers and exported fields: the rank goes down.
  unfoldable pub IsRanked : (ℕ → ℕ) → Type 0
  IsRanked rank = (t : ℕ) → DecreasesBelow rank (rank t) (r.shape t)

  module _ (rank : ℕ → ℕ) (ranked : IsRanked rank) where
    -- The loop through the pointers ends at a type that is no pointer and ranks no higher.
    deref_ends :
        (n t : ℕ) → rank t < n → (u : ℕ) × (deref r n t ≡ some (u, r.shape u)) × (rank u ≤ rank t)
    unfolding deref IsRanked
    deref_ends zero t h = absurd (omega arith)
    deref_ends (suc n) t h = elim (Shape-cases (r.shape t)) [
      | inl (u, e) ↦
          let below : rank u < rank t = subst (DecreasesBelow rank (rank t)) e (ranked t) in
          let (v, ends, less) = deref_ends n u (omega arith) in (v, rw (deref, e) ends, omega arith)
      | inr (inl (fields, e)) ↦ (t, rw (deref, e) refl, omega arith)
      | inr (inr e) ↦ (t, rw (deref, e) refl, omega arith)
    ]

    -- The keys of a type whose fields rank below a bound, when the recursive call ends below it.
    field_keys_end :
        (n bound : ℕ) (keys : ℕ → String → Option (List String)) (prefix : String)
        (fields : List StructField)
        → ((u : ℕ) (before : String) → rank u < bound → Ends (keys u before))
        → bound ≤ n
        → DecreasesBelow rank bound (structure fields)
        → Ends (field_keys r keys (deref r n) prefix fields)
    unfolding field_keys
    field_keys_end n bound keys prefix [] h b d = ([], refl)
    field_keys_end n bound keys prefix (f ∷ fields) h b d =
        let rest = field_keys_end n bound keys prefix fields h b d.1 in
        branch_elim Ends (not f.exported) _ _ (λ e. rest)
          (λ e. name_elim (field_name r.to_lower f) _ _ rest (λ name inline.
            append_keys_end _ _ (follow (below e) (field_prefix prefix name inline)) rest))
      where
        below : not f.exported ≡ false → rank f.type < bound
        below e = elim d.0 [ inl x ↦ absurd (ground arith) | inr x ↦ x ]

        follow :
            rank f.type < bound
            → (before : String) → Ends (nested_keys r keys (deref r n f.type) before)
        follow lt before =
            let (u, ends, less) = deref_ends n f.type (omega arith) in
            subst (λ o. Ends (nested_keys r keys o before)) (sym ends)
              (nested_keys_end keys u (r.shape u) before (h u before (omega arith)))

    struct_keys_end :
        (n t : ℕ) (prefix : String) → suc (rank t) < n → Ends (struct_keys r n t prefix)
    unfolding struct_keys IsRanked
    struct_keys_end zero t prefix h = absurd (omega arith)
    struct_keys_end (suc n) t prefix h =
        let (u, ends, less) = deref_ends n t (omega arith) in
        elim (Shape-cases (r.shape u)) [
          | inl (v, e) ↦ ([], rw (struct_keys, ends, e) refl)
          | inr (inl (fields, e)) ↦
              let (keys, done) =
                field_keys_end n (rank u) (struct_keys r n) prefix fields
                  (λ v before lt. struct_keys_end n v before (omega arith)) (omega arith)
                  (subst (DecreasesBelow rank (rank u)) e (ranked u)) in
              (keys, rw (struct_keys, ends, e) done)
          | inr (inr e) ↦ ([], rw (struct_keys, ends, e) refl)
        ]

abbrev Loads : {F C : Type 0} → Option (Result (LoadError F) C) → Type 0
Loads {F} {C} o = (result : Result (LoadError F) C) × (o ≡ some result)

-- Load for a type that does not contain itself gives a result: two units of fuel beyond the rank of the
-- type are enough, whatever viper and the context answer.
pub load_terminates :
    {F V D C : Type 0} (viper : Viper F V D C) (r : Reflection) (rank : ℕ → ℕ) (n t : ℕ)
    (context : Option F) (source : Source D)
    → IsRanked r rank
    → rank t + 2 ≤ n
    → (result : Result (LoadError F) C) × (load viper r n t context source ≡ some result)
unfolding load
load_terminates viper r rank n t context source ranked enough =
    let (keys, ends) = struct_keys_end r rank ranked n t "" (omega arith) in
    option_elim Loads context _ _ (λ f e. (_, refl))
      (λ e.
        result_elim Loads (file_read viper source) _ _ (λ x e. (_, refl))
          (λ loader e. rw ends (
            result_elim Loads (bind_all viper keys loader) _ _ (λ x e. (_, refl))
              (λ bound e. (_, refl)))))
