-- ===== src/Config/Cyclic.antt =====
-- config/config.go: the reflection over a type that contains a pointer to itself.
use hanami.Base.{
  ℕ, zero, suc, ◌==◌, ◌≡◌, refl, ap, ◌∙◌, Bool, true, false, not, Option, none, some, List, [], ◌∷◌,
  ◌++◌, String, ok, branch_elim, arith,
}
use hanami.Config.{
  StructField, Shape, pointer_to, structure, Reflection, field_name, FieldName, skipped, named,
  field_prefix, deref, nested_keys, append_keys, field_keys, struct_keys, Viper, Source, load,
  file_read,
}

-- A structure with an exported field, not skipped, that points to the structure.
pub record IsCyclic (r : Reflection) (t : ℕ) : Type 0 where
  pub before : List StructField
  pub field : StructField
  pub after : List StructField
  pub name : String
  pub inline : Bool
  pub shape : r.shape t ≡ structure (before ++ (field ∷ after))
  pub exported : field.exported ≡ true
  pub is_named : field_name r.to_lower field ≡ named name inline
  pub points : r.shape field.type ≡ pointer_to t
  pub not_context : (t == r.context_type) ≡ false

append_keys-none : (own : Option (List String)) → append_keys own none ≡ none
unfolding append_keys
append_keys-none none = refl
append_keys-none (some own) = refl

name_none :
    (name : FieldName) (x : Option (List String)) (y : String → Bool → Option (List String))
    → x ≡ none
    → ((text : String) (inline : Bool) → y text inline ≡ none)
    → elim name [ skipped ↦ x | named text inline ↦ y text inline ] ≡ none
name_none skipped x y h k = h
name_none (named text inline) x y h k = k text inline

module _ (r : Reflection) where
  -- A field without a result leaves the loop without one.
  field_keys-none :
      (keys : ℕ → String → Option (List String)) (follow : ℕ → Option (ℕ × Shape)) (prefix : String)
      (f : StructField) (before after : List StructField) (name : String) (inline : Bool)
      → f.exported ≡ true
      → field_name r.to_lower f ≡ named name inline
      → nested_keys r keys (follow f.type) (field_prefix prefix name inline) ≡ none
      → field_keys r keys follow prefix (before ++ (f ∷ after)) ≡ none
  unfolding field_keys append_keys
  field_keys-none keys follow prefix f [] after name inline e m n = ground (arith, e, m, n)
  field_keys-none keys follow prefix f (g ∷ before) after name inline e m n =
      let rest = field_keys-none keys follow prefix f before after name inline e m n in
      branch_elim (λ o. o ≡ none) (not g.exported) _ _ (λ q. rest)
        (λ q.
          name_none (field_name r.to_lower g) _ _ rest
            (λ text i. ap (append_keys _) rest ∙ append_keys-none _))

  cyclic_nested :
      (n t : ℕ) (c : IsCyclic r t) (keys : ℕ → String → Option (List String)) (prefix : String)
      → keys t prefix ≡ none
      → nested_keys r keys (deref r n c.field.type) prefix ≡ none
  unfolding nested_keys deref
  cyclic_nested zero t c keys prefix h = refl
  cyclic_nested (suc zero) t c keys prefix h = rw (deref, c.points) refl
  cyclic_nested (suc (suc n)) t c keys prefix h =
      rw (deref, c.points, deref, c.shape, c.not_context) h

  struct_keys-none : (n t : ℕ) (prefix : String) → IsCyclic r t → struct_keys r n t prefix ≡ none
  unfolding struct_keys deref
  struct_keys-none zero t prefix c = refl
  struct_keys-none (suc zero) t prefix c = refl
  struct_keys-none (suc (suc n)) t prefix c =
      let step =
        cyclic_nested (suc n) t c (struct_keys r (suc n)) (field_prefix prefix c.name c.inline)
          (struct_keys-none (suc n) t _ c) in
      rw (struct_keys, deref, c.shape)
        (field_keys-none (struct_keys r (suc n)) (deref r (suc n)) prefix c.field c.before c.after
          c.name c.inline c.exported c.is_named step)

-- Load for a type that contains a pointer to itself gives no result with any fuel, once the context and
-- the file let it come to the keys.
pub load_diverges :
    {F V D C : Type 0} (viper : Viper F V D C) (r : Reflection) (n t : ℕ) (source : Source D)
    (loader : V)
    → IsCyclic r t
    → file_read viper source ≡ ok loader
    → load viper r n t none source ≡ none
unfolding load
load_diverges viper r n t source loader c read = rw (load, read, struct_keys-none r n t "" c) refl
