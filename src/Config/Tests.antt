-- ===== src/Config/Tests.antt =====
-- A configuration with a section behind a pointer, and one that points to itself.
use hanami.Base.{
  ℕ, zero, suc, ◌≡◌, refl, true, false, none, some, List, [], ◌∷◌, String, Result, ok, arith, inr,
}
use hanami.Config.{
  StructField, Shape, pointer_to, structure, other_kind, Reflection, tag_parts, has_inline,
  name_from, field_name, field_prefix, deref, named, nested_keys, append_keys, field_keys,
  struct_keys, Viper, Source, LoadError, load, file_read, configured, set_all,
}
use hanami.Config.Ranked.{IsRanked, load_terminates}
use hanami.Config.Cyclic.{IsCyclic, load_diverges}

abbrev field_of : String → String → ℕ → StructField
field_of name tag type = record {
  name = name;
  exported = true;
  anonymous = false;
  tags = tag ∷ "" ∷ "" ∷ "" ∷ [];
  type = type;
}

-- Type 0 has an address and a pointer (2) to the section 3; type 4 has a pointer (5) to itself.
abbrev shapes : ℕ → Shape
shapes zero = structure (field_of "Address" "address" 1 ∷ field_of "Database" "database" 2 ∷ [])
shapes (suc zero) = other_kind
shapes (suc (suc zero)) = pointer_to 3
shapes (suc (suc (suc zero))) = structure (field_of "Name" "" 1 ∷ field_of "Extra" "-" 1 ∷ [])
shapes (suc (suc (suc (suc zero)))) =
    structure (field_of "Label" "" 1 ∷ field_of "Next" "next" 5 ∷ [])
shapes (suc (suc (suc (suc (suc zero))))) = pointer_to 4
shapes (suc (suc (suc (suc (suc (suc n)))))) = other_kind

abbrev acyclic_shapes : ℕ → Shape
acyclic_shapes zero = shapes 0
acyclic_shapes (suc zero) = other_kind
acyclic_shapes (suc (suc zero)) = pointer_to 3
acyclic_shapes (suc (suc (suc zero))) = shapes 3
acyclic_shapes (suc (suc (suc (suc n)))) = other_kind

abbrev lowered : String → String
lowered s = s

abbrev acyclic : Reflection
acyclic = record { shape = acyclic_shapes; context_type = 9; to_lower = lowered }

abbrev cyclic : Reflection
cyclic = record { shape = shapes; context_type = 9; to_lower = lowered }

abbrev rank : ℕ → ℕ
rank zero = 3
rank (suc zero) = 0
rank (suc (suc zero)) = 2
rank (suc (suc (suc n))) = 1

acyclic-IsRanked : IsRanked acyclic rank
unfolding IsRanked
acyclic-IsRanked zero = (inr (omega arith), (inr (omega arith), _))
acyclic-IsRanked (suc zero) = _
acyclic-IsRanked (suc (suc zero)) = omega arith
acyclic-IsRanked (suc (suc (suc zero))) = (inr (omega arith), (inr (omega arith), _))
acyclic-IsRanked (suc (suc (suc (suc n)))) = _

keys_bound : struct_keys acyclic 5 0 "" ≡ some ("address" ∷ "database.Name" ∷ [])
unfolding struct_keys field_keys nested_keys append_keys deref field_name name_from tag_parts
    has_inline field_prefix
keys_bound = refl

abbrev viper : Viper ℕ (List String) ℕ (List String)
viper = record {
  fresh = [];
  set_env_prefix = λ prefix v. v;
  automatic_env = λ v. v;
  set_default = λ key value v. v;
  set = λ key value v. v;
  set_config_file = λ file v. v;
  read_in_config = λ v. ok v;
  bind_env = λ key v. ok (key ∷ v);
  unmarshal = λ v. ok v;
  unmarshal_exact = λ v. ok v;
  validate_pointer = none;
  validate_value = none;
}

abbrev source : Source ℕ
source = record {
  file = "";
  env_prefix = "APP";
  defaults = [];
  overrides = [];
  allow_unused = false;
}

load_terminates_example :
    (result : Result (LoadError ℕ) (List String)) × (load viper acyclic 5 0 none source
      ≡ some result)
load_terminates_example =
    load_terminates viper acyclic rank 5 0 none source acyclic-IsRanked (omega arith)

next_is_named : field_name lowered (field_of "Next" "next" 5) ≡ named "next" false
unfolding field_name name_from tag_parts has_inline
next_is_named = refl

self_pointing : IsCyclic cyclic 4
self_pointing = record {
  before = field_of "Label" "" 1 ∷ [];
  field = field_of "Next" "next" 5;
  after = [];
  name = "next";
  inline = false;
  shape = refl;
  exported = refl;
  is_named = next_is_named;
  points = refl;
  not_context = refl;
}

nothing_read : file_read viper source ≡ ok []
unfolding file_read configured set_all
nothing_read = refl

load_diverges_example : load viper cyclic 1000 4 none source ≡ none
load_diverges_example = load_diverges viper cyclic 1000 4 source [] self_pointing nothing_read
