-- ===== src/Config.antt =====
-- config/config.go: the keys that the reflection over a configuration type binds to the environment, and
-- Load. The types are a table: a Go type may refer to itself. Viper is an interface.
pub mod Ranked
pub mod Cyclic
mod Tests
use Prim.Native.Char.{code}
use Prim.Native.String
use Prim.Native.String.{◌++◌ as text_append}
use hanami.Base.{
  ℕ, zero, suc, ◌==◌, Bool, true, false, not, ◌&&◌, ◌||◌, Option, none, some, List, [], ◌∷◌, ◌++◌,
  String, is_blank, str_eq, if◌then◌else◌, Result, ok, err,
}

-- What `Tag.Get` answers for the four keys, in the order of the loop.
pub record StructField : Type 0 where
  pub name : String
  pub exported : Bool
  pub anonymous : Bool
  pub tags : List String
  pub type : ℕ

-- The kinds that the code tells apart.
pub data Shape : Type 0 where
  pointer_to : ℕ → Shape
  structure : List StructField → Shape
  other_kind : Shape

-- `reflect`: the shape of each type, the type context.Context, and `strings.ToLower`.
pub record Reflection : Type 0 where
  pub shape : ℕ → Shape
  pub context_type : ℕ
  pub to_lower : String → String

-- `parts[0]` and `parts[1:]` of `strings.Split(tag, ",")`.
unfoldable pub tag_parts : String → String × List String
tag_parts String.[] = ("", [])
tag_parts (String.◌∷◌ c s) =
    let rest = tag_parts s in
    if code c == 44 then ("", rest.0 ∷ rest.1) else (String.◌∷◌ c rest.0, rest.1)

unfoldable pub has_inline : List String → Bool
has_inline [] = false
has_inline (option ∷ options) =
    str_eq option "squash" || str_eq option "inline" || has_inline options

pub data FieldName : Type 0 where
  skipped : FieldName
  named : String → Bool → FieldName

-- `inline` is kept from one tag to the next.
unfoldable pub name_from : (String → String) → StructField → List String → Bool → FieldName
name_from to_lower f [] inline =
    if f.anonymous
    then named "" true
    else if is_blank f.name
    then skipped
    else named (to_lower f.name) inline
name_from to_lower f (tag ∷ tags) inline =
    let parts = tag_parts tag in
    let marked = inline || has_inline parts.1 in
    let same = name_from to_lower f tags inline in
    let next = name_from to_lower f tags marked in
    if is_blank tag
    then same
    else if str_eq parts.0 "-"
    then skipped
    else if not (is_blank parts.0)
    then named parts.0 marked
    else next

unfoldable pub field_name : (String → String) → StructField → FieldName
field_name to_lower f = name_from to_lower f f.tags false

unfoldable pub field_prefix : String → String → Bool → String
field_prefix before name inline =
    if inline
    then before
    else if is_blank before
    then name
    else text_append before (text_append "." name)

unfoldable pub append_keys : Option (List String) → Option (List String) → Option (List String)
append_keys none rest = none
append_keys (some own) none = none
append_keys (some own) (some rest) = some (own ++ rest)

-- A key is bound unless it is blank.
abbrev pub own_key : String → List String
own_key prefix = if not (is_blank prefix) then prefix ∷ [] else []

module _ (r : Reflection) where
  -- The loop through the pointers, on fuel: `none` when the fuel is spent.
  unfoldable pub deref : ℕ → ℕ → Option (ℕ × Shape)
  deref zero t = none
  deref (suc n) t = elim (r.shape t) [
    | pointer_to u ↦ deref n u
    | structure fields ↦ some (t, structure fields)
    | other_kind ↦ some (t, other_kind)
  ]

  -- The keys of one field that is exported and not skipped.
  unfoldable pub nested_keys :
      (ℕ → String → Option (List String)) → Option (ℕ × Shape) → String → Option (List String)
  nested_keys keys none prefix = none
  nested_keys keys (some (t, structure fields)) prefix =
      if not (t == r.context_type) then keys t prefix else some (own_key prefix)
  nested_keys keys (some (t, pointer_to u)) prefix = some (own_key prefix)
  nested_keys keys (some (t, other_kind)) prefix = some (own_key prefix)

  -- The loop over the fields; `keys` is the recursive call.
  unfoldable pub field_keys :
      (ℕ → String → Option (List String))
      → (ℕ → Option (ℕ × Shape))
      → String
      → List StructField
      → Option (List String)
  field_keys keys follow prefix [] = some []
  field_keys keys follow prefix (f ∷ fields) =
      let rest = field_keys keys follow prefix fields in
      if not f.exported then rest else elim (field_name r.to_lower f) [
        | skipped ↦ rest
        | named name inline ↦
            append_keys (nested_keys keys (follow f.type) (field_prefix prefix name inline)) rest
      ]

  unfoldable pub struct_keys : ℕ → ℕ → String → Option (List String)
  struct_keys zero t prefix = none
  struct_keys (suc n) t prefix = elim (deref n t) [
    | none ↦ none
    | some (u, structure fields) ↦ field_keys (struct_keys n) (deref n) prefix fields
    | some (u, pointer_to v) ↦ some []
    | some (u, other_kind) ↦ some []
  ]

-- What the code calls of a viper instance; `fresh` is a new one with its key replacer.
pub record Viper (F V D C : Type 0) : Type 0 where
  pub fresh : V
  pub set_env_prefix : String → V → V
  pub automatic_env : V → V
  pub set_default : String → D → V → V
  pub set : String → D → V → V
  pub set_config_file : String → V → V
  pub read_in_config : V → Result F V
  pub bind_env : String → V → Result F V
  pub unmarshal : V → Result F C
  pub unmarshal_exact : V → Result F C
  pub validate_pointer : Option (C → Option F)
  pub validate_value : Option (C → Option F)

pub record Source (D : Type 0) : Type 0 where
  pub file : String
  pub env_prefix : String
  pub defaults : List (String × D)
  pub overrides : List (String × D)
  pub allow_unused : Bool

pub data LoadError (F : Type 0) : Type 0 where
  cancelled read_failed decode_failed validate_failed : F → LoadError F
  bind_failed : String → F → LoadError F

module _ {F V D C : Type 0} (viper : Viper F V D C) where
  unfoldable pub set_all : (String → D → V → V) → List (String × D) → V → V
  set_all put [] loader = loader
  set_all put ((key, value) ∷ rest) loader = set_all put rest (put key value loader)

  unfoldable pub bind_all : List String → V → Result (LoadError F) V
  bind_all [] loader = ok loader
  bind_all (key ∷ keys) loader = elim (viper.bind_env key loader) [
    | err f ↦ err (bind_failed key f)
    | ok next ↦ bind_all keys next
  ]

  unfoldable pub validated_config : C → Result (LoadError F) C
  validated_config result = elim viper.validate_pointer [
    | some validate ↦ elim (validate result) [ some f ↦ err (validate_failed f) | none ↦ ok result ]
    | none ↦ elim viper.validate_value [
      | some validate ↦ elim (validate result) [
        | some f ↦ err (validate_failed f)
        | none ↦ ok result
      ]
      | none ↦ ok result
    ]
  ]

  unfoldable pub decoded : Source D → V → Result (LoadError F) C
  decoded source loader =
      elim (if source.allow_unused then viper.unmarshal loader else viper.unmarshal_exact loader) [
        | err f ↦ err (decode_failed f)
        | ok result ↦ validated_config result
      ]

  unfoldable pub configured : Source D → V
  configured source =
      let prefixed =
        if not (is_blank source.env_prefix)
        then viper.set_env_prefix source.env_prefix viper.fresh
        else viper.fresh in
      set_all viper.set source.overrides
        (set_all viper.set_default source.defaults (viper.automatic_env prefixed))

  unfoldable pub file_read : Source D → Result (LoadError F) V
  file_read source =
      if not (is_blank source.file)
      then elim (viper.read_in_config (viper.set_config_file source.file (configured source))) [
        | err f ↦ err (read_failed f)
        | ok loader ↦ ok loader
      ]
      else ok (configured source)

  -- Load for the type `t`, with fuel for the keys; the first argument is the error of the context.
  unfoldable pub load : Reflection → ℕ → ℕ → Option F → Source D → Option (Result (LoadError F) C)
  load r n t context source = elim context [
    | some f ↦ some (err (cancelled f))
    | none ↦ elim (file_read source) [
      | err e ↦ some (err e)
      | ok loader ↦ elim (struct_keys r n t "") [
        | none ↦ none
        | some keys ↦ elim (bind_all keys loader) [
          | err e ↦ some (err e)
          | ok bound ↦ some (decoded source bound)
        ]
      ]
    ]
  ]
