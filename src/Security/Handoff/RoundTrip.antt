-- ===== src/Security/Handoff/RoundTrip.antt =====
-- security/linux/security.go: what is encoded decodes, and what decodes was well formed.
use Prim.Native.Char.{code}
use hanami.Security.Policy.{Policy}
use hanami.Base.{
  ltb, ◌≡◌, refl, true, Bool, not, ◌&&◌, ◌<◌, List, [], ◌∷◌, contains, err, if◌then◌else◌, false,
  none, String, arith, eq_iff, str_eq, is_blank, ok, Result-cases, Option-cases, Bool-cases, sym,
  ap, ◌∙◌, inl, inr,
}
use hanami.Security.Handoff.{
  JsonKind, json_text, json_flag, json_unsigned, JsonValue, JsonField, JsonValues, handoff_fields,
  handoff_values, handoff_of, token_mismatch, Handoff, TokenFields, Codec, validate_handoff_shape,
  handoff_token, encode_handoff, decode_handoff,
}

-- Every field has a name of its own, and none is `-`, which keeps a field out of the JSON.
unfoldable pub is_tagged : List String → List JsonField → Bool
is_tagged seen [] = true
is_tagged seen (f ∷ fs) =
    not (is_blank f.name)
    && not (str_eq f.name "-")
    && not (contains f.name seen)
    && is_tagged (f.name ∷ seen) fs

unfoldable pub is_ascii : String → Bool
is_ascii String.[] = true
is_ascii (String.◌∷◌ c s) = ltb (code c) 128 && is_ascii s

-- A text is ASCII, since JSON replaces what is not UTF-8, and a number is one that its Go type has.
abbrev pub FitsKind : (k : JsonKind) → JsonValue k → Type 0
FitsKind json_text v = is_ascii v ≡ true
FitsKind json_flag v = Unit {0}
FitsKind (json_unsigned limit) v = v < limit

abbrev pub FitsAll : (fs : List JsonField) → JsonValues fs → Type 0
FitsAll [] v = Unit {0}
FitsAll (f ∷ fs) v = FitsKind f.kind v.0 × FitsAll fs v.1

-- What the packages document: what they write they read back, and it is not blank; a digest is hexadecimal. For JSON, of a struct
-- whose fields are all tagged with names of their own.
pub record IsFaithful {F : Type 0} (c : Codec F) : Type 0 where
  pub base64 : (b : String) → c.from_base64 (c.to_base64 b) ≡ ok b
  pub json :
      (fs : List JsonField) (v : JsonValues fs) (b : String)
      → is_tagged [] fs ≡ true
      → FitsAll fs v
      → c.marshal fs v ≡ ok b
      → c.unmarshal fs b ≡ ok v
  pub filled :
      (fs : List JsonField) (v : JsonValues fs) (b : String)
      → c.marshal fs v ≡ ok b
      → is_blank (c.to_base64 b) ≡ false
  pub token_hex : (t : TokenFields) → is_ascii (c.token_digest t) ≡ true
  pub policy_hex : (p : Policy) → is_ascii (c.policy_digest p) ≡ true

-- The texts of a handoff are ASCII, and its numbers are those of their Go types.
abbrev pub IsSized : Handoff → Type 0
IsSized h = FitsAll handoff_fields (handoff_values h)

handoff_fields-tagged : is_tagged [] handoff_fields ≡ true
unfolding is_tagged contains
handoff_fields-tagged = refl

module _ {F : Type 0} (c : Codec F) where
  -- A handoff with ASCII texts comes back from its encoding if it carries the token of its fields; otherwise the decoding ends
  -- with the mismatch of the token.
  pub decode_handoff-encode_handoff :
      (h : Handoff) (raw : String)
      → IsFaithful c
      → IsSized h
      → encode_handoff c h ≡ ok raw
      → decode_handoff c raw
        ≡ (if str_eq (handoff_token c h) h.token then ok h else err token_mismatch)
  unfolding encode_handoff decode_handoff
  decode_handoff-encode_handoff h raw f sized e =
      elim (Option-cases (validate_handoff_shape {F = F} h)) [
        | inr (x, p) ↦ absurd (ground arith)
        | inl p ↦ elim (Result-cases (c.marshal handoff_fields (handoff_values h))) [
          | inl (x, q) ↦ absurd (ground arith)
          | inr (b, q) ↦
              let written : raw ≡ c.to_base64 b = ground arith in
              rw
                (
                  written,
                  decode_handoff,
                  f.base64 b,
                  f.json handoff_fields (handoff_values h) b handoff_fields-tagged sized q,
                  p,
                )
                refl
        ]
      ]

  -- What decodes has the shape of a handoff and carries the token of its fields.
  pub decode_handoff_sound :
      (h : Handoff) (raw : String)
      → decode_handoff c raw ≡ ok h
      → (validate_handoff_shape {F = F} h ≡ none) × (h.token ≡ handoff_token c h)
  unfolding decode_handoff
  decode_handoff_sound h raw e = (
    ground arith,
    elim (Result-cases (c.from_base64 raw)) [
      | inl (x, p) ↦ absurd (ground arith)
      | inr (b, p) ↦ elim (Result-cases (c.unmarshal handoff_fields b)) [
        | inl (x, q) ↦ absurd (ground arith)
        | inr (v, q) ↦
            let k = handoff_of v in
            elim (Option-cases (validate_handoff_shape {F = F} k)) [
              | inr (x, r) ↦ absurd (ground arith)
              | inl r ↦ elim (Bool-cases (str_eq (handoff_token c k) k.token)) [
                | inl t ↦
                    let same : k ≡ h = ground arith in
                    sym (ap (λ x. x.token) same)
                    ∙ sym ((eq_iff _ _).0 t)
                    ∙ ap (handoff_token c) same
                | inr t ↦ absurd (ground arith)
              ]
            ]
      ]
    ],
  )

  -- What an encoding is: never blank.
  pub encode_handoff-filled :
      (h : Handoff) (raw : String)
      → IsFaithful c
      → encode_handoff c h ≡ ok raw
      → is_blank raw ≡ false
  unfolding encode_handoff
  encode_handoff-filled h raw f e = elim (Option-cases (validate_handoff_shape {F = F} h)) [
    | inr (x, p) ↦ absurd (ground arith)
    | inl p ↦ elim (Result-cases (c.marshal handoff_fields (handoff_values h))) [
      | inl (x, q) ↦ absurd (ground arith)
      | inr (b, q) ↦ ground (arith, f.filled handoff_fields (handoff_values h) b q)
    ]
  ]
