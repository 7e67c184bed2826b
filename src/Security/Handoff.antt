-- ===== src/Security/Handoff.antt =====
-- security/linux/security.go and platform_linux.go: the proof of enforcement that a process hands to the
-- image that replaces it. JSON, base64 and SHA-256 are an interface, `Codec`; what opening the
-- probe's path answers in the kernel is an argument.
pub mod RoundTrip
pub mod Verification
use Prim.Native.Char.{code}
use Prim.Native.String
use Prim.Native.String.{◌++◌ as text_append}
use hanami.Base.{
  ℕ, ◌==◌, Bool, true, false, not, ◌&&◌, ◌||◌, Option, none, some, List, [], ◌∷◌, ◌++◌, String,
  is_blank, str_eq, starts_with, if◌then◌else◌, Result, ok, err, ◌>>=◌,
}
use hanami.Security.Policy.{Policy, Grant, normalized, wants_landlock}

abbrev pub handoff_version : ℕ
handoff_version = 1

-- The JSON kinds of Go's fields: a text, a flag, and an unsigned number with the number of its values.
pub data JsonKind : Type 0 where
  json_text json_flag : JsonKind
  json_unsigned : ℕ → JsonKind

abbrev pub JsonValue : JsonKind → Type 0
JsonValue json_text = String
JsonValue json_flag = Bool
JsonValue (json_unsigned limit) = ℕ

-- A field's `json` tag: its name, and whether it is left out when it is zero.
pub record JsonField : Type 0 where
  pub name : String
  pub kind : JsonKind
  pub omit_empty : Bool

-- The values of a struct with these fields.
abbrev pub JsonValues : List JsonField → Type 0
JsonValues [] = Unit {0}
JsonValues (f ∷ fs) = JsonValue f.kind × JsonValues fs

abbrev pub uint32_values : ℕ
uint32_values = 4294967296

abbrev pub uint64_values : ℕ
uint64_values = 18446744073709551616

pub record Handoff : Type 0 where
  pub version : ℕ
  pub policy_digest : String
  pub landlock_enforced : Bool
  pub seccomp_enforced : Bool
  pub probe_path : String
  pub probe_dev : ℕ
  pub probe_ino : ℕ
  pub probe_mode : ℕ
  pub token : String

-- The tags of `Handoff`.
abbrev pub handoff_fields : List JsonField
handoff_fields =
    record { name = "version"; kind = json_unsigned uint32_values; omit_empty = false }
    ∷ record { name = "policy_digest"; kind = json_text; omit_empty = false }
    ∷ record { name = "landlock_enforced"; kind = json_flag; omit_empty = false }
    ∷ record { name = "seccomp_enforced"; kind = json_flag; omit_empty = false }
    ∷ record { name = "probe_path"; kind = json_text; omit_empty = true }
    ∷ record { name = "probe_dev"; kind = json_unsigned uint64_values; omit_empty = true }
    ∷ record { name = "probe_ino"; kind = json_unsigned uint64_values; omit_empty = true }
    ∷ record { name = "probe_mode"; kind = json_unsigned uint32_values; omit_empty = true }
    ∷ record { name = "token"; kind = json_text; omit_empty = false }
    ∷ []

abbrev pub handoff_values : Handoff → JsonValues handoff_fields
handoff_values h = (
  h.version,
  (
    h.policy_digest,
    (
      h.landlock_enforced,
      (
        h.seccomp_enforced,
        (h.probe_path, (h.probe_dev, (h.probe_ino, (h.probe_mode, (h.token, tt))))),
      ),
    ),
  ),
)

abbrev pub handoff_of : JsonValues handoff_fields → Handoff
handoff_of v = record {
  version = v.0;
  policy_digest = v.1.0;
  landlock_enforced = v.1.1.0;
  seccomp_enforced = v.1.1.1.0;
  probe_path = v.1.1.1.1.0;
  probe_dev = v.1.1.1.1.1.0;
  probe_ino = v.1.1.1.1.1.1.0;
  probe_mode = v.1.1.1.1.1.1.1.0;
  token = v.1.1.1.1.1.1.1.1.0;
}

-- What the token is a digest of.
pub record TokenFields : Type 0 where
  pub version : ℕ
  pub policy_digest : String
  pub probe_path : String
  pub probe_dev : ℕ
  pub probe_ino : ℕ
  pub probe_mode : ℕ
  pub landlock : Bool
  pub seccomp : Bool

-- `marshal` and `unmarshal` are JSON's for a struct with the given fields, `to_base64` and `from_base64` those of the URL alphabet without
-- padding; the digests are the hexadecimal SHA-256 of a value's JSON.
pub record Codec (F : Type 0) : Type 0 where
  pub marshal : (fs : List JsonField) → JsonValues fs → Result F String
  pub unmarshal : (fs : List JsonField) → String → Result F (JsonValues fs)
  pub to_base64 : String → String
  pub from_base64 : String → Result F String
  pub token_digest : TokenFields → String
  pub policy_digest : Policy → String

pub data HandoffError (F : Type 0) : Type 0 where
  version_or_field probe_missing token_mismatch digest_mismatch : HandoffError F
  landlock_not_verified kernel_not_verified : HandoffError F
  encode_failed decode_failed parse_failed : F → HandoffError F

-- How the kernel answers an attempt to open the probe's path.
pub data Opening (F : Type 0) : Type 0 where
  opened no_entry access_denied not_permitted : Opening F
  open_failed : F → Opening F

-- `strings.TrimSuffix(path, "/")`.
unfoldable pub trim_slash : String → String
trim_slash String.[] = ""
trim_slash (String.◌∷◌ c s) = if is_blank s && code c == 47 then "" else String.◌∷◌ c (trim_slash s)

-- `path` is `target` or a directory above it.
unfoldable pub covers : String → String → Bool
covers target path =
    str_eq path "/" || str_eq target path || starts_with target (text_append (trim_slash path) "/")

unfoldable pub any_covers : String → List String → Bool
any_covers target [] = false
any_covers target (path ∷ paths) = covers target path || any_covers target paths

unfoldable pub any_grant_covers : String → List Grant → Bool
any_grant_covers target [] = false
any_grant_covers target (g ∷ gs) = covers target g.path || any_grant_covers target gs

unfoldable pub path_granted : Policy → String → Bool
path_granted p target =
    any_covers target (p.read_only_paths ++ (p.writable_paths ++ p.executable_paths))
    || any_grant_covers target p.grants

abbrev pub lacks_probe : Handoff → Bool
lacks_probe h = is_blank h.probe_path || h.probe_dev == 0 || h.probe_ino == 0 || h.probe_mode == 0

module _ {F : Type 0} where
  unfoldable pub validate_handoff_shape : Handoff → Option (HandoffError F)
  validate_handoff_shape h =
      if not (h.version == handoff_version) || is_blank h.policy_digest || is_blank h.token
      then some version_or_field
      else if h.landlock_enforced && lacks_probe h
      then some probe_missing
      else none

  -- The probe counts only if the policy does not grant it and the kernel denies it.
  unfoldable pub verify_landlock_probe : (String → Opening F) → Handoff → Policy → Bool
  verify_landlock_probe kernel h p =
      if lacks_probe h || path_granted p h.probe_path then false else elim (kernel h.probe_path) [
        | access_denied ↦ true
        | not_permitted ↦ true
        | opened ↦ false
        | no_entry ↦ false
        | open_failed f ↦ false
      ]

  unfoldable pub verify_kernel_enforcement :
      (String → Opening F) → Handoff → Policy → Option (HandoffError F)
  verify_kernel_enforcement kernel h p =
      if wants_landlock p && (not h.landlock_enforced || not (verify_landlock_probe kernel h p))
      then some kernel_not_verified
      else none

  module _ (c : Codec F) where
    unfoldable pub handoff_token : Handoff → String
    handoff_token h = c.token_digest (record {
      version = h.version;
      policy_digest = h.policy_digest;
      probe_path = h.probe_path;
      probe_dev = h.probe_dev;
      probe_ino = h.probe_ino;
      probe_mode = h.probe_mode;
      landlock = h.landlock_enforced;
      seccomp = h.seccomp_enforced;
    })

    unfoldable pub digest : Policy → String
    digest p = c.policy_digest (normalized p)

    -- With the verified layers of a status.
    unfoldable pub new_handoff : Policy → Bool → Bool → Handoff
    new_handoff p landlock seccomp =
        let h : Handoff = record {
          version = handoff_version;
          policy_digest = digest p;
          landlock_enforced = landlock;
          seccomp_enforced = seccomp;
          probe_path = "";
          probe_dev = 0;
          probe_ino = 0;
          probe_mode = 0;
          token = "";
        } in
        record h { token = handoff_token h }

    unfoldable pub encode_handoff : Handoff → Result (HandoffError F) String
    encode_handoff h = elim (validate_handoff_shape h) [
      | some e ↦ err e
      | none ↦ elim (c.marshal handoff_fields (handoff_values h)) [
        | err f ↦ err (encode_failed f)
        | ok b ↦ ok (c.to_base64 b)
      ]
    ]

    unfoldable pub decode_handoff : String → Result (HandoffError F) Handoff
    decode_handoff raw = elim (c.from_base64 raw) [
      | err f ↦ err (decode_failed f)
      | ok b ↦ elim (c.unmarshal handoff_fields b) [
        | err f ↦ err (parse_failed f)
        | ok v ↦
            let h = handoff_of v in
            elim (validate_handoff_shape h) [
              | some e ↦ err e
              | none ↦ if str_eq (handoff_token h) h.token then ok h else err token_mismatch
            ]
      ]
    ]

    unfoldable pub verify_handoff :
        (String → Opening F) → String → Policy → Result (HandoffError F) Handoff
    verify_handoff kernel raw p = elim (decode_handoff raw) [
      | err e ↦ err e
      | ok h ↦
          if not (str_eq h.policy_digest (digest p))
          then err digest_mismatch
          else if wants_landlock p && not h.landlock_enforced
          then err landlock_not_verified
          else elim (verify_kernel_enforcement kernel h p) [ some e ↦ err e | none ↦ ok h ]
    ]
