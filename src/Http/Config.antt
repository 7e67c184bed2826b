-- ===== src/Http/Config.antt =====
-- http/server.go, ServerConfig with its Validate, and http/manager.go, normalized and what decides
-- whether two configurations are equivalent. `Net` holds the types and functions of Go's net,
-- tls and hex packages and of the application that a configuration mentions.
pub mod Normal
pub mod Agreeing
use Prim.Native.Char.{Char, code}
use Prim.Native.String
use hanami.Base.{
  ℕ, ◌==◌, ℤ, pos, is_negative, is_zero, Bool, true, false, not, ◌&&◌, ◌||◌, Option, none, some,
  List, [], ◌∷◌, length, String, is_blank, str_eq, starts_with, is_none, is_some, is_empty,
  if◌then◌else◌, Result, ok, err, ◌>>=◌, negsuc,
}

abbrev pub Bytes : Type 0
Bytes = List ℕ

-- `tls.Certificate`: the chain, leaf first, and the private key.
pub record Certificate (K : Type 0) : Type 0 where
  pub chain : List Bytes
  pub private_key : Option K

-- `hex` is `hex.EncodeToString`; `host_of` is `net.SplitHostPort` without the port;
-- `tls_has_certificate` tells whether a TLS configuration has certificates or a `GetCertificate`.
pub record Net : Type 1 where
  pub Handler : Type 0
  pub TlsConfig : Type 0
  pub PrivateKey : Type 0
  pub RuntimeFactory : Type 0
  pub Failure : Type 0
  pub not_found : Handler
  pub hex : Bytes → String
  pub host_of : String → Result Failure String
  pub key_pair : Option Bytes → Option Bytes → Result Failure (Certificate PrivateKey)
  pub parse_certificate : Bytes → Option Failure
  pub tls_has_certificate : TlsConfig → Bool

abbrev pub Protocol : Type 0
Protocol = String

abbrev pub protocol_http : Protocol
protocol_http = "http"

abbrev pub protocol_https : Protocol
protocol_https = "https"

-- Times are in nanoseconds; `none` is a nil pointer, function, interface or slice.
pub record ServerConfig (n : Net) : Type 0 where
  pub address : String
  pub read_header_timeout : ℤ
  pub idle_timeout : ℤ
  pub max_header_bytes : ℤ
  pub protocol : Protocol
  pub handler : Option n.Handler
  pub tls_config : Option n.TlsConfig
  pub certificate_pem : Option Bytes
  pub private_key_pem : Option Bytes
  pub certificate : Option (Certificate n.PrivateKey)
  pub probe_server_name : String
  pub probe_path : String
  pub probe_identity : String
  pub probe_timeout : ℤ
  pub drain_timeout : ℤ
  pub max_draining_generations : ℤ
  pub force_close_hijacked : Bool
  pub runtime_factory : Option n.RuntimeFactory

-- `strings.ContainsAny(s, "?#")`.
unfoldable pub has_query : String → Bool
has_query String.[] = false
has_query (String.◌∷◌ c s) = (code c == 63) || (code c == 35) || has_query s

-- `strings.Trim(s, "[]")`.
abbrev is_bracket : Char → Bool
is_bracket c = (code c == 91) || (code c == 93)

trim_left : String → String
trim_left String.[] = ""
trim_left (String.◌∷◌ c s) = let rest = trim_left s in if is_bracket c then rest else String.◌∷◌ c s

trim_right : String → String
trim_right String.[] = ""
trim_right (String.◌∷◌ c s) =
    let rest = trim_right s in if is_blank rest && is_bracket c then "" else String.◌∷◌ c rest

unfoldable pub trim_brackets : String → String
unfolding trim_left trim_right
trim_brackets s = trim_right (trim_left s)

abbrev pub byte_length : Option Bytes → ℕ
byte_length none = 0
byte_length (some b) = length b

pub data ConfigError (F : Type 0) : Type 0 where
  address_empty limits_negative probe_path_not_absolute transition_limits_negative : ConfigError F
  certificate_incomplete no_certificate_material tls_for_http tls_config_empty : ConfigError F
  address_invalid key_pair_invalid : F → ConfigError F
  unsupported_protocol : Protocol → ConfigError F

abbrev pub is_incomplete : {K : Type 0} → Option (Certificate K) → Bool
is_incomplete none = false
is_incomplete (some k) = is_empty k.chain || is_none k.private_key

abbrev pub same_number : ℤ → ℤ → Bool
same_number (pos a) (pos b) = a == b
same_number (negsuc a) (negsuc b) = a == b
same_number _ _ = false

abbrev pub default_text : String → String → String
default_text default s = if is_blank s then default else s

abbrev pub default_number : ℕ → ℤ → ℤ
default_number default z = if is_zero z then pos default else z

-- The host of the address; an address that does not split has the empty host.
abbrev pub default_server_name : {F : Type 0} → Result F String → String
default_server_name split =
    let host : String = elim split [ ok h ↦ h | err e ↦ "" ] in
    trim_brackets (
      if is_blank host || str_eq host "0.0.0.0" || str_eq host "::" || str_eq host "[::"
      then "localhost"
      else host)

module _ {n : Net} where
  unfoldable pub validate_basic : ServerConfig n → Option (ConfigError n.Failure)
  validate_basic c = if is_blank c.address then some address_empty else elim (n.host_of c.address) [
    | err e ↦ some (address_invalid e)
    | ok host ↦
        if is_negative c.read_header_timeout
          || is_negative c.idle_timeout
          || is_negative c.max_header_bytes
        then some limits_negative
        else none
  ]

  -- The checks of the TLS material for an HTTPS configuration and for an HTTP one.
  unfoldable pub validate_material : Bool → ServerConfig n → Option (ConfigError n.Failure)
  validate_material https c =
      if https
      then (if is_incomplete c.certificate
          then some certificate_incomplete
          else if is_none c.certificate
              && is_none c.tls_config
              && (byte_length c.certificate_pem == 0 || byte_length c.private_key_pem == 0)
          then some no_certificate_material
          else none)
      else if is_some c.certificate
          || is_some c.tls_config
          || not (byte_length c.certificate_pem == 0)
          || not (byte_length c.private_key_pem == 0)
      then some tls_for_http
      else none

  abbrev pub effective_protocol : ServerConfig n → Protocol
  effective_protocol c = if is_blank c.protocol then protocol_http else c.protocol

  unfoldable pub validate_transition : ServerConfig n → Option (ConfigError n.Failure)
  validate_transition c =
      if not (is_blank c.probe_path)
        && (not (starts_with c.probe_path "/") || has_query c.probe_path)
      then some probe_path_not_absolute
      else if is_negative c.probe_timeout
          || is_negative c.drain_timeout
          || is_negative c.max_draining_generations
      then some transition_limits_negative
      else validate_material (str_eq (effective_protocol c) protocol_https) c

  unfoldable pub validate : ServerConfig n → Option (ConfigError n.Failure)
  validate c = elim (validate_basic c) [
    | some e ↦ some e
    | none ↦
        if not (str_eq (effective_protocol c) protocol_http)
          && not (str_eq (effective_protocol c) protocol_https)
        then some (unsupported_protocol (effective_protocol c))
        else validate_transition c
  ]

  unfoldable pub with_defaults : ServerConfig n → ServerConfig n
  with_defaults c = record c {
    protocol = default_text protocol_http c.protocol;
    probe_path = default_text "/health/ready" c.probe_path;
    probe_identity = default_text "hanami" c.probe_identity;
    probe_timeout = default_number 3000000000 c.probe_timeout;
    drain_timeout = default_number 10000000000 c.drain_timeout;
    max_draining_generations = default_number 2 c.max_draining_generations;
    probe_server_name =
        default_text (default_server_name (n.host_of c.address)) c.probe_server_name;
    handler = elim c.handler [ none ↦ some n.not_found | some h ↦ some h ];
  }

  -- The certificate of the PEM fields, when one of them is given, replaces the one there is.
  unfoldable pub with_key_pair : ServerConfig n → Result (ConfigError n.Failure) (ServerConfig n)
  with_key_pair c =
      if is_some c.certificate_pem || is_some c.private_key_pem
      then elim (n.key_pair c.certificate_pem c.private_key_pem) [
        | err e ↦ err (key_pair_invalid e)
        | ok k ↦ ok (record c { certificate = some k })
      ]
      else ok c

  -- A configuration for HTTPS needs a certificate, its own or the TLS configuration's. The copies
  -- that the source makes here equal their originals.
  unfoldable pub check_tls : ServerConfig n → Result (ConfigError n.Failure) (ServerConfig n)
  check_tls c =
      if str_eq c.protocol protocol_https && is_none c.certificate
      then elim c.tls_config [
        | none ↦ ok c
        | some t ↦ if n.tls_has_certificate t then ok c else err tls_config_empty
      ]
      else ok c

  unfoldable pub validated : ServerConfig n → Result (ConfigError n.Failure) (ServerConfig n)
  validated c = elim (validate c) [ some e ↦ err e | none ↦ ok c ]

  unfoldable pub normalized : ServerConfig n → Result (ConfigError n.Failure) (ServerConfig n)
  normalized c = with_key_pair (with_defaults c) >>= validated >>= check_tls

  unfoldable pub certificate_fingerprint : ServerConfig n → String
  certificate_fingerprint c = elim c.certificate [
    | none ↦ ""
    | some k ↦ elim k.chain [ [] ↦ "" | leaf ∷ rest ↦ n.hex leaf ]
  ]

  unfoldable pub equivalent_config : ServerConfig n → ServerConfig n → Bool
  equivalent_config a b =
      str_eq a.address b.address
      && str_eq a.protocol b.protocol
      && same_number a.read_header_timeout b.read_header_timeout
      && same_number a.idle_timeout b.idle_timeout
      && same_number a.max_header_bytes b.max_header_bytes
      && str_eq a.probe_path b.probe_path
      && str_eq a.probe_identity b.probe_identity
      && str_eq a.probe_server_name b.probe_server_name
      && str_eq (certificate_fingerprint a) (certificate_fingerprint b)
