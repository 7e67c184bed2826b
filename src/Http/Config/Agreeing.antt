-- ===== src/Http/Config/Agreeing.antt =====
-- http/manager.go, equivalentConfig: what two equivalent configurations have in common.
use hanami.Base.{◌≡◌, ap, true, ℤ, pos, negsuc, arith, eq_iff}
use hanami.Http.Config.{Net, ServerConfig, same_number, equivalent_config, certificate_fingerprint}

same_number_sound : (x y : ℤ) → same_number x y ≡ true → x ≡ y
same_number_sound (pos a) (pos b) h = ap pos (ground arith)
same_number_sound (negsuc a) (negsuc b) h = ap negsuc (ground arith)
same_number_sound (pos a) (negsuc b) h = absurd (cc)
same_number_sound (negsuc a) (pos b) h = absurd (cc)

module _ {n : Net} where
  -- What two configurations agree in for a replacement to count as done already.
  pub record Agrees (a b : ServerConfig n) : Type 0 where
    pub address : a.address ≡ b.address
    pub protocol : a.protocol ≡ b.protocol
    pub read_header_timeout : a.read_header_timeout ≡ b.read_header_timeout
    pub idle_timeout : a.idle_timeout ≡ b.idle_timeout
    pub max_header_bytes : a.max_header_bytes ≡ b.max_header_bytes
    pub probe_path : a.probe_path ≡ b.probe_path
    pub probe_identity : a.probe_identity ≡ b.probe_identity
    pub probe_server_name : a.probe_server_name ≡ b.probe_server_name
    pub fingerprint : certificate_fingerprint a ≡ certificate_fingerprint b

  pub equivalent_config-Agrees : (a b : ServerConfig n) → equivalent_config a b ≡ true → Agrees a b
  unfolding equivalent_config
  equivalent_config-Agrees a b h = record {
    address = (eq_iff a.address b.address).0 (ground arith);
    protocol = (eq_iff a.protocol b.protocol).0 (ground arith);
    read_header_timeout = same_number_sound _ _ (ground arith);
    idle_timeout = same_number_sound _ _ (ground arith);
    max_header_bytes = same_number_sound _ _ (ground arith);
    probe_path = (eq_iff a.probe_path b.probe_path).0 (ground arith);
    probe_identity = (eq_iff a.probe_identity b.probe_identity).0 (ground arith);
    probe_server_name = (eq_iff a.probe_server_name b.probe_server_name).0 (ground arith);
    fingerprint = (eq_iff (certificate_fingerprint a) (certificate_fingerprint b)).0 (ground arith);
  }
