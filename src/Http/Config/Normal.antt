-- ===== src/Http/Config/Normal.antt =====
-- http/manager.go, normalized: the configurations that it returns.
use hanami.Base.{
  ◌≡◌, refl, Option, none, some, arith, subst, sym, ◌∙◌, ◌||◌, ok, >>=-succeeds, is_some,
  Bool-cases, Result-cases, inl, inr, String, ℤ, negsuc, pos, ℕ, suc,
}
use hanami.Http.Config.{
  Net, Certificate, default_server_name, ServerConfig, validate, validated, normalized,
  with_defaults, with_key_pair, check_tls, default_text, default_number, protocol_http,
}

default_text_idem : (t s : String) → default_text t (default_text t s) ≡ default_text t s
default_text_idem t s = ground arith

default_number_idem :
    (k : ℕ) (z : ℤ) → default_number (suc k) (default_number (suc k) z) ≡ default_number (suc k) z
default_number_idem k (pos z) = ground arith
default_number_idem k (negsuc z) = refl

default_handler_idem :
    {H : Type 0} (d : H) (h : Option H)
    → let filled : Option H = elim h [ none ↦ some d | some x ↦ some x ] in
      Path (Option H) (elim filled [ none ↦ some d | some x ↦ some x ]) filled
default_handler_idem d none = refl
default_handler_idem d (some x) = refl

module _ {n : Net} where
  validated-eq : (c d : ServerConfig n) → validated c ≡ ok d → (validate c ≡ none) × (d ≡ c)
  unfolding validated
  validated-eq c d h = ground arith

  validated_ok : (c : ServerConfig n) → validate c ≡ none → validated c ≡ ok c
  unfolding validated
  validated_ok c h = rw (validated, h) refl

  check_tls-eq : (c d : ServerConfig n) → check_tls c ≡ ok d → d ≡ c
  unfolding check_tls
  check_tls-eq c d h = ground arith

  with_defaults-with_defaults :
      (c : ServerConfig n) → with_defaults (with_defaults c) ≡ with_defaults c
  unfolding with_defaults
  with_defaults-with_defaults c = λ i. record c {
    protocol = default_text_idem protocol_http c.protocol i;
    probe_path = default_text_idem "/health/ready" c.probe_path i;
    probe_identity = default_text_idem "hanami" c.probe_identity i;
    probe_timeout = default_number_idem 2999999999 c.probe_timeout i;
    drain_timeout = default_number_idem 9999999999 c.drain_timeout i;
    max_draining_generations = default_number_idem 1 c.max_draining_generations i;
    probe_server_name =
        default_text_idem (default_server_name (n.host_of c.address)) c.probe_server_name i;
    handler = default_handler_idem n.not_found c.handler i;
  }

  with_defaults-certificate :
      (c : ServerConfig n) (p : Certificate n.PrivateKey)
      → with_defaults c ≡ c
      → with_defaults (record c { certificate = some p }) ≡ record c { certificate = some p }
  unfolding with_defaults
  with_defaults-certificate c p k = λ i. record (k i) { certificate = some p }

  with_key_pair-keeps :
      (c d : ServerConfig n)
      → with_key_pair c ≡ ok d
      → with_defaults c ≡ c
      → (with_defaults d ≡ d) × (with_key_pair d ≡ ok d)
  unfolding with_key_pair
  with_key_pair-keeps c d h k =
      elim (Bool-cases (is_some c.certificate_pem || is_some c.private_key_pem)) [
        | inr e ↦
            let same : d ≡ c = ground arith in
            subst (λ z. (with_defaults z ≡ z) × (with_key_pair z ≡ ok z)) (sym same) (k, rw e refl)
        | inl e ↦ elim (Result-cases (n.key_pair c.certificate_pem c.private_key_pem)) [
          | inl (f, g) ↦ absurd (ground arith)
          | inr (p, g) ↦
              let same : d ≡ record c { certificate = some p } = ground arith in
              subst (λ z. (with_defaults z ≡ z) × (with_key_pair z ≡ ok z)) (sym same)
                (with_defaults-certificate c p k, rw (e, g) refl)
        ]
      ]

  -- A normalized configuration passes Validate, and normalizing it again changes nothing.
  pub normalized-normalized :
      (c d : ServerConfig n) → normalized c ≡ ok d → (validate d ≡ none) × (normalized d ≡ ok d)
  unfolding normalized
  normalized-normalized c d h =
      let (y, e, t) = >>=-succeeds check_tls _ h in
      let (x, p, v) = >>=-succeeds validated (with_key_pair (with_defaults c)) e in
      let valid = validated-eq x y v in
      let same : d ≡ x = check_tls-eq y d t ∙ valid.1 in
      let kept = with_key_pair-keeps (with_defaults c) x p (with_defaults-with_defaults c) in
      let tls : check_tls x ≡ ok x =
        subst (λ z. check_tls x ≡ ok z) same (subst (λ z. check_tls z ≡ ok d) valid.1 t) in
      subst (λ z. (validate z ≡ none) × (normalized z ≡ ok z)) (sym same)
        (valid.0, rw (normalized, kept.0, kept.1) (rw (validated_ok x valid.0) tls))
