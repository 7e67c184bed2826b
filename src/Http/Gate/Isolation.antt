-- ===== src/Http/Gate/Isolation.antt =====
-- http/manager.go, GenerationGate: requests with the token and without it.
use hanami.Base.{
  ℕ, zero, suc, ◌≤◌, ◌↔◌, refl, ap, subst, ◌≡◌, ◌≢◌, true, false, none, String, arith, eq_iff,
  Option,
}
use hanami.Bootstrap.{Admission}
use hanami.Http.Gate.{
  GenerationGate, new_generation_gate, is_admitted, gate_probe, Request, wrap, probed, unavailable,
  served, check_response, limit_reader, ProbeResponse,
}

abbrev identified : String → ProbeResponse
identified identity = record { status_code = 200; identity = identity; body = identity }

-- The bytes of a text.
abbrev pub text_length : String → ℕ
text_length String.[] = 0
text_length (String.◌∷◌ c s) = suc (text_length s)

limit_reader-short : (n : ℕ) (s : String) → text_length s ≤ n → limit_reader n s ≡ s
unfolding limit_reader
limit_reader-short n String.[] h = refl
limit_reader-short zero (String.◌∷◌ c s) h = absurd (omega (arith, h))
limit_reader-short (suc n) (String.◌∷◌ c s) h =
    ap (λ t. String.◌∷◌ c t) (limit_reader-short n s (omega (arith, h)))

text_length-limit_reader : (n : ℕ) (s : String) → text_length (limit_reader n s) ≤ n
unfolding limit_reader
text_length-limit_reader n String.[] = omega arith
text_length-limit_reader zero (String.◌∷◌ c s) = omega arith
text_length-limit_reader (suc n) (String.◌∷◌ c s) = omega (arith, text_length-limit_reader n s)

limit_reader-long : (n : ℕ) (s : String) → limit_reader n s ≡ s → text_length s ≤ n
limit_reader-long n s h = subst (λ t. text_length t ≤ n) h (text_length-limit_reader n s)

module _ {B : Type 0} (next : Request → B) where
  -- The probe of a candidate, which carries the token and asks for the probe path, is answered by the
  -- candidate's own gate before it is admitted. If HTTP carries that answer over unchanged, it passes
  -- the check of the probe exactly when the identity is of at most 4096 bytes.
  pub wrap-check_response :
      (path identity token : String) (a : Option Admission) (carry : ProbeResponse → ProbeResponse)
      → carry (identified identity) ≡ identified identity
      → (p : ProbeResponse) × (wrap
            (new_generation_gate path identity token a)
            next
            (record { method = "GET"; path = path; probe_token = token })
          ≡ probed p)
        × ((check_response identity (carry p) ≡ none) ↔ (text_length identity ≤ 4096))
  unfolding wrap new_generation_gate gate_probe check_response
  wrap-check_response path identity token a carry same = (
    identified identity,
    ground (arith, eq_iff path path, eq_iff token token),
    (
      λ h.
          limit_reader-long 4096 identity
            ((eq_iff (limit_reader 4096 identity) identity).0 (ground (arith, same))),
      λ h. ground (
        arith,
        same,
        limit_reader-short 4096 identity h,
        eq_iff identity identity,
        eq_iff (limit_reader 4096 identity) identity,
      ),
    ),
  )

  -- A request without the token reaches the handler exactly when the gate is admitted, and is
  -- answered 503 otherwise; it never sees the probe's response.
  pub wrap-public :
      (g : GenerationGate) (r : Request)
      → r.probe_token ≢ g.token
      → ((is_admitted g ≡ true) → wrap g next r ≡ served (next r))
        × ((is_admitted g ≡ false) → wrap g next r ≡ unavailable)
  unfolding wrap gate_probe
  wrap-public g r n = (
    λ h. ground (arith, eq_iff r.probe_token g.token),
    λ h. ground (arith, eq_iff r.probe_token g.token),
  )
