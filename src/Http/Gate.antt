-- ===== src/Http/Gate.antt =====
-- http/manager.go, GenerationGate: what a generation answers before and after it is admitted. `B` is
-- what the application's handler returns.
pub mod Isolation
use Prim.Native.String
use hanami.Base.{
  ℕ, zero, suc, ◌==◌, Bool, true, false, not, ◌&&◌, ◌||◌, Option, none, some, String, str_eq,
  if◌then◌else◌,
}
use hanami.Bootstrap.{Admission}

-- `admission` is nil for a gate made without one.
pub record GenerationGate : Type 0 where
  pub path : String
  pub identity : String
  pub token : String
  pub admission : Option Admission
  pub admitted : Bool

unfoldable pub new_generation_gate : String → String → String → Option Admission → GenerationGate
new_generation_gate path identity token admission = record {
  path = path;
  identity = identity;
  token = token;
  admission = admission;
  admitted = false;
}

unfoldable pub is_admitted : GenerationGate → Bool
is_admitted g = g.admitted && elim g.admission [ none ↦ true | some a ↦ a.is_open ]

unfoldable pub set_admitted : Bool → GenerationGate → GenerationGate
set_admitted value g = record g { admitted = value }

pub record ProbeResponse : Type 0 where
  pub status_code : ℕ
  pub identity : String
  pub body : String

-- `none` is the result false.
unfoldable pub gate_probe : GenerationGate → String → String → String → Option ProbeResponse
gate_probe g method path token =
    if not (str_eq method "GET") || not (str_eq path g.path) || not (str_eq token g.token)
    then none
    else some (record { status_code = 200; identity = g.identity; body = g.identity })

-- A request, with the value of its X-Hanami-Probe header.
pub record Request : Type 0 where
  pub method : String
  pub path : String
  pub probe_token : String

-- What `Wrap` answers: the probe's response, the 503 of a gate that is not admitted, or what the
-- handler under it returns.
pub data Answer (B : Type 0) : Type 0 where
  probed : ProbeResponse → Answer B
  unavailable : Answer B
  served : B → Answer B

unfoldable pub wrap : {B : Type 0} → GenerationGate → (Request → B) → Request → Answer B
wrap g next r = elim (gate_probe g r.method r.path r.probe_token) [
  | some response ↦ probed response
  | none ↦ if is_admitted g then served (next r) else unavailable
]

-- What the probe of a candidate refuses in a response: its status, or an identity in the header or in
-- the body that is not the expected one.
pub data ProbeError : Type 0 where
  probe_status : ℕ → ProbeError
  identity_mismatch : ProbeError

-- `io.LimitReader`: at most so many bytes; the characters of a text stand for its bytes.
unfoldable pub limit_reader : ℕ → String → String
limit_reader n String.[] = ""
limit_reader zero (String.◌∷◌ c s) = ""
limit_reader (suc n) (String.◌∷◌ c s) = String.◌∷◌ c (limit_reader n s)

unfoldable pub check_response : String → ProbeResponse → Option ProbeError
check_response expected r =
    if not (r.status_code == 200)
    then some (probe_status r.status_code)
    else if not (str_eq r.identity expected) || not (str_eq (limit_reader 4096 r.body) expected)
    then some identity_mismatch
    else none
