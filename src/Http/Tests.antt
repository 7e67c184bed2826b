-- ===== src/Http/Tests.antt =====
-- Runs of the HTTP server's configuration, gate and manager.
use hanami.Base.{◌≤◌, ◌↔◌, String, ℕ, ◌≡◌, ◌≢◌, refl, pos, true, false, none, some, ok, err}
use hanami.Process.{new_controller}
use hanami.Http.Config.{
  Net, ServerConfig, validate, validate_basic, validate_transition, validate_material, validated,
  normalized, with_defaults, with_key_pair, check_tls, has_query, trim_brackets,
}
use hanami.Http.Config.Normal.{normalized-normalized}
use hanami.Http.Gate.{
  GenerationGate, new_generation_gate, is_admitted, Request, wrap, served, unavailable, probed,
  check_response, ProbeResponse,
}
use hanami.Http.Gate.Isolation.{text_length, wrap-check_response, wrap-public}
use hanami.Http.Manager.Lifecycle.{Ending, serve_done}
use hanami.Http.Fixed.{FixedServer, admission_handler, refused, handled, serve_ended, stop_fixed}
use hanami.Http.Fixed.Draining.{stop_fixed-health}

-- Handlers, keys and errors are numbers.
abbrev pub net : Net
net = record {
  Handler = ℕ;
  TlsConfig = ℕ;
  PrivateKey = ℕ;
  RuntimeFactory = ℕ;
  Failure = ℕ;
  not_found = 404;
  hex = λ b. "00";
  host_of = λ a. ok "localhost";
  key_pair = λ c k. err 1;
  parse_certificate = λ b. none;
  tls_has_certificate = λ t. true;
}

abbrev pub zero_config : ServerConfig net
zero_config = record {
  address = "";
  read_header_timeout = pos 0;
  idle_timeout = pos 0;
  max_header_bytes = pos 0;
  protocol = "";
  handler = none;
  tls_config = none;
  certificate_pem = none;
  private_key_pem = none;
  certificate = none;
  probe_server_name = "";
  probe_path = "";
  probe_identity = "";
  probe_timeout = pos 0;
  drain_timeout = pos 0;
  max_draining_generations = pos 0;
  force_close_hijacked = false;
  runtime_factory = none;
}

abbrev pub plain : ServerConfig net
plain = record zero_config { address = "localhost:8080"; handler = some 1 }

abbrev pub filled : ServerConfig net
filled = record plain {
  protocol = "http";
  probe_server_name = "localhost";
  probe_path = "/health/ready";
  probe_identity = "hanami";
  probe_timeout = pos 3000000000;
  drain_timeout = pos 10000000000;
  max_draining_generations = pos 2;
}

plain_is_filled : normalized plain ≡ ok filled
unfolding normalized with_defaults with_key_pair check_tls validated validate validate_basic
    validate_transition validate_material has_query trim_brackets
plain_is_filled = refl

normalized-normalized_example : (validate filled ≡ none) × (normalized filled ≡ ok filled)
normalized-normalized_example = normalized-normalized plain filled plain_is_filled

abbrev pub gate : GenerationGate
gate = record {
  path = "/health/ready";
  identity = "hanami";
  token = "secret";
  admission = none;
  admitted = false;
}

abbrev public_request : Request
public_request = record { method = "GET"; path = "/"; probe_token = "" }

abbrev handler_one : Request → ℕ
handler_one r = 1

abbrev unchanged : ProbeResponse → ProbeResponse
unchanged p = p

wrap-check_response_example :
    (p : ProbeResponse) × (wrap
        (new_generation_gate "/health/ready" "hanami" "secret" none)
        handler_one
        (record { method = "GET"; path = "/health/ready"; probe_token = "secret" })
      ≡ probed p)
    × ((check_response "hanami" (unchanged p) ≡ none) ↔ (text_length "hanami" ≤ 4096))
wrap-check_response_example =
    wrap-check_response handler_one "/health/ready" "hanami" "secret" none unchanged refl

token_is_secret : public_request.probe_token ≢ gate.token
token_is_secret h = absurd (cc)

wrap-public_example :
    ((is_admitted gate ≡ true) → wrap gate handler_one public_request ≡ served 1)
    × ((is_admitted gate ≡ false) → wrap gate handler_one public_request ≡ unavailable)
wrap-public_example = wrap-public handler_one gate public_request token_is_secret

abbrev fixed : FixedServer net
fixed = record {
  config = plain;
  handler = 1;
  admission = record { is_open = true };
  controller = new_controller;
  listener = some "127.0.0.1:8080";
}

abbrev clean_end : Ending ℕ
clean_end = record { shutdown = none; close = none; serve = serve_done none }

abbrev echo : String → String
echo path = path

abbrev root : String
root = "/"

not_live : root ≢ "/health/live"
not_live h = absurd (cc)

not_ready : root ≢ "/health/ready"
not_ready h = absurd (cc)

stop_fixed-health_example :
    (admission_handler (stop_fixed clean_end fixed).0.admission echo root ≡ refused)
    × (admission_handler (serve_ended (some 7) fixed).admission echo root ≡ refused)
    × (admission_handler (stop_fixed clean_end fixed).0.admission echo "/health/live"
        ≡ handled "/health/live")
    × (admission_handler (stop_fixed clean_end fixed).0.admission echo "/health/ready"
        ≡ handled "/health/ready")
    × (admission_handler (serve_ended (some 7) fixed).admission echo "/health/live"
        ≡ handled "/health/live")
    × (admission_handler (serve_ended (some 7) fixed).admission echo "/health/ready"
        ≡ handled "/health/ready")
stop_fixed-health_example = stop_fixed-health echo fixed clean_end 7 root not_live not_ready
