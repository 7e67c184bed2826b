-- ===== src/Http/Manager/Tests.antt =====
-- A manager that starts, replaces its generation and gives a candidate up.
use hanami.Base.{◌<◌, ℕ, ◌≡◌, refl, true, false, none, some, [], ◌∷◌, ok, ◌⊎◌}
use hanami.Bootstrap.{new_admission, open_admission}
use hanami.Process.{new_controller}
use hanami.Http.Config.{
  equivalent_config, validate, validate_basic, validate_transition, validate_material, validated,
  normalized, with_defaults, with_key_pair, check_tls, has_query, trim_brackets,
}
use hanami.Http.Gate.{set_admitted, new_generation_gate, is_admitted}
use hanami.Http.Manager.{
  Generation, gate_now, native_runtime, Manager, ReplaceRequest, Attempt, factory_made, replace,
  config_for, replace_with, prepare_generation, make_runtime, listener_certificate, try_candidate,
  promote,
}
use hanami.Http.Manager.Lifecycle.{
  serve_failed, new_manager, take_arguments, take_argument, make_manager, server_config,
}
use hanami.Http.Manager.Invariant.{IsWellFormed}
use hanami.Http.Manager.Refining.{
  unmoved, moved, Transitions, view, steps-Transitions, serving_in_order,
}
use hanami.Http.Manager.Steps.{IsReachable, started, stepped, replaced, reachable-IsWellFormed}
use hanami.Http.Manager.Succeeding.{replace-succeeds}
use hanami.Http.Manager.Closing.{serve_failed-closed}
use hanami.Http.Manager.Outcomes.{
  is_rejected, IsUntouched, IsSame, IsPromoted, replace-rejected, replace-applied,
}
-- Handlers, keys and errors are numbers.
use hanami.Http.Tests.{net, zero_config, plain, filled, gate}

abbrev initial : Manager net
initial = record {
  config = filled;
  handler = some 1;
  admission = record { is_open = true };
  controller = new_controller;
  probe_token = "secret";
  generation = 0;
  active = none;
  candidates = [];
  draining = [];
  closed = false;
}

new_manager_runs :
    new_manager zero_config (ok "secret") (server_config (some plain) ∷ []) ≡ ok initial
unfolding new_manager take_arguments take_argument make_manager normalized with_defaults
    with_key_pair check_tls validated validate validate_basic validate_transition validate_material
    has_query trim_brackets open_admission new_admission
new_manager_runs = refl

abbrev all_well : Attempt ℕ
all_well = record {
  cancelled = none;
  listen = none;
  factory = factory_made;
  probe = none;
  cancelled_late = none;
}

abbrev start : ReplaceRequest net
start = record { server = zero_config; config = plain; handler = none }

initial-IsReachable : IsReachable initial
initial-IsReachable =
    started zero_config (ok "secret") (server_config (some plain) ∷ []) initial new_manager_runs

reachable-IsWellFormed_example : IsWellFormed (replace initial start all_well).0
reachable-IsWellFormed_example =
    reachable-IsWellFormed _
      (stepped initial _ initial-IsReachable (replaced initial start all_well))

initial-IsWellFormed : IsWellFormed initial
initial-IsWellFormed = reachable-IsWellFormed initial initial-IsReachable

probe_fails : is_rejected (replace initial start (record all_well { probe = some 7 })).1 ≡ true
unfolding replace config_for normalized with_defaults with_key_pair check_tls validated validate
    validate_basic validate_transition validate_material has_query trim_brackets replace_with
    prepare_generation listener_certificate make_runtime try_candidate
probe_fails = refl

replace-rejected_example :
    IsUntouched initial (replace initial start (record all_well { probe = some 7 })).0
replace-rejected_example =
    replace-rejected initial start (record all_well { probe = some 7 }) initial-IsWellFormed
      probe_fails

starts : is_rejected (replace initial start all_well).1 ≡ false
unfolding replace config_for normalized with_defaults with_key_pair check_tls validated validate
    validate_basic validate_transition validate_material has_query trim_brackets replace_with
    prepare_generation listener_certificate make_runtime try_candidate promote
starts = refl

replace-applied_example :
    IsSame initial start (replace initial start all_well).0
    ⊎ IsPromoted initial start all_well (replace initial start all_well).0
replace-applied_example = replace-applied initial start all_well starts

abbrev promoted_one : Generation net
promoted_one = record {
  id = 1;
  config = filled;
  runtime = native_runtime (some 1);
  gate = record gate { admitted = true };
  promoted = true;
  certificate = none;
  hijacked = [];
  closed = false;
}

serve_failed-closed_example :
    ((x : Generation net) → is_admitted (gate_now (serve_failed promoted_one 7 initial) x) ≡ false)
    × (initial.controller.once ≡ false
        → ((serve_failed promoted_one 7 initial).controller.done ≡ true)
          × ((serve_failed promoted_one 7 initial).controller.request.err ≡ some 7))
serve_failed-closed_example = serve_failed-closed promoted_one 7 initial refl

abbrev first_serving : Generation net
first_serving = record promoted_one {
  gate = record {
    path = filled.probe_path;
    identity = filled.probe_identity;
    token = "secret";
    admission = some (record { is_open = true });
    admitted = true;
  };
}

serves_first : (replace initial start all_well).0.active ≡ some first_serving
unfolding replace config_for normalized with_defaults with_key_pair check_tls validated validate
    validate_basic validate_transition validate_material has_query trim_brackets replace_with
    prepare_generation listener_certificate make_runtime try_candidate promote new_generation_gate
    set_admitted
serves_first = refl

abbrev after_start : Manager net
after_start = (replace initial start all_well).0

steps-Transitions_example : Transitions (view initial) (view after_start)
steps-Transitions_example =
    steps-Transitions initial after_start
      (moved initial initial after_start (unmoved initial) (replaced initial start all_well))

-- A second replacement, with another address.
abbrev again : ReplaceRequest net
again = record {
  server = zero_config;
  config = record plain { address = "127.0.0.1:9090" };
  handler = none;
}

abbrev second_serving : Generation net
second_serving = record first_serving {
  id = 2;
  config = record filled { address = "127.0.0.1:9090" };
}

serves_second : (replace after_start again all_well).0.active ≡ some second_serving
unfolding replace config_for normalized with_defaults with_key_pair check_tls validated validate
    validate_basic validate_transition validate_material has_query trim_brackets replace_with
    prepare_generation listener_certificate make_runtime try_candidate promote new_generation_gate
    set_admitted equivalent_config
serves_second = refl

serving_in_order_example :
    (second_serving.id ≡ first_serving.id) ⊎ (first_serving.id < second_serving.id)
serving_in_order_example =
    serving_in_order after_start (replace after_start again all_well).0 first_serving second_serving
      (stepped initial _ initial-IsReachable (replaced initial start all_well))
      (moved after_start after_start _ (unmoved after_start) (replaced after_start again all_well))
      serves_first serves_second

start_config : config_for initial start ≡ ok filled
unfolding config_for normalized with_defaults with_key_pair check_tls validated validate
    validate_basic validate_transition validate_material has_query trim_brackets
start_config = refl

no_certificate : listener_certificate filled ≡ ok none
unfolding listener_certificate
no_certificate = refl

native_server : make_runtime filled (some 1) factory_made ≡ ok (native_runtime (some 1))
unfolding make_runtime
native_server = refl

replace-succeeds_example :
    (is_rejected (replace initial start all_well).1 ≡ false)
    × IsPromoted initial start all_well (replace initial start all_well).0
replace-succeeds_example =
    replace-succeeds initial start all_well filled none (native_runtime (some 1)) refl start_config
      (λ g h. absurd (cc)) no_certificate native_server refl refl refl refl
