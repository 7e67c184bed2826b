-- ===== src/Process/Tests.antt =====
-- Runs of the controller.
use hanami.Base.{ℕ, ◌≡◌, refl, true, false, none, some, [], ◌∷◌}
use hanami.Process.{
  Request, new_controller, request_stop, request_external_restart, request_all, default_reason,
  stop_reason_requested, stop_reason_runtime_failure,
}
use hanami.Process.Stops.{request_all-first}

abbrev failed : Request ℕ
failed = record { reason = ""; err = some 7; external_restart_required = false }

abbrev asked : Request ℕ
asked = record { reason = stop_reason_requested; err = none; external_restart_required = false }

failure_wins :
    (request_all new_controller (failed ∷ asked ∷ [])).0.request.reason
    ≡ stop_reason_runtime_failure
unfolding request_all request_stop new_controller
failure_wins = refl

restart_is_requested :
    (request_external_restart {E = ℕ} 9 new_controller none).0.request.err ≡ some 9
unfolding request_external_restart new_controller
restart_is_requested = refl

request_all-first_example : request_all new_controller (failed ∷ asked ∷ failed ∷ []) ≡ (
  record { once = true; done = true; request = record failed { reason = default_reason failed } },
  true ∷ false ∷ false ∷ [],
)
unfolding new_controller
request_all-first_example = request_all-first new_controller failed (asked ∷ failed ∷ []) refl
