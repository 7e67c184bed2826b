-- ===== src/Process/Stops.antt =====
-- process/process.go: histories of requests to the controller.
use hanami.Base.{◌≡◌, refl, ◌≢◌, true, false, List, [], ◌∷◌, map, arith, eq_iff, none, some}
use hanami.Process.{
  Request, Controller, default_reason, request_stop, request_all, stop_reason_requested,
  stop_reason_runtime_failure,
}

module _ {ℓ} {E : Type ℓ} where
  request_all-stopped :
      (c : Controller E) (rs : List (Request E))
      → c.once ≡ true
      → request_all c rs ≡ (c, map (λ _. false) rs)
  unfolding request_all request_stop
  request_all-stopped c [] h = refl
  request_all-stopped c (r ∷ rs) h = ground (arith, request_all-stopped c rs h)

  -- On a controller that has not been stopped, the first request of a history is accepted and every
  -- later one refused; the controller keeps the first request, with its reason set if it was
  -- blank, and is done.
  pub request_all-first :
      (c : Controller E) (r : Request E) (rs : List (Request E))
      → c.once ≡ false
      → request_all c (r ∷ rs) ≡ (
        record c { once = true; done = true; request = record r { reason = default_reason r } },
        true ∷ map (λ _. false) rs,
      )
  unfolding request_all request_stop
  request_all-first c r rs h = ground (arith, request_all-stopped (request_stop c r).0 rs)

  -- The reason recorded is never blank: the one given, or, if that is blank, a runtime failure
  -- exactly when the request carries an error.
  pub request_stop-reason :
      (c : Controller E) (r : Request E)
      → c.once ≡ false
      → let reason = (request_stop c r).0.request.reason in
        (reason ≢ "")
        × (r.reason ≢ "" → reason ≡ r.reason)
        × (r.reason ≡ "" → (e : E) → r.err ≡ some e → reason ≡ stop_reason_runtime_failure)
        × (r.reason ≡ "" → r.err ≡ none → reason ≡ stop_reason_requested)
  unfolding request_stop
  request_stop-reason c r h = (
    ground (
      arith,
      eq_iff r.reason "",
      eq_iff stop_reason_requested "",
      eq_iff stop_reason_runtime_failure "",
    ),
    λ n. ground (arith, eq_iff r.reason ""),
    λ b e k. ground (arith, eq_iff r.reason ""),
    λ b k. ground (arith, eq_iff r.reason ""),
  )
