-- ===== src/Http/Fixed/Draining.antt =====
-- http/server.go: a fixed server that stops.
use hanami.Base.{◌≡◌, ◌≢◌, refl, ◌↔◌, none, some, String, arith, eq_iff, []}
use hanami.Bootstrap.{close_admission}
use hanami.Http.Config.{Net}
use hanami.Http.Manager.Lifecycle.{Ending, serve_done}
use hanami.Http.Fixed.{FixedServer, refused, handled, admission_handler, serve_ended, stop_fixed}

module _ {n : Net} {B : Type 0} (next : String → B) (s : FixedServer n) where
  -- After a stop, however it ends, and after a serve loop that failed, every path is answered 503 but the
  -- two of the health checks, which still reach the handler.
  pub stop_fixed-health :
      (r : Ending n.Failure) (e : n.Failure) (path : String)
      → path ≢ "/health/live"
      → path ≢ "/health/ready"
      → (admission_handler (stop_fixed r s).0.admission next path ≡ refused)
        × (admission_handler (serve_ended (some e) s).admission next path ≡ refused)
        × (admission_handler (stop_fixed r s).0.admission next "/health/live"
            ≡ handled (next "/health/live"))
        × (admission_handler (stop_fixed r s).0.admission next "/health/ready"
            ≡ handled (next "/health/ready"))
        × (admission_handler (serve_ended (some e) s).admission next "/health/live"
            ≡ handled (next "/health/live"))
        × (admission_handler (serve_ended (some e) s).admission next "/health/ready"
            ≡ handled (next "/health/ready"))
  unfolding admission_handler stop_fixed serve_ended close_admission
  stop_fixed-health r e path p q = (
    ground (arith, eq_iff path "/health/live", eq_iff path "/health/ready"),
    ground (arith, eq_iff path "/health/live", eq_iff path "/health/ready"),
    refl,
    refl,
    refl,
    refl,
  )

module _ {n : Net} (s : FixedServer n) where
  -- A stop reports no error exactly when the shutdown had none and the serve loop ended without one before
  -- the deadline.
  pub stop_fixed-clean :
      (r : Ending n.Failure)
      → ((stop_fixed r s).1 ≡ []) ↔ ((r.shutdown ≡ none) × (r.serve ≡ serve_done none))
  unfolding stop_fixed
  stop_fixed-clean r = (λ h. (ground arith, ground arith), λ h. ground arith)
