-- ===== src/Http/Manager/Closing.antt =====
-- http/manager.go, startGeneration: the manager after a serve loop has failed.
use hanami.Base.{◌≡◌, true, false, some, arith}
use hanami.Bootstrap.{close_admission}
use hanami.Process.{request_stop}
use hanami.Http.Config.{Net}
use hanami.Http.Gate.{is_admitted}
use hanami.Http.Manager.{Manager, Generation, gate_now}
use hanami.Http.Manager.Lifecycle.{serve_failed}

module _ {n : Net} where
  -- When the serve loop of a promoted generation fails, no gate admits requests any more, and if nothing
  -- asked the process to stop before, it is asked to with the error.
  pub serve_failed-closed :
      (g : Generation n) (e : n.Failure) (m : Manager n)
      → g.promoted ≡ true
      → ((x : Generation n) → is_admitted (gate_now (serve_failed g e m) x) ≡ false)
        × (m.controller.once ≡ false
            → ((serve_failed g e m).controller.done ≡ true)
              × ((serve_failed g e m).controller.request.err ≡ some e))
  unfolding is_admitted gate_now serve_failed close_admission request_stop
  serve_failed-closed g e m p = (λ x. ground arith, λ h. (ground arith, ground arith))
