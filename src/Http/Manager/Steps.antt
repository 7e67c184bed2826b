-- ===== src/Http/Manager/Steps.antt =====
-- The histories of a manager: its operations in any order, whole critical sections at a time.
use hanami.Base.{
  ℕ, ◌≤◌, ℤ, pos, negsuc, ◌≡◌, refl, Bool, true, false, Option, none, some, List, [], select, arith,
  inl, inr, Result-cases, ok, String, Result, if◌then◌else◌,
}
use hanami.Bootstrap.{Admission}
use hanami.Http.Config.{Net, Certificate, ServerConfig}
use hanami.Http.Manager.{Manager, Generation, ReplaceRequest, Attempt, replace, forget}
use hanami.Http.Manager.Lifecycle.{
  Arguments, make_manager, new_manager, rotate_certificate, shutdown, serve_failed,
}
use hanami.Http.Manager.Lifecycle.{ManagerArgument, is_refused, published, take_arguments}
use hanami.Http.Manager.Invariant.{
  Serves, IsWellFormed, All-select, length-select, within_zero, within,
}
use hanami.Http.Manager.Replacing.{branch-IsWellFormed, replace-IsWellFormed}

-- One critical section: of a replacement, of the end of its drain, of a rotation, a shutdown or a failed
-- serve loop, or a change of the shared admission by another part of the program.
pub data Step {n : Net} : Manager n → Manager n → Type 0 where
  replaced :
      (m : Manager n) (req : ReplaceRequest n) (a : Attempt n.Failure) → Step m (replace m req a).0
  forgotten : (m : Manager n) (old : Generation n) → Step m (forget old m)
  rotated :
      (m : Manager n) (matches : Certificate n.PrivateKey → Bool) (k : Certificate n.PrivateKey)
      → Step m (rotate_certificate matches k m).0
  shut_down : (m : Manager n) → Step m (shutdown m).0
  serve_ended : (m : Manager n) (g : Generation n) (e : n.Failure) → Step m (serve_failed g e m)
  admission_changed : (m : Manager n) (a : Admission) → Step m (record m { admission = a })

pub data IsReachable {n : Net} : Manager n → Type 0 where
  started :
      (zero_config : ServerConfig n) (token : Result n.Failure String)
      (arguments : List (ManagerArgument n)) (m : Manager n)
      → new_manager zero_config token arguments ≡ ok m
      → IsReachable m
  stepped : (m m' : Manager n) → IsReachable m → Step m m' → IsReachable m'

within_less : (j k : ℕ) (z : ℤ) → j ≤ k → within k z ≡ true → within j z ≡ true
within_less j k (pos m) l h = ground arith
within_less j k (negsuc i) l h = ground arith

module _ {n : Net} where
  make_manager-IsWellFormed :
      (token : Result n.Failure String) (v : Arguments n) (m : Manager n)
      → make_manager token v ≡ ok m
      → IsWellFormed m
  unfolding make_manager
  make_manager-IsWellFormed token v m h =
      let c : m.candidates ≡ [] = ground arith in
      let d : m.draining ≡ [] = ground arith in
      let a : m.active ≡ none = ground arith in
      record {
        settled = c;
        serves = rw a d;
        limit = rw d (within_zero m.config.max_draining_generations);
      }

  new_manager-IsWellFormed :
      (zero_config : ServerConfig n) (token : Result n.Failure String)
      (arguments : List (ManagerArgument n)) (m : Manager n)
      → new_manager zero_config token arguments ≡ ok m
      → IsWellFormed m
  unfolding new_manager
  new_manager-IsWellFormed zero_config token arguments m h =
      elim (Result-cases (
        take_arguments arguments
          (record { config = zero_config; handler = none; admission = none; controller = none }))) [
            | inl (e, p) ↦ absurd (ground arith)
            | inr (v, p) ↦ make_manager-IsWellFormed token v m (ground arith)
          ]

  Serves-select :
      (p : Generation n → Bool) (gs : List (Generation n)) (k : ℕ) (a : Option (Generation n))
      → Serves gs k a
      → Serves (select p gs) k a
  Serves-select p gs k none h = rw h refl
  Serves-select p gs k (some g) h = record {
    promoted = h.promoted;
    admitted = h.admitted;
    not_closed = h.not_closed;
    counted = h.counted;
    retired = All-select p g.id gs h.retired;
  }

  chosen-IsWellFormed :
      (b : Bool) (x y : Manager n)
      → IsWellFormed x
      → IsWellFormed y
      → IsWellFormed (if b then x else y)
  chosen-IsWellFormed true x y h k = h
  chosen-IsWellFormed false x y h k = k

  rotated_state :
      (m : Manager n) (matches : Certificate n.PrivateKey → Bool) (k : Certificate n.PrivateKey)
      (a : Option (Generation n))
      → IsWellFormed m
      → Serves m.draining m.generation a
      → m.active ≡ a
      → IsWellFormed (rotate_certificate matches k m).0
  unfolding rotate_certificate
  rotated_state m matches k none w s e =
      rw e (record { settled = w.settled; serves = s; limit = w.limit })
  rotated_state m matches k (some g) w s e =
      let whole : Manager n = record m { active = some g } in
      let kept : IsWellFormed whole = record { settled = w.settled; serves = s; limit = w.limit } in
      let done : IsWellFormed (published k whole g) = record {
        settled = w.settled;
        serves = record {
          promoted = s.promoted;
          admitted = s.admitted;
          not_closed = s.not_closed;
          counted = s.counted;
          retired = s.retired;
        };
        limit = w.limit;
      } in
      rw e (
        branch-IsWellFormed (is_refused matches k g) (whole, false) (published k whole g, true) kept
          done)

  step-IsWellFormed : (m m' : Manager n) → Step m m' → IsWellFormed m → IsWellFormed m'
  unfolding forget rotate_certificate shutdown serve_failed
  step-IsWellFormed m m' (replaced _ req a) w = replace-IsWellFormed m req a w
  step-IsWellFormed m m' (forgotten _ old) w = record {
    settled = w.settled;
    serves = Serves-select _ m.draining m.generation m.active w.serves;
    limit = within_less _ _ m.config.max_draining_generations (length-select _ m.draining) w.limit;
  }
  step-IsWellFormed m m' (rotated _ matches k) w =
      rotated_state m matches k m.active w w.serves refl
  step-IsWellFormed m m' (shut_down _) w = branch-IsWellFormed m.closed _ _ w (record {
    settled = refl;
    serves = refl;
    limit = within_zero m.config.max_draining_generations;
  })
  step-IsWellFormed m m' (serve_ended _ g e) w =
      chosen-IsWellFormed g.promoted _ m
        (record { settled = w.settled; serves = w.serves; limit = w.limit }) w
  step-IsWellFormed m m' (admission_changed _ a) w = record {
    settled = w.settled;
    serves = w.serves;
    limit = w.limit;
  }

  -- Whatever the order of the operations on a manager, between them: no generation is left a
  -- candidate; the active generation is promoted, admitted and open; those that drain were promoted, are
  -- admitted no more and are older than the active one; and no more drain than the configuration in
  -- force allows.
  pub reachable-IsWellFormed : (m : Manager n) → IsReachable m → IsWellFormed m
  reachable-IsWellFormed m (started z t arguments _ h) = new_manager-IsWellFormed z t arguments m h
  reachable-IsWellFormed m (stepped m0 _ r s) =
      step-IsWellFormed m0 m s (reachable-IsWellFormed m0 r)
