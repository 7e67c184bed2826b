-- ===== src/Http/Manager/Refining.antt =====
-- http/manager.go: the manager as a service that at most one generation serves.
use hanami.Base.{
  ℕ, suc, ◌≤◌, ◌<◌, ◌≡◌, refl, sym, ap, ◌∙◌, subst, Bool, true, false, Bool-cases, Option, none,
  some, Option-cases, arith, inl, inr, ◌⊎◌, if◌then◌else◌, branch_elim, List,
}
use hanami.Http.Config.{Net, Certificate, ServerConfig}
use hanami.Http.Manager.{
  Manager, Generation, ReplaceRequest, Attempt, Replaced, replace, promote, forget,
  prepare_generation,
}
use hanami.Http.Manager.Lifecycle.{
  rotate_certificate, shutdown, serve_failed, is_refused, published,
}
use hanami.Http.Manager.Replacing.{counted, prepare-cases}
use hanami.Http.Manager.Invariant.{Serves}
use hanami.Http.Manager.Branches.{replace_elim, replace_with_elim, try_candidate_elim}
use hanami.Http.Manager.Steps.{
  Step, IsReachable, reachable-IsWellFormed, replaced, forgotten, rotated, shut_down, serve_ended,
  admission_changed,
}

-- What a client of the manager sees: the generation that serves, the last number given out, and whether
-- the manager is stopped for good.
pub record Service : Type 0 where
  pub serving : Option ℕ
  pub latest : ℕ
  pub stopped : Bool

-- The service goes on, or a newer generation takes over, or it stops.
pub data Transition (s s' : Service) : Type 0 where
  stays : s'.serving ≡ s.serving → s'.stopped ≡ s.stopped → s.latest ≤ s'.latest → Transition s s'
  switches :
      s.stopped ≡ false
      → s'.stopped ≡ false
      → s'.serving ≡ some s'.latest
      → s.latest < s'.latest
      → Transition s s'
  stops :
      s.stopped ≡ false
      → s'.stopped ≡ true
      → s'.serving ≡ none
      → s'.latest ≡ s.latest
      → Transition s s'

abbrev pub serving_id : {n : Net} → Option (Generation n) → Option ℕ
serving_id none = none
serving_id (some g) = some g.id

abbrev pub view : {n : Net} → Manager n → Service
view m = record { serving = serving_id m.active; latest = m.generation; stopped = m.closed }

module _ {n : Net} where
  stays_same : (m : Manager n) → Transition (view m) (view m)
  stays_same m = stays refl refl (omega arith)

  promote-Transition :
      (m k : Manager n) (g : Generation n) (c : ServerConfig n)
      → m.closed ≡ false
      → k.closed ≡ false
      → k.generation ≡ suc m.generation
      → g.id ≡ suc m.generation
      → Transition (view m) (view (promote k g c).0)
  unfolding promote
  promote-Transition m k g c h i j e = elim (Option-cases k.active) [
    | inl x ↦ rw x (switches h i (ap some (e ∙ sym j)) (omega arith))
    | inr (old, x) ↦ rw x (switches h i (ap some (e ∙ sym j)) (omega arith))
  ]

  prepared_stays :
      (m : Manager n) (c : ServerConfig n) (a : Attempt n.Failure)
      → Transition (view m) (view (prepare_generation m c a).0)
  prepared_stays m c a = elim ((prepare-cases m c a).0) [
    | inl e ↦ subst (λ x. Transition (view m) (view x)) (sym e) (stays_same m)
    | inr e ↦ subst (λ x. Transition (view m) (view x)) (sym e) (stays refl refl (omega arith))
  ]

  rotated_from :
      (m : Manager n) (matches : Certificate n.PrivateKey → Bool) (k : Certificate n.PrivateKey)
      (a : Option (Generation n))
      → m.active ≡ a
      → let rotated_manager : Manager n × Bool = elim a [
        | none ↦ (m, false)
        | some g ↦ if is_refused matches k g then (m, false) else (published k m g, true)
      ] in
        Transition (view m) (view rotated_manager.0)
  rotated_from m matches k none e = stays_same m
  rotated_from m matches k (some g) e =
      branch_elim (λ (x : Manager n × Bool). Transition (view m) (view x.0))
        (is_refused matches k g) _ _ (λ _. stays_same m)
        (λ _. stays (sym (ap serving_id e)) refl (omega arith))

  shutdown-Transition : (m : Manager n) → Transition (view m) (view (shutdown m).0)
  unfolding shutdown
  shutdown-Transition m =
      branch_elim (λ (x : Manager n × List (Generation n)). Transition (view m) (view x.0)) m.closed
        _ _ (λ _. stays_same m) (λ e. stops e refl refl refl)

  replace-closed :
      (m : Manager n) (req : ReplaceRequest n) (a : Attempt n.Failure)
      → m.closed ≡ true
      → (replace m req a).0 ≡ m
  unfolding replace
  replace-closed m req a h = ground arith

  replace-Transition :
      (m : Manager n) (req : ReplaceRequest n) (a : Attempt n.Failure)
      → m.closed ≡ false
      → Transition (view m) (view (replace m req a).0)
  replace-Transition m req a h =
      let P = λ (x : Manager n × Replaced n). Transition (view m) (view x.0) in
      replace_elim P m req a (λ e. stays_same m) (λ c g p q e. stays_same m)
        (λ c p.
          replace_with_elim P m c a (λ e. stays_same m) (λ e. prepared_stays m c a)
            (λ g q k.
              try_candidate_elim P (counted m) g c a (λ e. stays refl refl (omega arith))
                (λ x y. promote-Transition m _ g c h h refl ((prepare-cases m c a).1 g q).1)))

  step-Transition : (m m' : Manager n) → Step m m' → Transition (view m) (view m')
  unfolding forget rotate_certificate serve_failed
  step-Transition m m' (replaced _ req a) = elim (Bool-cases m.closed) [
    | inl e ↦
        subst (λ x. Transition (view m) (view x)) (sym (replace-closed m req a e)) (stays_same m)
    | inr e ↦ replace-Transition m req a e
  ]
  step-Transition m m' (forgotten _ old) = stays refl refl (omega arith)
  step-Transition m m' (rotated _ matches k) = rotated_from m matches k m.active refl
  step-Transition m m' (shut_down _) = shutdown-Transition m
  step-Transition m m' (serve_ended _ g e) = elim (Bool-cases g.promoted) [
    | inl p ↦ rw p (stays refl refl (omega arith))
    | inr p ↦ rw p (stays_same m)
  ]
  step-Transition m m' (admission_changed _ a) = stays refl refl (omega arith)

-- A history of steps, and what it is to a client.
pub data Steps {n : Net} : Manager n → Manager n → Type 0 where
  unmoved : (m : Manager n) → Steps m m
  moved : (m k m' : Manager n) → Steps m k → Step k m' → Steps m m'

pub data Transitions : Service → Service → Type 0 where
  settled : (s : Service) → Transitions s s
  followed : (s t s' : Service) → Transitions s t → Transition t s' → Transitions s s'

-- The manager implements the service: any sequence of its critical sections is, seen from outside, a
-- sequence in which the serving generation stays, is replaced by a newer one while the manager is not
-- stopped, or is dropped for good.
pub steps-Transitions : {n : Net} (m m' : Manager n) → Steps m m' → Transitions (view m) (view m')
steps-Transitions m m' (unmoved _) = settled (view m)
steps-Transitions m m' (moved _ k _ r s) =
    followed _ _ _ (steps-Transitions m k r) (step-Transition k m' s)

-- What a history of the service keeps.
pub record IsOrdered (s s' : Service) : Type 0 where
  pub grows : s.latest ≤ s'.latest
  pub final : (s.stopped ≡ false) ⊎ (s'.stopped ≡ true)
  pub newer :
      (s'.serving ≡ s.serving)
      ⊎ (s'.serving ≡ none)
      ⊎ ((k : ℕ) × (s'.serving ≡ some k) × (s.latest < k))

transitions-IsOrdered : (s s' : Service) → Transitions s s' → IsOrdered s s'
transitions-IsOrdered s s' (settled _) = record {
  grows = omega arith;
  final = elim (Bool-cases s.stopped) [ inl e ↦ inr e | inr e ↦ inl e ];
  newer = inl refl;
}
transitions-IsOrdered s s' (followed _ t _ r (stays same kept more)) =
    let o = transitions-IsOrdered s t r in
    record {
      grows = omega (arith, o.grows);
      final = elim o.final [ inl e ↦ inl e | inr e ↦ inr (kept ∙ e) ];
      newer = elim o.newer [
        | inl e ↦ inl (same ∙ e)
        | inr (inl e) ↦ inr (inl (same ∙ e))
        | inr (inr (k, e, l)) ↦ inr (inr (k, same ∙ e, l))
      ];
    }
transitions-IsOrdered s s' (followed _ t _ r (switches off kept now more)) =
    let o = transitions-IsOrdered s t r in
    record {
      grows = omega (arith, o.grows);
      final = elim o.final [ inl e ↦ inl e | inr e ↦ absurd (ground arith) ];
      newer = inr (inr (s'.latest, now, omega (arith, o.grows)));
    }
transitions-IsOrdered s s' (followed _ t _ r (stops off on gone same)) =
    let o = transitions-IsOrdered s t r in
    record { grows = omega (arith, o.grows); final = inr on; newer = inr (inl gone) }

-- Of two generations that serve one after the other the later one has the greater number, unless they are
-- one: for a reachable manager and any sequence of its critical sections.
pub serving_in_order :
    {n : Net} (m m' : Manager n) (g g' : Generation n)
    → IsReachable m
    → Steps m m'
    → m.active ≡ some g
    → m'.active ≡ some g'
    → (g'.id ≡ g.id) ⊎ (g.id < g'.id)
serving_in_order m m' g g' reached steps e e' =
    let served =
      subst (Serves m.draining m.generation) e (reachable-IsWellFormed m reached).serves in
    let number : serving_id m.active ≡ some g.id = ap serving_id e in
    let number' : serving_id m'.active ≡ some g'.id = ap serving_id e' in
    let bound = served.counted in
    elim (transitions-IsOrdered (view m) (view m') (steps-Transitions m m' steps)).newer [
      | inl same ↦ inl (ground arith)
      | inr (inl gone) ↦ absurd (ground arith)
      | inr (inr (k, now, more)) ↦ inr (ground arith)
    ]
