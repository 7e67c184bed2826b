-- ===== src/Database/Closing.antt =====
-- database/database.go: the native Close over all the calls of a runtime's life.
use hanami.Base.{
  ℕ, ℤ, Option-cases, inl, inr, suc, ◌≡◌, refl, ap, ◌∙◌, Option, none, some, is_some, List, [], ◌∷◌,
  if◌then◌else◌, ok, arith,
}
use hanami.Database.{
  added_timeout, DatabaseConfig, Gorm, Runtime, PoolCall, new_runtime, close, start, stop, Event,
  starting, stopping, checking, happen, happen_all,
}

-- What the native Close answers to the first call that closes: a stop, or a start whose ping fails under
-- the given timeout.
abbrev pub first_close : {F : Type 0} → ℤ → List (Event F) → Option (Option F)
first_close timeout [] = none
first_close timeout (starting ping answer ∷ es) =
    let rest = first_close timeout es in
    elim (ping (added_timeout timeout)) [ none ↦ rest | some f ↦ some answer ]
first_close timeout (stopping answer ∷ es) = some answer
first_close timeout (checking ping ∷ es) = first_close timeout es

module _ {F G S : Type 0} where
  close-closed :
      (answer : Option F) (r : Runtime F G S) (a : Option F)
      → r.closed ≡ some a
      → close answer r ≡ (r, a)
  unfolding close
  close-closed answer r a h = ground arith

  close-first :
      (answer : Option F) (r : Runtime F G S)
      → r.closed ≡ none
      → (close answer r).0 ≡ record r { closed = some answer; closes = suc r.closes }
  unfolding close
  close-first answer r h = ground arith

  start-alive :
      (ping : Option ℤ → Option F) (answer : Option F) (r : Runtime F G S)
      → ping (added_timeout r.ping_timeout) ≡ none
      → (start ping answer r).0 ≡ r
  unfolding start
  start-alive ping answer r e = ground arith

  start-failed :
      (ping : Option ℤ → Option F) (answer : Option F) (r : Runtime F G S) (f : F)
      → ping (added_timeout r.ping_timeout) ≡ some f
      → (start ping answer r).0 ≡ (close answer r).0
  unfolding start
  start-failed ping answer r f e = ground arith

  happen-closed :
      (e : Event F) (r : Runtime F G S) (a : Option F) → r.closed ≡ some a → happen e r ≡ r
  unfolding start stop
  happen-closed (starting ping answer) r a h =
      elim (Option-cases (ping (added_timeout r.ping_timeout))) [
        | inl e ↦ start-alive ping answer r e
        | inr (f, e) ↦ start-failed ping answer r f e ∙ ap (λ x. x.0) (close-closed answer r a h)
      ]
  happen-closed (stopping answer) r a h = ap (λ x. x.0) (close-closed answer r a h)
  happen-closed (checking ping) r a h = refl

  happen_all-closed :
      (es : List (Event F)) (r : Runtime F G S) (a : Option F)
      → r.closed ≡ some a
      → happen_all es r ≡ r
  happen_all-closed [] r a h = refl
  happen_all-closed (e ∷ es) r a h =
      ap (happen_all es) (happen-closed e r a h) ∙ happen_all-closed es r a h

  -- What holds after one runtime holds after an equal one.
  over :
      {x y : Runtime F G S} {c : Option (Option F)} {k : ℕ} (es : List (Event F))
      → x ≡ y
      → ((happen_all es y).closed ≡ c) × ((happen_all es y).closes ≡ k)
      → ((happen_all es x).closed ≡ c) × ((happen_all es x).closes ≡ k)
  over es e h =
      (ap (λ z. (happen_all es z).closed) e ∙ h.0, ap (λ z. (happen_all es z).closes) e ∙ h.1)

  -- After the first Close nothing changes.
  closing :
      (answer : Option F) (es : List (Event F)) (r : Runtime F G S)
      → r.closed ≡ none
      → ((happen_all es (close answer r).0).closed ≡ some answer)
        × ((happen_all es (close answer r).0).closes ≡ suc r.closes)
  closing answer es r h =
      let r' : Runtime F G S = record r { closed = some answer; closes = suc r.closes } in
      let same =
        ap (happen_all es) (close-first answer r h) ∙ happen_all-closed es r' answer refl in
      (ap (λ x. x.closed) same, ap (λ x. x.closes) same)

  happen_all-first :
      (es : List (Event F)) (r : Runtime F G S)
      → r.closed ≡ none
      → ((happen_all es r).closed ≡ first_close r.ping_timeout es)
        × ((happen_all es r).closes
            ≡ (if is_some (first_close r.ping_timeout es) then suc r.closes else r.closes))
  unfolding stop
  happen_all-first [] r h = (h, refl)
  happen_all-first (starting ping answer ∷ es) r h =
      elim (Option-cases (ping (added_timeout r.ping_timeout))) [
        | inl e ↦ rw e (over es (start-alive ping answer r e) (happen_all-first es r h))
        | inr (f, e) ↦ rw e (over es (start-failed ping answer r f e) (closing answer es r h))
      ]
  happen_all-first (stopping answer ∷ es) r h = closing answer es r h
  happen_all-first (checking ping ∷ es) r h = happen_all-first es r h

new_runtime_fresh :
    {F D G S : Type 0} (gorm : Gorm F D G S) (config : DatabaseConfig D) (r : Runtime F G S)
    (calls : List PoolCall)
    → new_runtime gorm config ≡ ok (r, calls)
    → (r.closed ≡ none) × (r.closes ≡ 0)
unfolding new_runtime
new_runtime_fresh gorm config r calls h = (ground arith, ground arith)

-- Over any sequence of calls on a new runtime the native Close is called at most once, by the first call
-- that closes, and every later stop returns what it answered.
pub happen_all-close :
    {F D G S : Type 0} (gorm : Gorm F D G S) (config : DatabaseConfig D) (r : Runtime F G S)
    (calls : List PoolCall) (es : List (Event F)) (answer : Option F)
    → new_runtime gorm config ≡ ok (r, calls)
    → ((happen_all es r).closes ≡ (if is_some (first_close r.ping_timeout es) then 1 else 0))
      × ((stop answer (happen_all es r)).1
          ≡ elim (first_close r.ping_timeout es) [ some first ↦ first | none ↦ answer ])
unfolding stop close
happen_all-close gorm config r calls es answer h =
    let fresh = new_runtime_fresh gorm config r calls h in
    let (recorded, counted) = happen_all-first es r fresh.0 in (ground arith, ground arith)
