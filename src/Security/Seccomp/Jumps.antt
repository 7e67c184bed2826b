-- ===== src/Security/Seccomp/Jumps.antt =====
-- security/linux/platform_linux.go: where the jumps of the deny list land.
use Prim.Native.Nat.{bit_or}
use hanami.Base.{
  ℕ, zero, suc, ◌+◌, ◌-◌, ◌≤◌, ◌≡◌, refl, ap, sym, ◌∙◌, Bool, false, ◌||◌, Option, some, List, [],
  ◌∷◌, ◌++◌, arith, get_elem?, length, ◌==◌, if◌then◌else◌, String, Bool-cases, inl, inr,
}
use hanami.Security.Seccomp.{
  SockFilter, jump_eq_k, UnixConstants, deny_jumps, epilogue, syscall_number, number_or_zero, u8,
  seccomp_ret_allow, seccomp_ret_errno,
}
use hanami.Security.Seccomp.Machine.{Machine}

-- Whether a number is that of a name in the list.
unfoldable pub is_denied : String → List String → ℕ → Bool
is_denied arch [] nr = false
is_denied arch (name ∷ names) nr =
    nr == number_or_zero (syscall_number arch name) || is_denied arch names nr

abbrev pub drop {ℓ} : {A : Type ℓ} → ℕ → List A → List A
drop zero xs = xs
drop (suc n) [] = []
drop (suc n) (x ∷ xs) = drop n xs

module _ {ℓ} {A : Type ℓ} where
  pub drop-get_elem? :
      (xs : List A) (n : ℕ) {x : A} {rest : List A} → drop n xs ≡ x ∷ rest → get_elem? xs n ≡ some x
  drop-get_elem? [] zero h = absurd (cc)
  drop-get_elem? [] (suc n) h = absurd (cc)
  drop-get_elem? (y ∷ ys) zero h = ground arith
  drop-get_elem? (y ∷ ys) (suc n) h = drop-get_elem? ys n h

  drop-nil : (n : ℕ) → drop {A = A} n [] ≡ []
  drop-nil zero = refl
  drop-nil (suc n) = refl

  pub drop-add : (xs : List A) (n m : ℕ) → drop (n + m) xs ≡ drop m (drop n xs)
  drop-add xs zero m = ap (λ k. drop k xs) (omega arith)
  drop-add [] (suc n) m = drop-nil (suc n + m) ∙ sym (drop-nil m)
  drop-add (x ∷ xs) (suc n) m =
      let e : suc n + m ≡ suc (n + m) = omega arith in ap (λ k. drop k (x ∷ xs)) e ∙ drop-add xs n m

  pub drop-append : (xs ys : List A) → drop (length xs) (xs ++ ys) ≡ ys
  drop-append [] ys = refl
  drop-append (x ∷ xs) ys = drop-append xs ys

pub length-deny_jumps :
    (arch : String) (n i : ℕ) (names : List String)
    → length (deny_jumps arch n i names) ≡ length names
unfolding deny_jumps
length-deny_jumps arch n i [] = refl
length-deny_jumps arch n i (name ∷ names) = ap suc (length-deny_jumps arch n (suc i) names)

module _ (machine : Machine) (unix : UnixConstants) (arch : String) (program : List SockFilter)
    (packet : ℕ → ℕ) where
  abbrev execute : ℕ → ℕ → Option ℕ
  execute pc a = machine.execute program pc a packet

  -- A jump of the deny list, taken: it lands on the instruction that refuses.
  deny_taken :
      (n i pc : ℕ) (names : List String) (f : SockFilter) (nr : ℕ)
      → drop pc program ≡ f ∷ (deny_jumps arch n (suc i) names ++ epilogue unix)
      → execute (pc + 1 + suc (length names)) nr ≡ some (bit_or seccomp_ret_errno unix.eperm)
  unfolding epilogue
  deny_taken n i pc names f nr h =
      let js = deny_jumps arch n (suc i) names in
      let l = length-deny_jumps arch n (suc i) names in
      let e : pc + 1 + suc (length names)
          ≡ pc + suc (length (deny_jumps arch n (suc i) names) + 1) =
        omega (arith, l) in
      let d : drop (pc + 1 + suc (length names)) program ≡ drop 1 (epilogue unix) =
        ap (λ k. drop k program) e
        ∙ drop-add program pc (suc (length js + 1))
        ∙ ap (drop (suc (length js + 1))) h
        ∙ drop-add (js ++ epilogue unix) (length js) 1
        ∙ ap (drop 1) (drop-append js (epilogue unix)) in
      machine.returns program _ nr packet _ (drop-get_elem? program _ d) refl

  -- From the first instruction for `names` on, with the number in the accumulator.
  pub deny-verdict :
      (n i pc : ℕ) (names : List String) (nr : ℕ)
      → i + length names ≡ n
      → n ≤ 253
      → drop pc program ≡ deny_jumps arch n i names ++ epilogue unix
      → execute pc nr
        ≡ some (
            if is_denied arch names nr
            then bit_or seccomp_ret_errno unix.eperm
            else seccomp_ret_allow)
  unfolding is_denied
  deny-verdict n i pc [] nr c b h =
      unfold deny_jumps epilogue in
      machine.returns program pc nr packet _ (drop-get_elem? program pc h) refl
  deny-verdict n i pc (name ∷ names) nr c b h =
      let key : ℕ = number_or_zero (syscall_number arch name) in
      let f : SockFilter = record { code = jump_eq_k; k = key; jt = u8 (n - i); jf = 0 } in
      let here : drop pc program ≡ f ∷ (deny_jumps arch n (suc i) names ++ epilogue unix) =
        unfold deny_jumps in h in
      let taken : u8 (n - i) ≡ suc (length names) = omega arith in
      let step = machine.jumps_eq program pc nr packet f (drop-get_elem? program pc here) refl in
      elim (Bool-cases (nr == key)) [
        | inl e ↦
            let jump : (if nr == key then f.jt else f.jf) ≡ suc (length names) = rw e taken in
            rw e (step ∙ ap (λ j. execute (pc + 1 + j) nr) jump ∙ deny_taken n i pc names f nr here)
        | inr e ↦
            let jump : pc + 1 + (if nr == key then f.jt else f.jf) ≡ pc + 1 = rw e (omega arith) in
            rw e (
              step
              ∙ ap (λ j. execute j nr) jump
              ∙ deny-verdict n (suc i) (pc + 1) names nr (omega arith) b
                  (drop-add program pc 1 ∙ ap (drop 1) here))
      ]
