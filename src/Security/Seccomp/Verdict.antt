-- ===== src/Security/Seccomp/Verdict.antt =====
-- security/linux/platform_linux.go: the run of a whole filter.
use Prim.Native.Nat.{bit_or}
use hanami.Base.{
  ℕ, ◌+◌, ◌≤◌, ◌≡◌, refl, ap, ◌∙◌, Option, some, List, ◌++◌, arith, length, ◌==◌, leb,
  if◌then◌else◌, not, String, Bool-cases, inl, inr, ok,
}
use hanami.Security.Seccomp.{
  SockFilter, UnixConstants, deny_jumps, epilogue, prologue, return_of, u8, abi_for_architecture,
  build_seccomp_filter, seccomp_ret_allow, seccomp_ret_errno, x32_bit, seccomp_data_arch_offset,
  seccomp_data_nr_offset, load_word_abs, jump_eq_k, jump_ge_k,
}
use hanami.Security.Seccomp.Machine.{Machine}
use hanami.Security.Seccomp.Jumps.{
  is_denied, deny-verdict, drop, drop-get_elem?, drop-add, drop-append, length-deny_jumps,
}

-- The decision that the filter is meant to make.
abbrev pub verdict : UnixConstants → String → ℕ → List String → (ℕ → ℕ) → ℕ
verdict unix arch abi denied packet =
    if not (packet seccomp_data_arch_offset == abi)
    then unix.seccomp_ret_kill_process
    else if leb x32_bit (packet seccomp_data_nr_offset)
    then unix.seccomp_ret_kill_process
    else if is_denied arch denied (packet seccomp_data_nr_offset)
    then bit_or seccomp_ret_errno unix.eperm
    else seccomp_ret_allow

module _ (machine : Machine) (unix : UnixConstants) (arch : String) (abi : ℕ) (denied : List String)
    (packet : ℕ → ℕ) where
  abbrev program : List SockFilter
  program =
      prologue unix abi (length denied)
      ++ (deny_jumps arch (length denied) 0 denied ++ epilogue unix)

  abbrev from : ℕ → ℕ → Option ℕ
  from pc a = machine.execute program pc a packet

  -- The guard against x32 numbers lands on the last instruction.
  guard_taken : (nr : ℕ) → from (5 + (length denied + 2)) nr ≡ some unix.seccomp_ret_kill_process
  unfolding prologue epilogue
  guard_taken nr =
      let js = deny_jumps arch (length denied) 0 denied in
      let l = length-deny_jumps arch (length denied) 0 denied in
      let e : 5 + (length denied + 2) ≡ 5 + (length js + 2) = omega (arith, l) in
      let d : drop (5 + (length denied + 2)) program ≡ drop 2 (epilogue unix) =
        ap (λ k. drop k program) e
        ∙ drop-add program 5 (length js + 2)
        ∙ drop-add (js ++ epilogue unix) (length js) 2
        ∙ ap (drop 2) (drop-append js (epilogue unix)) in
      machine.returns program _ nr packet _ (drop-get_elem? program _ d) refl

  -- The part from the guard on.
  numbered :
      (nr : ℕ)
      → length denied ≤ 253
      → from 4 nr
        ≡ some (
            if leb x32_bit nr
            then unix.seccomp_ret_kill_process
            else if is_denied arch denied nr
            then bit_or seccomp_ret_errno unix.eperm
            else seccomp_ret_allow)
  numbered nr b =
      let f : SockFilter = record {
        code = jump_ge_k;
        k = x32_bit;
        jt = u8 (length denied + 2);
        jf = 0;
      } in
      let step = machine.jumps_ge program 4 nr packet f (unfold prologue in refl) refl in
      let wide : u8 (length denied + 2) ≡ length denied + 2 = omega arith in
      elim (Bool-cases (leb x32_bit nr)) [
        | inl e ↦
            let jump : 4 + 1 + (if leb x32_bit nr then f.jt else f.jf) ≡ 5 + (length denied + 2) =
              rw e (omega arith) in
            rw e (step ∙ ap (λ j. from j nr) jump ∙ guard_taken nr)
        | inr e ↦
            let jump : 4 + 1 + (if leb x32_bit nr then f.jt else f.jf) ≡ 5 = rw e (omega arith) in
            rw e (
              step
              ∙ ap (λ j. from j nr) jump
              ∙ deny-verdict machine unix arch program packet (length denied) 0 5 denied nr
                  (omega arith) b (unfold prologue in refl))
      ]

  decides : (a : ℕ) → length denied ≤ 253 → from 0 a ≡ some (verdict unix arch abi denied packet)
  unfolding prologue
  decides a b =
      let word = packet seccomp_data_arch_offset in
      let nr = packet seccomp_data_nr_offset in
      let f : SockFilter = record { code = jump_eq_k; k = abi; jt = 1; jf = 0 } in
      let load : SockFilter = record {
        code = load_word_abs;
        k = seccomp_data_arch_offset;
        jt = 0;
        jf = 0;
      } in
      let load_nr : SockFilter = record {
        code = load_word_abs;
        k = seccomp_data_nr_offset;
        jt = 0;
        jf = 0;
      } in
      let loaded = machine.loads program 0 a packet load refl refl in
      let step = machine.jumps_eq program 1 word packet f refl refl in
      elim (Bool-cases (word == abi)) [
        | inl e ↦
            let jump : 1 + 1 + (if word == abi then f.jt else f.jf) ≡ 3 = rw e (omega arith) in
            rw e (
              loaded
              ∙ step
              ∙ ap (λ j. from j word) jump
              ∙ machine.loads program 3 word packet load_nr refl refl
              ∙ numbered nr b)
        | inr e ↦
            let jump : 1 + 1 + (if word == abi then f.jt else f.jf) ≡ 2 = rw e (omega arith) in
            rw e (
              loaded
              ∙ step
              ∙ ap (λ j. from j word) jump
              ∙ machine.returns program 2 word packet (return_of unix.seccomp_ret_kill_process) refl
                  refl)
      ]

-- Run on any machine with the documented effect of the opcodes, a filter built for at most 253 names
-- kills the process on a foreign architecture and on an x32 number, refuses each denied system call
-- with EPERM, and allows every other.
pub build_seccomp_filter-verdict :
    (machine : Machine) (unix : UnixConstants) (arch : String) (denied : List String)
    (filters : List SockFilter) (abi : ℕ) (packet : ℕ → ℕ)
    → build_seccomp_filter unix arch denied ≡ ok filters
    → abi_for_architecture unix arch ≡ ok abi
    → length denied ≤ 253
    → machine.execute filters 0 0 packet ≡ some (verdict unix arch abi denied packet)
unfolding build_seccomp_filter
build_seccomp_filter-verdict machine unix arch denied filters abi packet h a b =
    let built : filters ≡ program machine unix arch abi denied packet = ground arith in
    rw built (decides machine unix arch abi denied packet 0 b)
