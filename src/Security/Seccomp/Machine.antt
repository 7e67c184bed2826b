-- ===== src/Security/Seccomp/Machine.antt =====
-- The classic BPF machine of the kernel, which runs the program: an interface with the documented
-- effect of the four opcodes, and a machine that has it.
use hanami.Base.{
  ℕ, zero, suc, ◌+◌, ◌≡◌, ap, ◌∙◌, Option, none, some, List, [], ◌∷◌, arith, get_elem?, ◌==◌, leb,
  if◌then◌else◌,
}
use hanami.Security.Seccomp.{SockFilter, load_word_abs, jump_eq_k, jump_ge_k, return_k}

-- `execute program pc accumulator packet` runs from the instruction `pc`; `packet` gives the word at
-- an offset of the `seccomp_data`. It is `none` where the program counter leaves the program.
pub record Machine : Type 0 where
  pub execute : List SockFilter → ℕ → ℕ → (ℕ → ℕ) → Option ℕ
  pub loads :
      (program : List SockFilter) (pc a : ℕ) (packet : ℕ → ℕ) (f : SockFilter)
      → get_elem? program pc ≡ some f
      → f.code ≡ load_word_abs
      → execute program pc a packet ≡ execute program (pc + 1) (packet f.k) packet
  pub jumps_eq :
      (program : List SockFilter) (pc a : ℕ) (packet : ℕ → ℕ) (f : SockFilter)
      → get_elem? program pc ≡ some f
      → f.code ≡ jump_eq_k
      → execute program pc a packet
        ≡ execute program (pc + 1 + (if a == f.k then f.jt else f.jf)) a packet
  pub jumps_ge :
      (program : List SockFilter) (pc a : ℕ) (packet : ℕ → ℕ) (f : SockFilter)
      → get_elem? program pc ≡ some f
      → f.code ≡ jump_ge_k
      → execute program pc a packet
        ≡ execute program (pc + 1 + (if leb f.k a then f.jt else f.jf)) a packet
  pub returns :
      (program : List SockFilter) (pc a : ℕ) (packet : ℕ → ℕ) (f : SockFilter)
      → get_elem? program pc ≡ some f
      → f.code ≡ return_k
      → execute program pc a packet ≡ some f.k

-- Jumps go forward only, so the rest of the program falls.
interpret : List SockFilter → ℕ → ℕ → (ℕ → ℕ) → Option ℕ
interpret [] pc a packet = none
interpret (f ∷ fs) zero a packet =
    let loaded = interpret fs 0 (packet f.k) packet in
    let on_eq = interpret fs (if a == f.k then f.jt else f.jf) a packet in
    let on_ge = interpret fs (if leb f.k a then f.jt else f.jf) a packet in
    elim f.code [
      | load_word_abs ↦ loaded
      | jump_eq_k ↦ on_eq
      | jump_ge_k ↦ on_ge
      | return_k ↦ some f.k
    ]
interpret (f ∷ fs) (suc pc) a packet = interpret fs pc a packet

interpret-load :
    (program : List SockFilter) (pc a : ℕ) (packet : ℕ → ℕ) (f : SockFilter)
    → get_elem? program pc ≡ some f
    → f.code ≡ load_word_abs
    → interpret program pc a packet ≡ interpret program (pc + 1) (packet f.k) packet
unfolding interpret
interpret-load [] pc a packet f h c = absurd (cc)
interpret-load (g ∷ gs) zero a packet f h c = ground arith
interpret-load (g ∷ gs) (suc pc) a packet f h c =
    let e : suc (pc + 1) ≡ suc pc + 1 = omega arith in
    interpret-load gs pc a packet f h c ∙ ap (λ i. interpret (g ∷ gs) i (packet f.k) packet) e

interpret-jump_eq :
    (program : List SockFilter) (pc a : ℕ) (packet : ℕ → ℕ) (f : SockFilter)
    → get_elem? program pc ≡ some f
    → f.code ≡ jump_eq_k
    → interpret program pc a packet
      ≡ interpret program (pc + 1 + (if a == f.k then f.jt else f.jf)) a packet
unfolding interpret
interpret-jump_eq [] pc a packet f h c = absurd (cc)
interpret-jump_eq (g ∷ gs) zero a packet f h c =
    let e : g ≡ f = ground arith in
    let j : 0 + 1 + (if a == f.k then f.jt else f.jf) ≡ suc (if a == f.k then f.jt else f.jf) =
      omega arith in
    rw j (ground arith)
interpret-jump_eq (g ∷ gs) (suc pc) a packet f h c =
    let j : ℕ = if a == f.k then f.jt else f.jf in
    let e : suc (pc + 1 + j) ≡ suc pc + 1 + j = omega arith in
    interpret-jump_eq gs pc a packet f h c ∙ ap (λ i. interpret (g ∷ gs) i a packet) e

interpret-jump_ge :
    (program : List SockFilter) (pc a : ℕ) (packet : ℕ → ℕ) (f : SockFilter)
    → get_elem? program pc ≡ some f
    → f.code ≡ jump_ge_k
    → interpret program pc a packet
      ≡ interpret program (pc + 1 + (if leb f.k a then f.jt else f.jf)) a packet
unfolding interpret
interpret-jump_ge [] pc a packet f h c = absurd (cc)
interpret-jump_ge (g ∷ gs) zero a packet f h c =
    let j : 0 + 1 + (if leb f.k a then f.jt else f.jf) ≡ suc (if leb f.k a then f.jt else f.jf) =
      omega arith in
    rw j (ground arith)
interpret-jump_ge (g ∷ gs) (suc pc) a packet f h c =
    let j : ℕ = if leb f.k a then f.jt else f.jf in
    let e : suc (pc + 1 + j) ≡ suc pc + 1 + j = omega arith in
    interpret-jump_ge gs pc a packet f h c ∙ ap (λ i. interpret (g ∷ gs) i a packet) e

interpret-return :
    (program : List SockFilter) (pc a : ℕ) (packet : ℕ → ℕ) (f : SockFilter)
    → get_elem? program pc ≡ some f
    → f.code ≡ return_k
    → interpret program pc a packet ≡ some f.k
unfolding interpret
interpret-return [] pc a packet f h c = absurd (cc)
interpret-return (g ∷ gs) zero a packet f h c = ground arith
interpret-return (g ∷ gs) (suc pc) a packet f h c = interpret-return gs pc a packet f h c

pub interpreter : Machine
interpreter = record {
  execute = interpret;
  loads = interpret-load;
  jumps_eq = interpret-jump_eq;
  jumps_ge = interpret-jump_ge;
  returns = interpret-return;
}
