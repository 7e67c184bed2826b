-- ===== src/Security/Compare/Changes.antt =====
-- security/linux/security.go, CompareEffectivePolicy: the lists of differences of two policies.
use mathlib.Core.List.Perm
use mathlib.Core.List.{mem-cons, not-mem-nil, Mem-prop, Nodup-cons, mem-map_of_mem}
use mathlib.Core.Logic.Or
use native.Mathlib.Nat.{ℕ_set}
use hanami.Base.{
  ℕ, ◌==◌, ◌≢◌, ◌≡◌, refl, sym, ◌∙◌, subst, true, false, List, [], ◌∷◌, map, arith, Mem, Nodup,
  String, str_eq, eq_iff, contains, contains→mem, mem→contains, is_empty, sort_by, sort_by-perm,
  text_le, Bool-cases, inl, inr, if◌then◌else◌,
}
use hanami.Security.Policy.{Grant, grant_le}
use hanami.Security.Compare.{missing_from, last_access, changed_grants}

pub missing_from-empty :
    (known xs : List String)
    → (is_empty (missing_from known xs) ≡ true)
    → (x : String) → Mem x xs
    → Mem x known
unfolding missing_from
missing_from-empty known [] h x m = absurd (not-mem-nil m)
missing_from-empty known (y ∷ ys) h x m =
    let step : (contains y known ≡ true) × (is_empty (missing_from known ys) ≡ true) =
      ground arith in
    Or.elim Mem-prop (mem-cons.0 m) (λ e. rw e (contains→mem y known step.0))
      (missing_from-empty known ys step.1 x)

pub subset-missing_from :
    (known xs : List String) → ((x : String) → Mem x xs → Mem x known) → missing_from known xs ≡ []
unfolding missing_from
subset-missing_from known [] s = refl
subset-missing_from known (y ∷ ys) s = ground (
  arith,
  mem→contains y known (s y (mem-cons.1 (Or.inl refl))),
  subset-missing_from known ys (λ x m. s x (mem-cons.1 (Or.inr m))),
)

-- Whatever the second list has, the first has.
abbrev pub Includes : List String → List String → Type 0
Includes known xs = (x : String) → Mem x xs → Mem x known

Includes-sort :
    (known xs : List String)
    → Includes (sort_by text_le known) (sort_by text_le xs)
    → Includes known xs
Includes-sort known xs s x m =
    (Perm.mem_iff (sort_by-perm text_le known)).0
      (s x ((Perm.mem_iff (sort_by-perm text_le xs)).1 m))

pub sorted-Includes :
    (known xs : List String)
    → is_empty (missing_from (sort_by text_le known) (sort_by text_le xs)) ≡ true
    → Includes known xs
sorted-Includes known xs h = Includes-sort known xs (missing_from-empty _ _ h)

pub missing_from_self :
    (xs : List String) → missing_from (sort_by text_le xs) (sort_by text_le xs) ≡ []
missing_from_self xs = subset-missing_from _ _ (λ x m. m)

last_access-absent :
    (path : String) (found : ℕ) (gs : List Grant)
    → ¬ Mem path (map (λ g. g.path) gs)
    → last_access path found gs ≡ found
unfolding last_access
last_access-absent path found [] n = refl
last_access-absent path found (g ∷ gs) n = elim (Bool-cases (str_eq g.path path)) [
  | inl e ↦ absurd (n (mem-cons.1 (Or.inl (sym ((eq_iff g.path path).0 e)))))
  | inr e ↦ rw e (last_access-absent path found gs (λ m. n (mem-cons.1 (Or.inr m))))
]

mem-paths : (g : Grant) (gs : List Grant) → Mem g gs → Mem g.path (map (λ g. g.path) gs)
mem-paths g gs m = mem-map_of_mem (λ (g : Grant). g.path) m

last_access-found :
    (g : Grant) (found : ℕ) (gs : List Grant)
    → Nodup (map (λ g. g.path) gs)
    → Mem g gs
    → last_access g.path found gs ≡ g.access
unfolding last_access
last_access-found g found [] n m = absurd (not-mem-nil m)
last_access-found g found (h ∷ gs) n m =
    let split = Nodup-cons.0 n in
    Or.elim (ℕ_set _ _) (mem-cons.0 m)
      (λ e.
        last_access-absent g.path _ gs
          (subst (λ (z : Grant). ¬ Mem z.path (map (λ g. g.path) gs)) (sym e) split.0)
        ∙ ground (arith, e, eq_iff h.path g.path))
      (last_access-found g (if str_eq h.path g.path then h.access else found) gs split.1)

pub changed_grants_of :
    (known gs : List Grant)
    → ((g : Grant) → Mem g gs → last_access g.path 0 known ≡ g.access)
    → changed_grants known gs ≡ []
unfolding changed_grants
changed_grants_of known [] h = refl
changed_grants_of known (g ∷ gs) h = ground (
  arith,
  h g (mem-cons.1 (Or.inl refl)),
  changed_grants_of known gs (λ x m. h x (mem-cons.1 (Or.inr m))),
)

pub changed_grants_self :
    (gs : List Grant)
    → Nodup (map (λ g. g.path) gs)
    → changed_grants (sort_by grant_le gs) (sort_by grant_le gs) ≡ []
changed_grants_self gs n = changed_grants_of _ _ (λ g m.
    last_access-found g 0 _ (Perm.nodup (Perm.symm (Perm.map _ (sort_by-perm grant_le gs))) n) m)

pub changed_grants-empty :
    (known gs : List Grant)
    → is_empty (changed_grants known gs) ≡ true
    → (g : Grant) → Mem g gs
    → last_access g.path 0 known ≡ g.access
unfolding changed_grants
changed_grants-empty known [] h g m = absurd (not-mem-nil m)
changed_grants-empty known (k ∷ gs) h g m =
    let step : (last_access k.path 0 known ≡ k.access)
        × (is_empty (changed_grants known gs) ≡ true) =
      ground arith in
    Or.elim (ℕ_set _ _) (mem-cons.0 m)
      (λ e. subst (λ (z : Grant). last_access z.path 0 known ≡ z.access) (sym e) step.0)
      (changed_grants-empty known gs step.1 g)

-- Against an empty list, a list that is not empty misses something.
pub missing_from-nil :
    (x : String) (xs : List String) → is_empty (missing_from [] (sort_by text_le (x ∷ xs))) ≡ false
missing_from-nil x xs = elim (Bool-cases (is_empty (missing_from [] (sort_by text_le (x ∷ xs))))) [
  | inl e ↦ absurd (
      not-mem-nil (
        missing_from-empty [] _ e x
          ((Perm.mem_iff (sort_by-perm text_le (x ∷ xs))).1 (mem-cons.1 (Or.inl refl)))))
  | inr e ↦ e
]

Includes-sorted :
    (known xs : List String)
    → Includes known xs
    → Includes (sort_by text_le known) (sort_by text_le xs)
Includes-sorted known xs s x m =
    (Perm.mem_iff (sort_by-perm text_le known)).1
      (s x ((Perm.mem_iff (sort_by-perm text_le xs)).0 m))

pub Includes-missing_from :
    (known xs : List String)
    → Includes known xs
    → missing_from (sort_by text_le known) (sort_by text_le xs) ≡ []
Includes-missing_from known xs s = subset-missing_from _ _ (Includes-sorted known xs s)

-- An access that was not the one to start with is that of a grant of the list.
pub last_access-Mem :
    (g : Grant) (found : ℕ) (gs : List Grant)
    → last_access g.path found gs ≡ g.access
    → g.access ≢ found
    → Mem g gs
unfolding last_access
last_access-Mem g found [] h n = absurd (n (sym h))
last_access-Mem g found (x ∷ gs) h n = elim (Bool-cases (str_eq x.path g.path)) [
  | inr e ↦ mem-cons.1 (Or.inr (last_access-Mem g found gs (ground arith) n))
  | inl e ↦ elim (Bool-cases (x.access == g.access)) [
    | inl a ↦
        let path : g.path ≡ x.path = sym ((eq_iff x.path g.path).0 e) in
        let access : g.access ≡ x.access = ground arith in
        mem-cons.1 (Or.inl (λ i. record { path = path i; access = access i }))
    | inr a ↦
        mem-cons.1
          (Or.inr (last_access-Mem g x.access gs (ground arith) (λ same. absurd (ground arith))))
  ]
]
