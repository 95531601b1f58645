-- ===== src/CtxFlow/Reads/Potential.antt =====
-- How much a walk of `ArgReads` still has to do.
use bpf_ninja.Base.{
  ℕ, zero, suc, ◌+◌, ◌*◌, ◌<◌, ◌≤◌, ◌≡◌, refl, arith, false, Option, none, some, List, [], ◌∷◌,
  ◌==◌, length, Bool-cases, Option-cases, inl, inr,
}
use bpf_ninja.CtxFlow.Insns.{RegSet, inter, same_set}
use bpf_ninja.CtxFlow.Reads.{lookup, Walk, arrive, arrive_all}
use bpf_ninja.CtxFlow.Reads.Sets.{card, card_bound, card-inter}

-- How much may still be taken from a set; one that is not there counts for all.
weight : Option RegSet → ℕ
weight none = 7
weight (some s) = card s

weight_bound : (o : Option RegSet) → weight o ≤ 7
unfolding weight
weight_bound none = omega arith
weight_bound (some s) = omega (arith, card_bound s)

-- The weight of the first `n` instructions.
pub potential : ℕ → List (ℕ × RegSet) → ℕ
unfolding weight
potential zero m = 0
potential (suc n) m = weight (lookup n m) + potential n m

pub potential_bound : (n : ℕ) (m : List (ℕ × RegSet)) → potential n m ≤ 7 * n
unfolding potential
potential_bound zero m = omega arith
potential_bound (suc n) m = omega (arith, weight_bound (lookup n m), potential_bound n m)

potential_other :
    (n s : ℕ) (v : RegSet) (m : List (ℕ × RegSet))
    → n ≤ s
    → potential n ((s, v) ∷ m) ≡ potential n m
unfolding potential
potential_other zero s v m h = refl
potential_other (suc n) s v m h =
    let other : (s == n) ≡ false = ground arith in
    rw (other, potential_other n s v m (omega arith)) refl

potential_update :
    (n s : ℕ) (v : RegSet) (m : List (ℕ × RegSet))
    → s < n
    → potential n ((s, v) ∷ m) + weight (lookup s m) ≡ potential n m + card v
unfolding potential
potential_update zero s v m h = absurd (omega arith)
potential_update (suc n) s v m h = elim (Bool-cases (s == n)) [
  | inl e ↦
      let same : s ≡ n = ground (arith, e) in
      let rest = potential_other n s v m (omega (arith, same)) in
      rw (e, rest, same) (unfold weight in omega arith)
  | inr e ↦
      let less : s < n = ground (arith, e) in rw e (omega (arith, potential_update n s v m less))
]

-- What is to be done in a walk of `n` instructions.
abbrev pub pending : ℕ → Walk → ℕ
pending n k = length k.work + potential n k.written

arrive-pending : (n s : ℕ) (w : RegSet) (k : Walk) → s < n → pending n (arrive w s k) ≤ pending n k
unfolding arrive
arrive-pending n s w k h = elim (Option-cases (lookup s k.written)) [
  | inl e ↦
      let moved = potential_update n s w k.written h in
      let moved' = rw e at moved in
      rw (arrive, e) (unfold weight in omega (arith, moved', card_bound w))
  | inr (old, e) ↦ elim (Bool-cases (same_set (inter w old) old)) [
    | inl t ↦ rw (arrive, e, t) (omega arith)
    | inr t ↦
        let moved = potential_update n s (inter w old) k.written h in
        let moved' = rw e at moved in
        rw (arrive, e, t) (unfold weight in omega (arith, moved', card-inter w old t))
  ]
]

-- All of a list are less than `n`.
abbrev pub Below : ℕ → List ℕ → Type 0
Below n [] = Unit {0}
Below n (s ∷ l) = (s < n) × Below n l

pub arrive_all-pending :
    (n : ℕ) (w : RegSet) (l : List ℕ) (k : Walk)
    → Below n l
    → pending n (arrive_all w l k) ≤ pending n k
unfolding arrive_all
arrive_all-pending n w [] k h = omega arith
arrive_all-pending n w (s ∷ l) k h =
    omega (arith, arrive-pending n s w k h.0, arrive_all-pending n w l (arrive w s k) h.1)
