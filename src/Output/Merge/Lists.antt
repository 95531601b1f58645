-- ===== src/Output/Merge/Lists.antt =====
-- Lists of lists of items, their order, and what a permutation keeps.
use mathlib.Core.Logic.Or
use mathlib.Core.List.{
  Perm, Mem, mem-cons, not-mem-nil, mem-cons_self, mem-cons_of_mem, perm_middle,
}
use mathlib.Core.List.Perm
use native.Mathlib.Bridge.{le_prop}
use bpf_ninja.Base.{
  ℕ, zero, suc, ◌<◌, ◌≤◌, ◌≡◌, ◌≢◌, refl, arith, List, [], ◌∷◌, ◌++◌, length, length-append, Every,
}
use bpf_ninja.Go.Heap.{set}
use bpf_ninja.Output.Hooks.{Item}
use bpf_ninja.Output.Merge.{instant}

-- No item is earlier than `v`.
abbrev pub NotBefore : ℕ → List Item → Type 0
NotBefore v = Every (λ it. v ≤ instant it)

-- By time.
abbrev pub IsSorted : List Item → Type 0
IsSorted [] = Unit {0}
IsSorted (it ∷ l) = NotBefore (instant it) l × IsSorted l

module _ {A : Type 0} where
  abbrev pub concat : List (List A) → List A
  concat [] = []
  concat (l ∷ ls) = l ++ concat ls

  -- The list of index `i`, which is empty out of range.
  abbrev pub at : List (List A) → ℕ → List A
  at [] i = []
  at (l ∷ ls) zero = l
  at (l ∷ ls) (suc i) = at ls i

  pub at-beyond : (ls : List (List A)) (i : ℕ) → length ls ≤ i → at ls i ≡ []
  at-beyond [] i h = refl
  at-beyond (l ∷ ls) zero h = absurd (omega arith)
  at-beyond (l ∷ ls) (suc i) h = at-beyond ls i (omega arith)

  pub at-set_same :
      (ls : List (List A)) (i : ℕ) (l : List A) → i < length ls → at (set ls i l) i ≡ l
  at-set_same [] i l h = absurd (omega arith)
  at-set_same (m ∷ ls) zero l h = refl
  at-set_same (m ∷ ls) (suc i) l h = at-set_same ls i l (omega arith)

  pub at-set_other :
      (ls : List (List A)) (i j : ℕ) (l : List A) → j ≢ i → at (set ls i l) j ≡ at ls j
  at-set_other [] i j l h = refl
  at-set_other (m ∷ ls) zero zero l h = absurd (h refl)
  at-set_other (m ∷ ls) zero (suc j) l h = refl
  at-set_other (m ∷ ls) (suc i) zero l h = refl
  at-set_other (m ∷ ls) (suc i) (suc j) l h = at-set_other ls i j l (omega (arith, h))

  -- The head of one list put in front of all that is left.
  pub concat-set :
      (ls : List (List A)) (i : ℕ) (x : A) (l : List A)
      → at ls i ≡ x ∷ l
      → Perm (concat ls) (x ∷ concat (set ls i l))
        × (length (concat ls) ≡ suc (length (concat (set ls i l))))
  concat-set [] i x l e = cc
  concat-set (m ∷ ls) zero x l e = rw e (Perm.rfl, refl)
  concat-set (m ∷ ls) (suc i) x l e =
      let (perm, len) = concat-set ls i x l e in
      (
        Perm.trans (Perm.append_left m perm) (perm_middle m (concat (set ls i l))),
        omega (arith, len, length-append m (concat ls), length-append m (concat (set ls i l))),
      )

  pub concat-nil : (ls : List (List A)) → ((i : ℕ) → at ls i ≡ []) → concat ls ≡ []
  concat-nil [] h = refl
  concat-nil (l ∷ ls) h = rw (h 0) (concat-nil ls (λ i. h (suc i)))

  pub Every-append : (P : A → Type 0) (l m : List A) → Every P l → Every P m → Every P (l ++ m)
  Every-append P [] m h k = k
  Every-append P (x ∷ l) m h k = (h.0, Every-append P l m h.1 k)

  pub Every-concat :
      (P : A → Type 0) (ls : List (List A)) → ((i : ℕ) → Every P (at ls i)) → Every P (concat ls)
  Every-concat P [] h = tt
  Every-concat P (l ∷ ls) h =
      Every-append P l (concat ls) (h 0) (Every-concat P ls (λ i. h (suc i)))

module _ {A : Type 0} (P : A → Type 0) (P-prop : (x : A) → IsProp (P x)) where
  Every-mem : (l : List A) → Every P l → (x : A) → Mem x l → P x
  Every-mem [] h x m = absurd (not-mem-nil m)
  Every-mem (y ∷ l) h x m = Or.elim (P-prop x) (mem-cons.0 m) (λ p. rw p (h.0)) (Every-mem l h.1 x)

  Every-of_mem : (l : List A) → ((x : A) → Mem x l → P x) → Every P l
  Every-of_mem [] h = tt
  Every-of_mem (x ∷ l) h = (h x mem-cons_self, Every-of_mem l (λ y m. h y (mem-cons_of_mem x m)))

  pub Every-perm : (l m : List A) → Perm l m → Every P m → Every P l
  Every-perm l m p h = Every-of_mem l (λ x q. Every-mem m h x ((Perm.mem_iff p).0 q))

pub NotBefore-perm : (v : ℕ) (l m : List Item) → Perm l m → NotBefore v m → NotBefore v l
NotBefore-perm v l m p h = Every-perm (λ it. v ≤ instant it) (λ it. le_prop) l m p h
