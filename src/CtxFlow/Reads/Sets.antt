-- ===== src/CtxFlow/Reads/Sets.antt =====
-- Sets of registers, and how large they are.
use bpf_ninja.Base.{
  ℕ, zero, suc, ◌+◌, ◌<◌, ◌≤◌, ◌≡◌, ◌≢◌, refl, arith, Bool, true, false, not, ◌&&◌, ◌||◌,
  Bool-cases, inl, inr,
}
use bpf_ninja.CtxFlow.Insns.{RegSet, has, union, inter, minus, same_bit, same_set, no_regs, bit}

pub has-union : (s t : RegSet) (r : ℕ) → has (union s t) r ≡ (has s r || has t r)
unfolding has
has-union s t zero = refl
has-union s t (suc zero) = refl
has-union s t (suc (suc zero)) = refl
has-union s t (suc (suc (suc zero))) = refl
has-union s t (suc (suc (suc (suc zero)))) = refl
has-union s t (suc (suc (suc (suc (suc zero))))) = refl
has-union s t (suc (suc (suc (suc (suc (suc r)))))) = refl

pub has-inter : (s t : RegSet) (r : ℕ) → has (inter s t) r ≡ (has s r && has t r)
unfolding has
has-inter s t zero = refl
has-inter s t (suc zero) = refl
has-inter s t (suc (suc zero)) = refl
has-inter s t (suc (suc (suc zero))) = refl
has-inter s t (suc (suc (suc (suc zero)))) = refl
has-inter s t (suc (suc (suc (suc (suc zero))))) = refl
has-inter s t (suc (suc (suc (suc (suc (suc r)))))) = refl

pub has-minus : (s t : RegSet) (r : ℕ) → has (minus s t) r ≡ (has s r && not (has t r))
unfolding has
has-minus s t zero = refl
has-minus s t (suc zero) = refl
has-minus s t (suc (suc zero)) = refl
has-minus s t (suc (suc (suc zero))) = refl
has-minus s t (suc (suc (suc (suc zero)))) = refl
has-minus s t (suc (suc (suc (suc (suc zero))))) = refl
has-minus s t (suc (suc (suc (suc (suc (suc r)))))) = refl

pub has-no_regs : (r : ℕ) → has no_regs r ≡ false
unfolding has
has-no_regs zero = refl
has-no_regs (suc zero) = refl
has-no_regs (suc (suc zero)) = refl
has-no_regs (suc (suc (suc zero))) = refl
has-no_regs (suc (suc (suc (suc zero)))) = refl
has-no_regs (suc (suc (suc (suc (suc zero))))) = refl
has-no_regs (suc (suc (suc (suc (suc (suc r)))))) = refl

-- The set of R0 has no other register.
pub has-bit : (r : ℕ) → r ≢ 0 → has (bit 0) r ≡ false
unfolding has
has-bit zero h = absurd (h refl)
has-bit (suc zero) h = refl
has-bit (suc (suc zero)) h = refl
has-bit (suc (suc (suc zero))) h = refl
has-bit (suc (suc (suc (suc zero)))) h = refl
has-bit (suc (suc (suc (suc (suc zero))))) h = refl
has-bit (suc (suc (suc (suc (suc (suc r)))))) h = refl

-- Every register of the one set is in the other.
abbrev pub Within : RegSet → RegSet → Type 0
Within s t = (r : ℕ) → has s r ≡ true → has t r ≡ true

same_bit-true : (a b : Bool) → same_bit a b ≡ true → b ≡ a
same_bit-true true b h = h
same_bit-true false true h = cc
same_bit-true false false h = refl

pub &&-true : (a b : Bool) → (a && b) ≡ true → (a ≡ true) × (b ≡ true)
&&-true true b h = (refl, h)
&&-true false b h = cc

bit_kept : (a b : Bool) → same_bit (a && b) b ≡ true → b ≡ true → a ≡ true
bit_kept true b h k = refl
bit_kept false true h k = h
bit_kept false false h k = k

-- What keeps all that was there is not smaller.
pub same_set-Within : (s t : RegSet) → same_set (inter s t) t ≡ true → Within t s
unfolding has
same_set-Within s t h r k =
    let (h0, k0) = &&-true (same_bit (s.r0 && t.r0) t.r0) _ h in
    let (h1, k1) = &&-true (same_bit (s.r1 && t.r1) t.r1) _ k0 in
    let (h2, k2) = &&-true (same_bit (s.r2 && t.r2) t.r2) _ k1 in
    let (h3, k3) = &&-true (same_bit (s.r3 && t.r3) t.r3) _ k2 in
    let (h4, h5) = &&-true (same_bit (s.r4 && t.r4) t.r4) _ k3 in kept r h0 h1 h2 h3 h4 h5 k
  where
    kept :
        (r : ℕ)
        → same_bit (s.r0 && t.r0) t.r0 ≡ true
        → same_bit (s.r1 && t.r1) t.r1 ≡ true
        → same_bit (s.r2 && t.r2) t.r2 ≡ true
        → same_bit (s.r3 && t.r3) t.r3 ≡ true
        → same_bit (s.r4 && t.r4) t.r4 ≡ true
        → same_bit (s.r5 && t.r5) t.r5 ≡ true
        → has t r ≡ true
        → has s r ≡ true
    kept zero h0 h1 h2 h3 h4 h5 k = bit_kept s.r0 t.r0 h0 k
    kept (suc zero) h0 h1 h2 h3 h4 h5 k = bit_kept s.r1 t.r1 h1 k
    kept (suc (suc zero)) h0 h1 h2 h3 h4 h5 k = bit_kept s.r2 t.r2 h2 k
    kept (suc (suc (suc zero))) h0 h1 h2 h3 h4 h5 k = bit_kept s.r3 t.r3 h3 k
    kept (suc (suc (suc (suc zero)))) h0 h1 h2 h3 h4 h5 k = bit_kept s.r4 t.r4 h4 k
    kept (suc (suc (suc (suc (suc zero))))) h0 h1 h2 h3 h4 h5 k = bit_kept s.r5 t.r5 h5 k
    kept (suc (suc (suc (suc (suc (suc r)))))) h0 h1 h2 h3 h4 h5 k = k

pub Within-union_left : (s t : RegSet) → Within s (union s t)
Within-union_left s t r h = rw (has-union s t r, h) refl

pub Within-union_right : (s t : RegSet) → Within t (union s t)
Within-union_right s t r h = elim (Bool-cases (has s r)) [
  | inl e ↦ rw (has-union s t r, e) refl
  | inr e ↦ rw (has-union s t r, e, h) refl
]

pub Within-union : (s t u : RegSet) → Within s t → Within (union s u) (union t u)
Within-union s t u k r h = elim (Bool-cases (has s r)) [
  | inl e ↦ Within-union_left t u r (k r e)
  | inr e ↦ let split = rw (has-union s u r, e) at h in Within-union_right t u r split
]

-- What is not there is not in what is within.
pub Within-not : (s t : RegSet) (r : ℕ) → Within s t → has t r ≡ false → has s r ≡ false
Within-not s t r k h = elim (Bool-cases (has s r)) [
  | inl e ↦ let bad : has t r ≡ true = k r e in cc
  | inr e ↦ e
]

-- One for a register that is there.
abbrev pub ones : Bool → ℕ
ones true = 1
ones false = 0

abbrev pub card : RegSet → ℕ
card s = ones s.r0 + ones s.r1 + ones s.r2 + ones s.r3 + ones s.r4 + ones s.r5

ones-le : (a b : Bool) → ones (a && b) ≤ ones b
ones-le true b = omega arith
ones-le false b = omega arith

ones-lt : (a b : Bool) → same_bit (a && b) b ≡ false → ones (a && b) < ones b
ones-lt true true h = cc
ones-lt true false h = cc
ones-lt false true h = omega arith
ones-lt false false h = cc

ones_one : (b : Bool) → ones b ≤ 1
ones_one true = omega arith
ones_one false = omega arith

pub card_bound : (s : RegSet) → card s ≤ 6
card_bound s = omega (
  arith,
  ones_one s.r0,
  ones_one s.r1,
  ones_one s.r2,
  ones_one s.r3,
  ones_one s.r4,
  ones_one s.r5,
)

-- Where a bit differs, it is fewer, and the others are not more.
bits_fewer :
    (a b : Bool) (rest : Bool) (m n : ℕ)
    → (same_bit (a && b) b && rest) ≡ false
    → m ≤ n
    → (rest ≡ false → m < n)
    → ones (a && b) + m < ones b + n
bits_fewer a b rest m n h k l = elim (Bool-cases (same_bit (a && b) b)) [
  | inl e ↦ omega (arith, ones-le a b, l (rw e at h))
  | inr e ↦ omega (arith, ones-lt a b e)
]

-- A set that loses something is smaller.
pub card-inter : (s t : RegSet) → same_set (inter s t) t ≡ false → card (inter s t) < card t
card-inter s t h =
    let l0 = ones-le s.r0 t.r0 in
    let l1 = ones-le s.r1 t.r1 in
    let l2 = ones-le s.r2 t.r2 in
    let l3 = ones-le s.r3 t.r3 in
    let l4 = ones-le s.r4 t.r4 in
    let l5 = ones-le s.r5 t.r5 in
    let all = bits_fewer s.r0 t.r0 _ _ _ h (omega arith) (λ h1.
      bits_fewer s.r1 t.r1 _ _ _ h1 (omega arith) (λ h2.
        bits_fewer s.r2 t.r2 _ _ _ h2 (omega arith) (λ h3.
          bits_fewer s.r3 t.r3 _ _ _ h3 (omega arith) (λ h4.
            bits_fewer s.r4 t.r4 _ (ones (s.r5 && t.r5)) (ones t.r5) h4 (omega arith)
              (ones-lt s.r5 t.r5))))) in
    omega (arith, all)
