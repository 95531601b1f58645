-- ===== src/Go/Heap.antt =====
-- Go's container/heap on a slice whose elements are compared by a number. The indices that it uses
-- are in range; out of range a slice is left as it is and a key is 0.
pub mod Slots
pub mod Order
pub mod Queue
use bpf_ninja.Base.{
  ℕ, zero, suc, ◌+◌, ◌-◌, ◌*◌, ◌/◌, Bool, ◌||◌, not, Option, none, some, List, [], ◌∷◌, ◌++◌, ltb,
  ◌==◌, if◌then◌else◌, length, get_elem?, take,
}

module _ {A : Type 0} where
  abbrev pub set : List A → ℕ → A → List A
  set [] p new = []
  set (_ ∷ rest) zero new = new ∷ rest
  set (first ∷ rest) (suc p) new = first ∷ set rest p new

  -- `h.Swap(i, j)` of a slice
  unfoldable pub swap : List A → ℕ → ℕ → List A
  swap a i j = elim (get_elem? a i) [
    | none ↦ a
    | some x ↦ elim (get_elem? a j) [ none ↦ a | some y ↦ set (set a i y) j x ]
  ]

abbrev pub parent : ℕ → ℕ
parent j = (j - 1) / 2

module _ {A : Type 0} (key : A → ℕ) where
  unfoldable pub key_at : List A → ℕ → ℕ
  key_at a i = elim (get_elem? a i) [ none ↦ 0 | some x ↦ key x ]

  abbrev pub less : List A → ℕ → ℕ → Bool
  less a i j = ltb (key_at a i) (key_at a j)

  -- `up`; a round goes to the parent of `j`, so that `j` rounds are enough.
  unfoldable pub up : ℕ → List A → ℕ → List A
  unfolding key_at swap
  up zero a j = a
  up (suc f) a j =
      let rise = up f (swap a (parent j) j) (parent j) in
      if parent j == j || not (less a j (parent j)) then a else rise

  -- The child of `i` that `down` looks at, of a heap of `n` elements.
  unfoldable pub child : List A → ℕ → ℕ → ℕ
  unfolding key_at
  child a i n =
      if ltb (2 * i + 2) n
      then (if less a (2 * i + 2) (2 * i + 1) then 2 * i + 2 else 2 * i + 1)
      else 2 * i + 1

  -- `down`; a round goes to a child of `i` below `n`, so that `n` rounds are enough.
  unfoldable pub down : ℕ → List A → ℕ → ℕ → List A
  unfolding key_at swap child
  down zero a i n = a
  down (suc f) a i n =
      let sink = down f (swap a i (child a i n)) (child a i n) n in
      if ltb (2 * i + 1) n then (if less a (child a i n) i then sink else a) else a

  -- `heap.Push`
  unfoldable pub push : List A → A → List A
  unfolding up
  push a x = up (length a) (a ++ x ∷ []) (length a)

  -- `heap.Pop`: the element and the heap that is left; `none` is an empty heap.
  unfoldable pub pop : List A → Option (A × List A)
  unfolding down swap
  pop [] = none
  pop (x ∷ r) =
      let n = length r in
      let b = down n (swap (x ∷ r) 0 n) 0 n in
      elim (get_elem? b n) [ none ↦ none | some x ↦ some (x, take n b) ]
