-- ===== src/Go/Heap/Order.antt =====
-- The order of a heap: `up` and `down` restore it, and the root is least.
use mathlib.Core.List.{Perm}
use mathlib.Core.List.Perm
use bpf_ninja.Base.{
  ℕ, zero, suc, ◌+◌, ◌*◌, ◌<◌, ◌≤◌, ◌≡◌, ◌≢◌, refl, arith, true, not, ◌||◌, List, ltb, ◌==◌, length,
  get_elem?, inl, inr, Bool-cases, ◌⊎◌, ◌∙◌,
}
use bpf_ninja.Go.Heap.{swap, parent, key_at, less, up, child, down}
use bpf_ninja.Go.Heap.Slots.{get_elem?-swap, key_at-swap, length-swap, swap-perm}

module _ {A : Type 0} (key : A → ℕ) where
  -- No element of the first `n` is less than its parent.
  abbrev pub IsHeap : ℕ → List A → Type 0
  IsHeap n a = (c : ℕ) → 0 < c → c < n → key_at key a (parent c) ≤ key_at key a c

  -- The root is least.
  pub IsHeap-root :
      (f n : ℕ) (a : List A) (c : ℕ) → IsHeap n a → c < f → c < n → key_at key a 0 ≤ key_at key a c
  IsHeap-root zero n a c v h k = absurd (omega arith)
  IsHeap-root (suc f) n a zero v h k = omega arith
  IsHeap-root (suc f) n a (suc c) v h k =
      let above = v (suc c) (omega arith) k in
      omega (arith, IsHeap-root f n a (parent (suc c)) v (omega arith) (omega arith))

  -- Only the edge above `j` may be out of order.
  pub record IsRising (a : List A) (j : ℕ) : Type 0 where
    pub inside : j < length a
    pub edges : (c : ℕ) → 0 < c → c < length a → c ≢ j → key_at key a (parent c) ≤ key_at key a c
    pub bridged :
        (c : ℕ)
        → 0 < j
        → 0 < c
        → c < length a
        → parent c ≡ j
        → key_at key a (parent j) ≤ key_at key a c

  swap-IsRising :
      (a : List A) (j : ℕ)
      → IsRising a j
      → 0 < j
      → key_at key a j < key_at key a (parent j)
      → IsRising (swap a (parent j) j) (parent j)
  swap-IsRising a j v h k =
      let above : parent j < length a = ground (arith, v.inside) in
      grind (
        arith,
        length-swap a (parent j) j above v.inside,
        key_at-swap a (parent j) j above v.inside key,
      )

  -- What is left when `up` stops.
  settled :
      (a : List A) (j : ℕ)
      → IsRising a j
      → (parent j == j || not (less key a j (parent j))) ≡ true
      → IsHeap (length a) a
  settled a j v e c p q = elim (Bool-cases (c == j)) [
    | inl s ↦ ground (arith, s, e, v.edges c)
    | inr s ↦ v.edges c p q (ground arith)
  ]

  pub up-IsHeap :
      (f : ℕ) (a : List A) (j : ℕ)
      → j ≤ f
      → IsRising a j
      → IsHeap (length a) (up key f a j)
        × Perm (up key f a j) a
        × (length (up key f a j) ≡ length a)
  unfolding up
  up-IsHeap zero a j h v = (λ c p q. v.edges c p q (omega arith), Perm.rfl, refl)
  up-IsHeap (suc f) a j h v = elim (Bool-cases (parent j == j || not (less key a j (parent j)))) [
    | inl e ↦ rw e (settled a j v e, Perm.rfl, refl)
    | inr e ↦
        let low : (0 < j) × (key_at key a j < key_at key a (parent j)) = ground arith in
        let above : parent j < length a = ground (arith, v.inside) in
        let same = length-swap a (parent j) j above v.inside in
        let (order, perm, len) =
          up-IsHeap f (swap a (parent j) j) (parent j) (omega arith)
            (swap-IsRising a j v low.0 low.1) in
        rw e
          (rw same at order, Perm.trans perm (swap-perm a (parent j) j above v.inside), len ∙ same)
  ]

  -- Only the edges below `i` may be out of order.
  pub record IsSinking (n : ℕ) (a : List A) (i : ℕ) : Type 0 where
    pub within : n ≤ length a
    pub edges : (c : ℕ) → 0 < c → c < n → parent c ≢ i → key_at key a (parent c) ≤ key_at key a c
    pub bridged :
        (c : ℕ) → 0 < i → 0 < c → c < n → parent c ≡ i → key_at key a (parent i) ≤ key_at key a c

  -- `down` looks at the less child.
  child_least :
      (a : List A) (i n : ℕ)
      → 2 * i + 1 < n
      → (i < child key a i n)
        × (child key a i n < n)
        × (parent (child key a i n) ≡ i)
        × ((c : ℕ) → 0 < c → c < n → parent c ≡ i → key_at key a (child key a i n) ≤ key_at key a c)
  unfolding child
  child_least a i n h = (
    ground arith,
    ground arith,
    ground arith,
    λ c p q e.
        let which : (c ≡ 2 * i + 1) ⊎ (c ≡ 2 * i + 2) = ground arith in
        elim which [ inl s ↦ rw s (ground arith) | inr s ↦ rw s (ground (arith, q)) ],
  )

  swap-IsSinking :
      (n : ℕ) (a : List A) (i j : ℕ)
      → IsSinking n a i
      → i < j
      → j < n
      → parent j ≡ i
      → ((c : ℕ) → 0 < c → c < n → parent c ≡ i → key_at key a j ≤ key_at key a c)
      → key_at key a j < key_at key a i
      → IsSinking n (swap a i j) j
  swap-IsSinking n a i j v h k e least l =
      let hi : i < length a = ground (arith, v.within) in
      let hj : j < length a = ground (arith, v.within) in
      grind (arith, length-swap a i j hi hj, key_at-swap a i j hi hj key)

  -- What `down` leaves: a heap of the first `n`, with the others where they were.
  pub down-IsHeap :
      (f n : ℕ) (a : List A) (i : ℕ)
      → n ≤ f + i
      → IsSinking n a i
      → IsHeap n (down key f a i n)
        × Perm (down key f a i n) a
        × (length (down key f a i n) ≡ length a)
        × ((c : ℕ) → n ≤ c → get_elem? (down key f a i n) c ≡ get_elem? a c)
  unfolding down
  down-IsHeap zero n a i h v = (λ c p q. v.edges c p q (omega arith), Perm.rfl, refl, λ c p. refl)
  down-IsHeap (suc f) n a i h v = elim (Bool-cases (ltb (2 * i + 1) n)) [
    | inr e ↦ rw e (λ c p q. v.edges c p q (ground (arith, e)), Perm.rfl, refl, λ c p. refl)
    | inl e ↦
        let (lower, inside, edge, least) = child_least a i n (ground (arith, e)) in
        elim (Bool-cases (less key a (child key a i n) i)) [
          | inr k ↦
              rw (e, k)
                (
                  λ c p q. elim (Bool-cases (parent c == i)) [
                    | inl s ↦ ground (arith, s, k, least c)
                    | inr s ↦ v.edges c p q (ground (arith, s))
                  ],
                  Perm.rfl,
                  refl,
                  λ c p. refl,
                )
          | inl k ↦
              let j = child key a i n in
              let hi : i < length a = ground (arith, v.within) in
              let hj : j < length a = ground (arith, v.within) in
              let (order, perm, len, fixed) =
                down-IsHeap f n (swap a i j) j (omega arith)
                  (swap-IsSinking n a i j v lower inside edge least (ground (arith, k))) in
              rw (e, k)
                (
                  order,
                  Perm.trans perm (swap-perm a i j hi hj),
                  len ∙ length-swap a i j hi hj,
                  λ c p. fixed c p ∙ ground (arith, get_elem?-swap a i j hi hj c),
                )
        ]
  ]
