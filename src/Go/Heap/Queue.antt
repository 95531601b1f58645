-- ===== src/Go/Heap/Queue.antt =====
-- `Push` and `Pop` of container/heap as a queue whose least element comes first.
use mathlib.Core.Logic.Or
use mathlib.Core.List.{Perm, perm_append_singleton, Mem, mem-cons, not-mem-nil}
use mathlib.Core.List.Perm
use native.Mathlib.Bridge.{le_prop}
use bpf_ninja.Base.{
  ℕ, suc, ◌+◌, ◌<◌, ◌≤◌, ◌≡◌, refl, ◌∙◌, arith, some, List, [], ◌∷◌, ◌++◌, length, get_elem?, take,
  length-append, length-take,
}
use bpf_ninja.Go.Heap.{swap, parent, key_at, down, push, pop}
use bpf_ninja.Go.Heap.Slots.{
  get_elem?-swap, length-swap, swap-perm, key_at-swap, take-get_elem?, get_elem?-take,
  get_elem?-append,
}
use bpf_ninja.Go.Heap.Order.{IsHeap, IsHeap-root, IsRising, up-IsHeap, IsSinking, down-IsHeap}

module _ {A : Type 0} (key : A → ℕ) where
  pub key_at-mem :
      (k : ℕ) (a : List A)
      → ((c : ℕ) → c < length a → k ≤ key_at key a c)
      → (e : A) → Mem e a
      → k ≤ key e
  unfolding key_at
  key_at-mem k [] h e m = absurd (not-mem-nil m)
  key_at-mem k (x ∷ a) h e m =
      Or.elim le_prop (mem-cons.0 m) (λ p. rw p (h 0 (omega arith)))
        (key_at-mem k a (λ c q. h (suc c) (omega arith)) e)

  key_at-append : (a b : List A) (c : ℕ) → c < length a → key_at key (a ++ b) c ≡ key_at key a c
  unfolding key_at
  key_at-append a b c h = rw (key_at, get_elem?-append a b c h) refl

  key_at-take : (n : ℕ) (a : List A) (c : ℕ) → c < n → key_at key (take n a) c ≡ key_at key a c
  unfolding key_at
  key_at-take n a c h = rw (key_at, get_elem?-take n a c h) refl

  append-IsRising :
      (a : List A) (x : A) → IsHeap key (length a) a → IsRising key (a ++ x ∷ []) (length a)
  append-IsRising a x v =
      let len : length (a ++ x ∷ []) ≡ length a + 1 = omega (arith, length-append a (x ∷ [])) in
      record {
        inside = omega arith;
        edges = λ c p q r.
            ground (arith, v c p, key_at-append a (x ∷ []) c, key_at-append a (x ∷ []) (parent c));
        bridged = λ c o p q r. absurd (ground arith);
      }

  pub push-IsHeap :
      (a : List A) (x : A)
      → IsHeap key (length a) a
      → IsHeap key (length (push key a x)) (push key a x)
        × Perm (push key a x) (x ∷ a)
        × (length (push key a x) ≡ suc (length a))
  unfolding push
  push-IsHeap a x v =
      let (order, perm, len) =
        up-IsHeap key (length a) (a ++ x ∷ []) (length a) (omega arith) (append-IsRising a x v) in
      (
        rw len order,
        Perm.trans perm (perm_append_singleton x a),
        omega (arith, len, length-append a (x ∷ [])),
      )

  swap-IsSinking_root :
      (a : List A) (n : ℕ)
      → IsHeap key (length a) a
      → length a ≡ suc n
      → IsSinking key n (swap a 0 n) 0
  swap-IsSinking_root a n v h =
      let hi : 0 < length a = omega arith in
      let hj : n < length a = omega arith in
      let moved = key_at-swap a 0 n hi hj key in
      record {
        within = omega (arith, length-swap a 0 n hi hj);
        edges = λ c p q r. ground (arith, v c p, moved c, moved (parent c));
        bridged = λ c o p q r. absurd (omega arith);
      }

  pub pop-IsHeap :
      (a : List A)
      → IsHeap key (length a) a
      → 0 < length a
      → (x : A) × (r : List A) × (pop key a ≡ some (x, r))
        × IsHeap key (length r) r
        × Perm a (x ∷ r)
        × ((e : A) → Mem e a → key x ≤ key e)
        × (length a ≡ suc (length r))
  unfolding pop key_at
  pop-IsHeap [] v h = absurd (omega arith)
  pop-IsHeap (y ∷ a) v h =
      let n : ℕ = length a in
      let hi : 0 < length (y ∷ a) = omega arith in
      let hj : n < length (y ∷ a) = omega arith in
      let s : List A = swap (y ∷ a) 0 n in
      let (order, perm, len, fixed) =
        down-IsHeap key n n s 0 (omega arith) (swap-IsSinking_root (y ∷ a) n v refl) in
      let b : List A = down key n s 0 n in
      let size : length b ≡ suc n = len ∙ length-swap (y ∷ a) 0 n hi hj in
      let last : get_elem? b n ≡ some y =
        fixed n (omega arith) ∙ ground (arith, get_elem?-swap (y ∷ a) 0 n hi hj n) in
      let whole : take n b ++ y ∷ [] ≡ b = take-get_elem? b n y size last in
      let short : length (take n b) ≡ n = length-take n b (omega arith) in
      (
        y,
        take n b,
        rw (pop, last) refl,
        λ c p q. ground (arith, order c p, key_at-take n b c, key_at-take n b (parent c)),
        Perm.symm (
            Perm.trans (Perm.symm (perm_append_singleton y (take n b)))
              (rw whole (Perm.trans perm (swap-perm (y ∷ a) 0 n hi hj)))),
        key_at-mem (key y) (y ∷ a)
            (λ c q. IsHeap-root key (suc c) (length (y ∷ a)) (y ∷ a) c v (omega arith) q),
        omega (arith, short),
      )
