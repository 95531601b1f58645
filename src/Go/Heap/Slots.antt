-- ===== src/Go/Heap/Slots.antt =====
-- What a slice holds after a write or an exchange.
use mathlib.Core.List.{Perm}
use mathlib.Core.List.Perm
use bpf_ninja.Base.{
  ℕ, zero, suc, ◌<◌, ◌≤◌, ◌≡◌, refl, ap, arith, none, some, List, [], ◌∷◌, ◌++◌, ◌==◌,
  if◌then◌else◌, length, get_elem?, take,
}
use bpf_ninja.Go.Heap.{set, swap, key_at}

module _ {A : Type 0} where
  pub get_elem?-some : (a : List A) (i : ℕ) → i < length a → (x : A) × (get_elem? a i ≡ some x)
  get_elem?-some (first ∷ rest) zero inside = (first, refl)
  get_elem?-some (first ∷ rest) (suc p) inside = get_elem?-some rest p (omega arith)
  get_elem?-some [] p inside = absurd (omega arith)

  pub get_elem?-set :
      (slots : List A) (p c : ℕ) (new : A)
      → p < length slots
      → get_elem? (set slots p new) c ≡ (if p == c then some new else get_elem? slots c)
  get_elem?-set (first ∷ rest) (suc p) (suc c) new inside =
      ground (arith, get_elem?-set rest p c new (omega arith))
  get_elem?-set (first ∷ rest) (suc p) zero new inside = ground arith
  get_elem?-set (first ∷ rest) zero (suc c) new inside = ground arith
  get_elem?-set (first ∷ rest) zero zero new inside = refl
  get_elem?-set [] p c new inside = absurd (omega arith)

  pub length-set : (slots : List A) (p : ℕ) (new : A) → length (set slots p new) ≡ length slots
  length-set (first ∷ rest) (suc p) new = omega (arith, length-set rest p new)
  length-set (first ∷ rest) zero new = refl
  length-set [] p new = refl

  -- A write trades the old element for the new one.
  pub set-perm :
      (a : List A) (i : ℕ) (x v : A) → get_elem? a i ≡ some x → Perm (x ∷ set a i v) (v ∷ a)
  set-perm [] i x v e = cc
  set-perm (y ∷ a) zero x v e = let same : y ≡ x = ground (arith, e) in rw same (Perm.swap v x a)
  set-perm (y ∷ a) (suc i) x v e =
      Perm.trans (Perm.swap y x _) (Perm.trans (Perm.cons y (set-perm a i x v e)) (Perm.swap v y a))

  pub get_elem?-beyond : (a : List A) (i : ℕ) → length a ≤ i → get_elem? a i ≡ none
  get_elem?-beyond [] i h = refl
  get_elem?-beyond (x ∷ a) zero h = absurd (omega arith)
  get_elem?-beyond (x ∷ a) (suc i) h = get_elem?-beyond a i (omega arith)

  pub take-get_elem? :
      (a : List A) (n : ℕ) (x : A)
      → length a ≡ suc n
      → get_elem? a n ≡ some x
      → take n a ++ x ∷ [] ≡ a
  take-get_elem? [] n x h e = absurd (omega arith)
  take-get_elem? (y ∷ []) zero x h e = ground (arith, e)
  take-get_elem? (y ∷ z ∷ a) zero x h e = absurd (omega arith)
  take-get_elem? (y ∷ a) (suc n) x h e = ap (◌∷◌ y) (take-get_elem? a n x (omega arith) e)

  pub get_elem?-take :
      (n : ℕ) (slots : List A) (c : ℕ) → c < n → get_elem? (take n slots) c ≡ get_elem? slots c
  get_elem?-take (suc n) (first ∷ rest) (suc c) below = get_elem?-take n rest c (omega arith)
  get_elem?-take (suc n) (first ∷ rest) zero below = refl
  get_elem?-take (suc n) [] c below = refl
  get_elem?-take zero slots c below = absurd (omega arith)

  pub get_elem?-append :
      (slots more : List A) (c : ℕ)
      → c < length slots
      → get_elem? (slots ++ more) c ≡ get_elem? slots c
  get_elem?-append (first ∷ rest) more (suc c) inside = get_elem?-append rest more c (omega arith)
  get_elem?-append (first ∷ rest) more zero inside = refl
  get_elem?-append [] more c inside = absurd (omega arith)

  -- The two elements that an exchange moves, and what it writes.
  swap_lem :
      (a : List A) (i j : ℕ) (x y : A)
      → get_elem? a i ≡ some x
      → get_elem? a j ≡ some y
      → swap a i j ≡ set (set a i y) j x
  unfolding swap
  swap_lem a i j x y ex ey = rw (swap, ex, ey) refl

  module _ (a : List A) (i j : ℕ) (hi : i < length a) (hj : j < length a) where
    pub get_elem?-swap :
        (c : ℕ)
        → get_elem? (swap a i j) c
          ≡ (if j == c then get_elem? a i else if i == c then get_elem? a j else get_elem? a c)
    get_elem?-swap c =
        let (x, ex) = get_elem?-some a i hi in
        let (y, ey) = get_elem?-some a j hj in
        let inside : j < length (set a i y) = rw (length-set a i y) hj in
        rw
          (
            swap_lem a i j x y ex ey,
            get_elem?-set (set a i y) j c x inside,
            get_elem?-set a i c y hi,
            ex,
            ey,
          )
          refl

    pub length-swap : length (swap a i j) ≡ length a
    length-swap =
        let (x, ex) = get_elem?-some a i hi in
        let (y, ey) = get_elem?-some a j hj in
        rw (swap_lem a i j x y ex ey, length-set (set a i y) j x, length-set a i y) refl

    pub swap-perm : Perm (swap a i j) a
    swap-perm =
        let (x, ex) = get_elem?-some a i hi in
        let (y, ey) = get_elem?-some a j hj in
        let kept : get_elem? (set a i y) j ≡ some y = ground (arith, get_elem?-set a i j y hi) in
        rw (swap_lem a i j x y ex ey)
          (Perm.cons_inv (Perm.trans (set-perm (set a i y) j y x kept) (set-perm a i x y ex)))

    pub key_at-swap :
        (key : A → ℕ) (c : ℕ)
        → key_at key (swap a i j) c
          ≡ (if j == c then key_at key a i else if i == c then key_at key a j else key_at key a c)
    unfolding key_at
    key_at-swap key c = rw (key_at, get_elem?-swap c) (ground arith)
