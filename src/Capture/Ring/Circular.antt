-- ===== src/Capture/Ring/Circular.antt =====
-- The double mapping of internal/capture/fastrb/reader.go: a record that runs over the end of the
-- ring lies in one piece.
use native.Mathlib.Nat.{mod-lt, add-zero}
use bpf_ninja.Base.{
  ℕ, zero, suc, ◌+◌, ◌-◌, ◌%◌, ◌<◌, ◌≤◌, ◌≡◌, refl, ap, sym, ◌∙◌, [], ◌∷◌, ◌++◌, ltb, Bytes, length,
  take, drop, arith, length-append, inl, inr, Bool-cases,
}
use bpf_ninja.Capture.Ring.{get_or, load_u32, word_of}

-- The byte at a position of the circular memory `pages`.
abbrev pub byte_at : Bytes → ℕ → ℕ
byte_at pages q = get_or pages (q % length pages)

-- The bytes at `n` positions from `q` on.
abbrev pub bytes_at : Bytes → ℕ → ℕ → Bytes
bytes_at pages q zero = []
bytes_at pages q (suc n) = byte_at pages q ∷ bytes_at pages (suc q) n

get_or-append_left : (a b : Bytes) (i : ℕ) → i < length a → get_or (a ++ b) i ≡ get_or a i
get_or-append_left [] b i h = absurd (omega arith)
get_or-append_left (x ∷ a) b zero h = refl
get_or-append_left (x ∷ a) b (suc i) h = get_or-append_left a b i (omega arith)

get_or-append_right : (a b : Bytes) (i : ℕ) → get_or (a ++ b) (length a + i) ≡ get_or b i
get_or-append_right [] b i = ap (get_or b) (omega arith)
get_or-append_right (x ∷ a) b i =
    ap (get_or (x ∷ (a ++ b))) (let e : suc (length a) + i ≡ suc (length a + i) = omega arith in e)
    ∙ get_or-append_right a b i

mod_wrap : (q i n : ℕ) → 0 < n → q % n + i < n → (q + i) % n ≡ q % n + i
mod_wrap q i n p h = grind arith

mod_wrap_over : (q i n : ℕ) → 0 < n → i ≤ n → n ≤ q % n + i → (q + i) % n ≡ q % n + i - n
mod_wrap_over q i n p h k = grind arith

-- In the doubled pages an offset within one more turn is the circular position.
pub get_or-double :
    (pages : Bytes) (q i : ℕ)
    → 0 < length pages
    → i ≤ length pages
    → get_or (pages ++ pages) (q % length pages + i) ≡ byte_at pages (q + i)
get_or-double pages q i p h = elim (Bool-cases (ltb (q % length pages + i) (length pages))) [
  | inl e ↦
      get_or-append_left pages pages (q % length pages + i) (ground arith)
      ∙ ap (get_or pages) (sym (mod_wrap q i (length pages) p (ground arith)))
  | inr e ↦
      let over : length pages ≤ q % length pages + i = ground arith in
      ap (get_or (pages ++ pages)) (omega (arith, over))
      ∙ get_or-append_right pages pages (q % length pages + i - length pages)
      ∙ ap (get_or pages) (sym (mod_wrap_over q i (length pages) p h over))
]

-- A length word, read at a circular position.
pub load_u32-double :
    (pages : Bytes) (q : ℕ)
    → 3 ≤ length pages
    → load_u32 (pages ++ pages) (q % length pages) ≡ word_of (λ i. byte_at pages (q + i))
unfolding load_u32
load_u32-double pages q h = omega (
  arith,
  get_or-double pages q 0 (omega arith) (omega arith),
  get_or-double pages q 1 (omega arith) (omega arith),
  get_or-double pages q 2 (omega arith) (omega arith),
  get_or-double pages q 3 (omega arith) h,
)

take-drop-suc :
    (n off : ℕ) (xs : Bytes)
    → off < length xs
    → take (suc n) (drop off xs) ≡ get_or xs off ∷ take n (drop (suc off) xs)
take-drop-suc n off [] h = absurd (omega arith)
take-drop-suc n zero (x ∷ xs) h = refl
take-drop-suc n (suc off) (x ∷ xs) h = take-drop-suc n off xs (omega arith)

slice-double_from :
    (pages : Bytes) (q i n : ℕ)
    → 0 < length pages
    → i + n ≤ length pages
    → take n (drop (q % length pages + i) (pages ++ pages)) ≡ bytes_at pages (q + i) n
slice-double_from pages q i zero p h = refl
slice-double_from pages q i (suc n) p h =
    take-drop-suc n (q % length pages + i) (pages ++ pages)
      (omega (arith, length-append pages pages, mod-lt q {m = length pages} p))
    ∙ ap (λ (b : ℕ). b ∷ take n (drop (suc (q % length pages + i)) (pages ++ pages)))
        (get_or-double pages q i p (omega arith))
    ∙ ap (◌∷◌ (byte_at pages (q + i))) (
        ap (λ k. take n (drop k (pages ++ pages))) next_offset
        ∙ slice-double_from pages q (suc i) n p (omega arith)
        ∙ ap (λ k. bytes_at pages k n) next_position)
  where
    next_offset : suc (q % length pages + i) ≡ q % length pages + suc i
    next_offset = omega arith

    next_position : q + suc i ≡ suc (q + i)
    next_position = omega arith

-- A slice of up to one turn of the doubled pages is a run of the circular memory.
pub slice-double :
    (pages : Bytes) (q n : ℕ)
    → 0 < length pages
    → n ≤ length pages
    → take n (drop (q % length pages) (pages ++ pages)) ≡ bytes_at pages q n
slice-double pages q n p h =
    ap (λ k. take n (drop k (pages ++ pages))) (sym (add-zero (q % length pages)))
    ∙ slice-double_from pages q 0 n p (omega arith)
    ∙ ap (λ k. bytes_at pages k n) (add-zero q)
