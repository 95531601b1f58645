-- ===== src/Go/Strings.antt =====
-- The functions of Go's `strings` that the program calls, on texts given as bytes.
use bpf_ninja.Base.{
  length, suc, refl, ap, ℕ, ◌+◌, Bool, true, false, ◌&&◌, ◌||◌, Option, none, some, List, [], ◌∷◌,
  ◌++◌, ◌≡◌, arith, ◌==◌, if◌then◌else◌, Bytes, any,
}

-- `strings.HasPrefix(s, prefix)`
unfoldable pub has_prefix : Bytes → Bytes → Bool
has_prefix s [] = true
has_prefix [] (p ∷ ps) = false
has_prefix (c ∷ s) (p ∷ ps) = c == p && has_prefix s ps

-- `strings.TrimPrefix` and `strings.CutPrefix`: the rest behind the prefix, if it is there.
unfoldable pub cut_prefix : Bytes → Bytes → Option Bytes
cut_prefix s [] = some s
cut_prefix [] (p ∷ ps) = none
cut_prefix (c ∷ s) (p ∷ ps) = if c == p then cut_prefix s ps else none

-- `strings.ContainsRune(s, r)` for an ASCII `r`
abbrev pub contains : Bytes → ℕ → Bool
contains s r = any (λ c. c == r) s

-- `strings.Count(s, r)` for a text of one byte
abbrev pub count : ℕ → Bytes → ℕ
count r [] = 0
count r (c ∷ s) = (if c == r then 1 else 0) + count r s

cons_to_head : ℕ → Bytes × List Bytes → Bytes × List Bytes
cons_to_head c (h, t) = (c ∷ h, t)

-- `strings.Split(s, sep)` for a text `sep` of one byte: the first part, and the others.
split_parts : ℕ → Bytes → Bytes × List Bytes
unfolding cons_to_head
split_parts sep [] = ([], [])
split_parts sep (c ∷ s) =
    let (h, t) = split_parts sep s in if c == sep then ([], h ∷ t) else (c ∷ h, t)

unfoldable pub split : ℕ → Bytes → List Bytes
unfolding split_parts
split sep s = let (h, t) = split_parts sep s in h ∷ t

-- `strings.Cut(s, "..")`: what stands before and behind the first two dots.
unfoldable pub cut_dots : Bytes → Option (Bytes × Bytes)
cut_dots (c ∷ d ∷ s) =
    let later : Option (Bytes × Bytes) = elim (cut_dots (d ∷ s)) [
      | some (a, b) ↦ some (c ∷ a, b)
      | none ↦ none
    ] in
    if c == b'.' && d == b'.' then some ([], s) else later
cut_dots _ = none

-- Unicode's white space below 0x80, which is what `strings.TrimSpace` drops of an ASCII text.
abbrev pub is_space : ℕ → Bool
is_space c = c == b' ' || (c == 9 || (c == 10 || (c == 11 || (c == 12 || c == 13))))

trim_left : Bytes → Bytes
trim_left [] = []
trim_left (c ∷ s) = if is_space c then trim_left s else c ∷ s

trim_right : Bytes → Bytes
trim_right [] = []
trim_right (c ∷ s) = elim (trim_right s) [
  | [] ↦ if is_space c then [] else c ∷ []
  | d ∷ t ↦ c ∷ d ∷ t
]

-- `strings.TrimSpace(s)`
unfoldable pub trim_space : Bytes → Bytes
unfolding trim_left trim_right
trim_space s = trim_right (trim_left s)

-- A cut puts the text back together.
pub cut_prefix-some : (s p : Bytes) {r : Bytes} → cut_prefix s p ≡ some r → s ≡ p ++ r
unfolding cut_prefix
cut_prefix-some s [] e = ground arith
cut_prefix-some [] (p ∷ ps) e = ground arith
cut_prefix-some (c ∷ s) (p ∷ ps) {r} e = ground (arith, cut_prefix-some s ps {r = r})

length-split_parts : (sep : ℕ) (s : Bytes) → length (split_parts sep s).1 ≡ count sep s
unfolding split_parts
length-split_parts sep [] = refl
length-split_parts sep (c ∷ s) = ground (arith, length-split_parts sep s)

-- A split has one part more than the text has separators.
pub length-split : (sep : ℕ) (s : Bytes) → length (split sep s) ≡ suc (count sep s)
unfolding split
length-split sep s = ap suc (length-split_parts sep s)
