-- ===== src/Kunai/Lexer/Location.antt =====
-- Lines and columns of pkg/kunai/lexer/lexer.go, against a description that does not run the
-- scanner.
use bpf_ninja.Base.{
  ℕ, zero, suc, ◌+◌, ◌≡◌, refl, sym, ap, ◌∙◌, ◌⊎◌, inl, inr, false, some, [], ◌∷◌, ◌++◌,
  append_assoc, append-nil, ◌==◌, Bytes, take, length, get_elem?, get_elem?-drop, Bool-cases,
  length-append, arith, ==_iff,
}
use bpf_ninja.Go.Strings.{count}
use bpf_ninja.Kunai.Lexer.State.{Lexer, rest, new, advance, advance_n}
use bpf_ninja.Kunai.Lexer.Moves.{Passes, rest-advance}

-- The text before a place is whole lines and the beginning of one more; the line number counts the
-- newlines and the column the bytes behind the last of them, both from 1.
pub record Locates (before : Bytes) (line col : ℕ) : Type 0 where
  pub lines : Bytes
  pub current : Bytes
  pub splits : before ≡ lines ++ current
  pub ended : (lines ≡ []) ⊎ ((h : Bytes) × (lines ≡ h ++ b'\n' ∷ []))
  pub unbroken : count b'\n' current ≡ 0
  pub line_is : line ≡ suc (count b'\n' lines)
  pub col_is : col ≡ suc (length current)

abbrev pub IsLocated : Lexer → Type 0
IsLocated l = Locates (take l.pos l.src) l.line l.col

count-append : (b : ℕ) (s t : Bytes) → count b (s ++ t) ≡ count b s + count b t
count-append b [] t = omega arith
count-append b (c ∷ s) t = omega (arith, count-append b s t)

take-suc :
    (n : ℕ) (xs : Bytes) {b : ℕ} → get_elem? xs n ≡ some b → take (suc n) xs ≡ take n xs ++ b ∷ []
take-suc n [] h = cc
take-suc zero (x ∷ xs) h = ground arith
take-suc (suc n) (x ∷ xs) h = ap (◌∷◌ x) (take-suc n xs h)

take-next :
    (n : ℕ) (xs : Bytes) {b : ℕ} → get_elem? xs n ≡ some b → take (n + 1) xs ≡ take n xs ++ b ∷ []
take-next n xs h = ap (λ k. take k xs) (let e : n + 1 ≡ suc n = omega arith in e) ∙ take-suc n xs h

Locates-newline :
    {before : Bytes} {line col : ℕ}
    → Locates before line col
    → Locates (before ++ b'\n' ∷ []) (line + 1) 1
Locates-newline {before} v = record {
  lines = before ++ b'\n' ∷ [];
  current = [];
  splits = sym (append-nil _);
  ended = inr (before, refl);
  unbroken = refl;
  line_is = omega (
    arith,
    v.line_is,
    v.unbroken,
    ap (count b'\n') v.splits,
    count-append b'\n' v.lines v.current,
    count-append b'\n' before (b'\n' ∷ []),
  );
  col_is = refl;
}

Locates-byte :
    {before : Bytes} {line col : ℕ} (b : ℕ)
    → (b == b'\n') ≡ false
    → Locates before line col
    → Locates (before ++ b ∷ []) line (col + 1)
Locates-byte {before} b h v = record {
  lines = v.lines;
  current = v.current ++ b ∷ [];
  splits = ap (λ s. s ++ b ∷ []) v.splits ∙ append_assoc v.lines v.current (b ∷ []);
  ended = v.ended;
  unbroken = ground (arith, v.unbroken, count-append b'\n' v.current (b ∷ []));
  line_is = v.line_is;
  col_is = omega (arith, v.col_is, length-append v.current (b ∷ []));
}

-- The scanner starts on line 1, column 1.
pub new-IsLocated : (src file : Bytes) → IsLocated (new src file)
unfolding new
new-IsLocated src file = record {
  lines = [];
  current = [];
  splits = refl;
  ended = inl refl;
  unbroken = refl;
  line_is = refl;
  col_is = refl;
}

advance-IsLocated :
    (l : Lexer) {b : ℕ} {bs : Bytes} → rest l ≡ b ∷ bs → IsLocated l → IsLocated (advance l)
unfolding advance
advance-IsLocated l {b} h v = rw at_cursor (elim (Bool-cases (b == b'\n')) [
  | inl e ↦ rw e (rw (next, (==_iff b b'\n').0 e) (Locates-newline v))
  | inr e ↦ rw e (rw next (Locates-byte b e v))
])
  where
    at_cursor : get_elem? l.src l.pos ≡ some b
    at_cursor = get_elem?-drop l.pos l.src ∙ ap (λ s. get_elem? s 0) h

    next : take (l.pos + 1) l.src ≡ take l.pos l.src ++ b ∷ []
    next = take-next l.pos l.src at_cursor

advance_n-IsLocated :
    (t r : Bytes) (l : Lexer) → rest l ≡ t ++ r → IsLocated l → IsLocated (advance_n (length t) l)
unfolding advance_n
advance_n-IsLocated [] r l h v = v
advance_n-IsLocated (b ∷ t) r l h v =
    advance_n-IsLocated t r (advance l) (rest-advance l h) (advance-IsLocated l h v)

-- Wherever the scanner goes, its line and column stay right.
pub Passes-IsLocated : {l m : Lexer} {t : Bytes} → Passes l t m → IsLocated l → IsLocated m
Passes-IsLocated {l} {m} {t} p v = rw p.steps (advance_n-IsLocated t (rest m) l p.ahead v)
