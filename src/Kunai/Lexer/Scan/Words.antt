-- ===== src/Kunai/Lexer/Scan/Words.antt =====
-- Words and numbers, written down and read back by `Next` of pkg/kunai/lexer/lexer.go.
use mathlib.Core.Path.{subst}
use bpf_ninja.Base.{
  lt→ltb, ℕ, suc, ◌≡◌, ◌≢◌, ◌<◌, refl, ap, ◌∙◌, Bool, true, false, some, [], ◌∷◌, ◌++◌, Bytes,
  length, all, arith,
}
use bpf_ninja.Go.Strconv.{
  u64_mod, base_prefix, parse_uint_any, parse_number, parse_digits, fit, format_uint,
}
use bpf_ninja.Go.Strconv.Decimal.{
  is_decimal, parse_uint_any-format_uint, all-format_uint, no_underscore,
}
use bpf_ninja.Kunai.Lexer.Token.{TokenKind, Token, ok, word_kind}
use bpf_ninja.Kunai.Lexer.State.{
  Lexer, rest, current_pos, is_trivia, skip_trivia, is_ident_start, is_ident_cont, is_digit,
  at_wide_prefix, advance_n, scan_while,
}
use bpf_ninja.Kunai.Lexer.Moves.{Passes, run, slice-Passes}
use bpf_ninja.Kunai.Lexer.Literals.{is_ident_literal}
use bpf_ninja.Kunai.Lexer.Scan.Tiling.{scan-Passes}
use bpf_ninja.Kunai.Lexer.Scan.{
  symbol, read, next, read_ident, read_int, is_hex_prefix, finish_int, int_token,
}

-- What follows a word or a number: nothing, or a byte that cannot continue one.
abbrev pub Stops : Bytes → Type 0
Stops [] = Unit {0}
Stops (c ∷ _) = is_ident_cont c ≡ false

run-append : (p : ℕ → Bool) (w r : Bytes) → all p w ≡ true → run p r ≡ [] → run p (w ++ r) ≡ w
run-append p [] r h e = e
run-append p (b ∷ w) r h e = ground (arith, run-append p w r)

run-Stops : (r : Bytes) → Stops r → run is_ident_cont r ≡ []
run-Stops [] h = refl
run-Stops (c ∷ r) h = rw h

run_digits-Stops : (r : Bytes) → Stops r → run is_digit r ≡ []
run_digits-Stops [] h = refl
run_digits-Stops (c ∷ r) h = unfold is_ident_cont in ground arith

-- With no white space ahead nothing is skipped.
skip_trivia-stays :
    (l : Lexer) {b : ℕ} {bs : Bytes} → rest l ≡ b ∷ bs → is_trivia b ≡ false → skip_trivia l ≡ l
unfolding skip_trivia
skip_trivia-stays l h e = rw h (unfold scan_while in rw e)

trivia-start : (b : ℕ) → is_ident_start b ≡ true → is_trivia b ≡ false
unfolding is_ident_start
trivia-start b h = ground arith

trivia-digit : (b : ℕ) → is_digit b ≡ true → (is_trivia b ≡ false) × (is_ident_start b ≡ false)
unfolding is_ident_start is_digit
trivia-digit b h = ground arith

read_ident-run :
    (l : Lexer) (w : Bytes)
    → run is_ident_cont (rest l) ≡ w
    → read_ident l ≡ (ok (symbol (word_kind w) w (current_pos l)), advance_n (length w) l)
unfolding read_ident
read_ident-run l w e = rw (slice-Passes p ∙ e, p.steps, e)
  where
    p : Passes l (run is_ident_cont (rest l)) (scan_while is_ident_cont (rest l) l)
    p = scan-Passes is_ident_cont l

next-read :
    (l : Lexer) {b : ℕ} {bs : Bytes}
    → rest l ≡ b ∷ bs
    → is_trivia b ≡ false
    → next l ≡ read (b ∷ bs) l
unfolding next
next-read l h e = ap (λ s. read (rest s) s) (skip_trivia-stays l h e) ∙ ap (λ s. read s l) h

-- A word that stands at the cursor, is not followed by a byte that could continue it and does not
-- begin a 128-bit literal is one token with its whole text: a keyword's or an identifier's.
pub next-word :
    (l : Lexer) (w r : Bytes)
    → is_ident_literal w ≡ true
    → Stops r
    → rest l ≡ w ++ r
    → at_wide_prefix l ≡ false
    → next l ≡ (ok (symbol (word_kind w) w (current_pos l)), advance_n (length w) l)
unfolding is_ident_literal
next-word l [] r i s h p = cc
next-word l (b ∷ w) r i s h p =
    next-read l h (trivia-start b start)
    ∙ unfold read in rw (start, p) (read_ident-run l (b ∷ w) whole)
  where
    start : is_ident_start b ≡ true
    start = ground arith

    whole : run is_ident_cont (rest l) ≡ b ∷ w
    whole =
        ap (run is_ident_cont) h
        ∙ run-append is_ident_cont (b ∷ w) r (unfold is_ident_cont in ground arith) (run-Stops r s)

-- The token of a number.
abbrev pub number : Lexer → Bytes → ℕ → Token
number l text n = record (symbol TokenKind.int text (current_pos l)) { int = n }

finish_int-Passes :
    {l m : Lexer} {ds : Bytes} {n : ℕ}
    → Passes l ds m
    → parse_uint_any ds ≡ some n
    → finish_int l m ≡ (ok (number l ds n), m)
unfolding finish_int
finish_int-Passes {l} {m} {ds} p v =
    ap (λ t. int_token (current_pos l) m t (parse_uint_any t)) (slice-Passes p)
    ∙ ap (int_token (current_pos l) m ds) v
    ∙ unfold int_token in refl

read_int-run :
    (l : Lexer) (ds : Bytes) (n : ℕ)
    → is_hex_prefix (rest l) ≡ false
    → run is_digit (rest l) ≡ ds
    → parse_uint_any ds ≡ some n
    → read_int l ≡ (ok (number l ds n), advance_n (length ds) l)
unfolding read_int
read_int-run l ds n x e v = rw x (finish_int-Passes p v ∙ ap (λ m. (ok (number l ds n), m)) p.steps)
  where
    p : Passes l ds (scan_while is_digit (rest l) l)
    p = subst (λ t. Passes l t (scan_while is_digit (rest l) l)) e (scan-Passes is_digit l)

not_hex :
    (ds r : Bytes) → all is_digit ds ≡ true → Stops r → ds ≢ [] → is_hex_prefix (ds ++ r) ≡ false
unfolding is_hex_prefix is_digit is_ident_cont
not_hex [] r a s ne = absurd (ne refl)
not_hex (d ∷ []) [] a s ne = refl
not_hex (d ∷ []) (c ∷ r) a s ne = ground arith
not_hex (d ∷ e ∷ ds) r a s ne = ground arith

-- A run of digits whose number fits 64 bits is one token with that number.
next-digits :
    (l : Lexer) (ds r : Bytes) (n : ℕ)
    → all is_digit ds ≡ true
    → ds ≢ []
    → Stops r
    → rest l ≡ ds ++ r
    → parse_uint_any ds ≡ some n
    → next l ≡ (ok (number l ds n), advance_n (length ds) l)
next-digits l [] r n a ne s h v = absurd (ne refl)
next-digits l (d ∷ ds) r n a ne s h v =
    next-read l h (trivia-digit d first).0
    ∙ unfold read in
      rw ((trivia-digit d first).1, first)
        (read_int-run l (d ∷ ds) n (rw h (not_hex (d ∷ ds) r a s ne))
          (ap (run is_digit) h ∙ run-append is_digit (d ∷ ds) r a (run_digits-Stops r s)) v)
  where
    first : is_digit d ≡ true
    first = ground arith

all_digits : (s : Bytes) → all is_decimal s ≡ true → all is_digit s ≡ true
unfolding is_digit
all_digits [] h = refl
all_digits (c ∷ s) h = ground (arith, all_digits s)

-- A 64-bit number written in decimal at the cursor, and not followed by a letter, a digit or `_`, is
-- read back as that number.
pub next-format_uint :
    (l : Lexer) (n : ℕ) (r : Bytes)
    → n < u64_mod
    → Stops r
    → rest l ≡ format_uint n ++ r
    → next l ≡ (ok (number l (format_uint n) n), advance_n (length (format_uint n)) l)
next-format_uint l n r h s e =
    next-digits l (format_uint n) r n (all_digits (format_uint n) (all-format_uint n)) some_digit s
      e (parse_uint_any-format_uint n h)
  where
    some_digit : format_uint n ≢ []
    some_digit empty =
        let v = parse_uint_any-format_uint n h in
        absurd (unfold parse_uint_any parse_number fit in cc (rw empty at v))

base_prefix-zero :
    (d : ℕ) (ds : Bytes) → is_digit d ≡ true → base_prefix (b'0' ∷ d ∷ ds) ≡ (8, d ∷ ds)
unfolding is_digit
base_prefix-zero d [] h = refl
base_prefix-zero d (e ∷ ds) h = ground arith

parse_number-zero :
    (ds : Bytes)
    → all is_decimal ds ≡ true
    → ds ≢ []
    → parse_number (b'0' ∷ ds) ≡ parse_digits true 8 0 ds
unfolding parse_number
parse_number-zero [] a ne = absurd (ne refl)
parse_number-zero (d ∷ ds) a ne =
    rw (base_prefix-zero d ds (unfold is_digit in ground arith), no_underscore (d ∷ ds) a)

-- A zero and more decimal digits at the cursor, not followed by a byte that could continue a word,
-- are read in base 8, if the digits are octal and the number has 64 bits.
pub next_leading_zero :
    (l : Lexer) (ds r : Bytes) (n : ℕ)
    → all is_digit ds ≡ true
    → ds ≢ []
    → Stops r
    → rest l ≡ b'0' ∷ ds ++ r
    → parse_digits true 8 0 ds ≡ some n
    → n < u64_mod
    → next l ≡ (ok (number l (b'0' ∷ ds) n), advance_n (suc (length ds)) l)
unfolding parse_uint_any
next_leading_zero l ds r n a ne s h v lt =
    next-digits l (b'0' ∷ ds) r n (unfold is_digit in a) (cc) s h (
      ap (fit u64_mod) (parse_number-zero ds (unfold is_digit in a) ne ∙ v)
      ∙ unfold fit in rw (lt→ltb n u64_mod lt))
