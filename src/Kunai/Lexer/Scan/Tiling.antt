-- ===== src/Kunai/Lexer/Scan/Tiling.antt =====
-- What `Next` and `NextValue` of pkg/kunai/lexer/lexer.go return lies in the source where they say.
use bpf_ninja.Base.{
  ℕ, ◌≡◌, ◌≢◌, refl, sym, ap, ◌∙◌, inl, inr, Bool, true, false, Option, none, some, [], ◌∷◌, ◌++◌,
  ◌==◌, Bytes, length, same_bytes, ltb, ◌^◌, Bool-cases, arith, codes, Option-cases,
}
use bpf_ninja.Go.Strconv.{parse_uint_any}
use bpf_ninja.Kunai.Lexer.Token.{TokenKind, Token, ok, err}
use bpf_ninja.Kunai.Lexer.State.{
  Lexer, rest, current_pos, advance, advance_n, scan_while, slice, is_ident_start, is_ident_cont,
  is_digit, is_hex_char, is_value_byte, consume, wide_prefix, at_wide_prefix, at_hex,
}
use bpf_ninja.Kunai.Lexer.Moves.{
  Passes, Passes-cons, Passes-trans, advance-Passes, rest-advance, run, scan_while-Passes,
  has_prefix-Passes, consume-Passes, Passes-pos, slice-Passes,
}
use bpf_ninja.Kunai.Lexer.Literals.{Classified, accepted, refused, classify_value}
use bpf_ninja.Kunai.Lexer.Scan.{
  Outcome, read_ident, int_token, finish_int, is_hex_prefix, read_int, wide_token, wide_number,
  wide_close, wide_digits, read_wide, single, double, operator, one_char, two_char, read,
  value_token, read_value,
}

-- A token that is not the end: its text stands at the cursor, where its position says, and the
-- scanner is behind it.
pub record Lexeme (l : Lexer) (t : Token) (m : Lexer) : Type 0 where
  pub passed : Passes l t.text m
  pub placed : t.pos ≡ current_pos l
  pub solid : t.text ≢ []

-- An error is reported at the cursor.
abbrev pub IsLexeme : Lexer → Outcome → Type 0
IsLexeme l (ok t, m) = Lexeme l t m
IsLexeme l (err e, m) = e.pos ≡ current_pos l

append-ne-nil : (s t : Bytes) → s ≢ [] → s ++ t ≢ []
append-ne-nil [] t ne = absurd (ne refl)
append-ne-nil (b ∷ s) t ne = cc

Lexeme-slice :
    {l m : Lexer} {text : Bytes} (t : Token)
    → Passes l text m
    → text ≢ []
    → t.text ≡ slice l m
    → t.pos ≡ current_pos l
    → Lexeme l t m
Lexeme-slice {l} {m} t p ne e at_l = record {
  passed = rw (e ∙ slice-Passes p) p;
  placed = at_l;
  solid = λ empty. ne (sym (slice-Passes p) ∙ sym e ∙ empty);
}

run-ne-nil : (p : ℕ → Bool) (b : ℕ) (bs : Bytes) → p b ≡ true → run p (b ∷ bs) ≢ []
run-ne-nil p b bs h = ground arith

-- A run of bytes that pass a test, the first of them at the cursor.
scan-ne-nil :
    (p : ℕ → Bool) (l : Lexer) {b : ℕ} {bs : Bytes}
    → rest l ≡ b ∷ bs
    → p b ≡ true
    → run p (rest l) ≢ []
scan-ne-nil p l {b} {bs} h e = rw h (run-ne-nil p b bs e)

pub scan-Passes : (p : ℕ → Bool) (l : Lexer) → Passes l (run p (rest l)) (scan_while p (rest l) l)
scan-Passes p l = scan_while-Passes p (rest l) l refl

ident_start-cont : (b : ℕ) → is_ident_start b ≡ true → is_ident_cont b ≡ true
unfolding is_ident_cont
ident_start-cont b h = rw h

read_ident-Lexeme :
    (l : Lexer) {b : ℕ} {bs : Bytes}
    → rest l ≡ b ∷ bs
    → is_ident_start b ≡ true
    → IsLexeme l (read_ident l)
unfolding read_ident
read_ident-Lexeme l {b} h s =
    Lexeme-slice _ (scan-Passes is_ident_cont l)
      (scan-ne-nil is_ident_cont l h (ident_start-cont b s)) refl refl

finish_int-Lexeme :
    {l m : Lexer} {text : Bytes} → Passes l text m → text ≢ [] → IsLexeme l (finish_int l m)
unfolding finish_int
finish_int-Lexeme {l} {m} p ne = elim (Option-cases (parse_uint_any (slice l m))) [
  | inl e ↦ rw (e, int_token) refl
  | inr (n, e) ↦ rw (e, int_token) (Lexeme-slice _ p ne refl refl)
]

-- `0x` at the cursor.
hex_prefix-rest : (s : Bytes) → is_hex_prefix s ≡ true → (b c : ℕ) × (bs : Bytes) × (s ≡ b ∷ c ∷ bs)
unfolding is_hex_prefix
hex_prefix-rest (b ∷ c ∷ bs) h = (b, c, bs, refl)
hex_prefix-rest [] h = cc
hex_prefix-rest (b ∷ []) h = cc

two-Passes :
    (l : Lexer) {b c : ℕ} {bs : Bytes}
    → rest l ≡ b ∷ c ∷ bs
    → Passes l (b ∷ c ∷ []) (advance (advance l))
two-Passes l h = Passes-cons l h (advance-Passes (advance l) (rest-advance l h))

read_int-Lexeme :
    (l : Lexer) {b : ℕ} {bs : Bytes} → rest l ≡ b ∷ bs → is_digit b ≡ true → IsLexeme l (read_int l)
unfolding read_int
read_int-Lexeme l h d = elim (Bool-cases (is_hex_prefix (rest l))) [
  | inl e ↦ elim (Bool-cases (at_hex (advance (advance l)))) [
    | inl f ↦
        let (b, c, bs, s) = hex_prefix-rest (rest l) e in
        rw (e, f)
          (finish_int-Lexeme
            (Passes-trans (two-Passes l s) (scan-Passes is_hex_char (advance (advance l)))) (cc))
    | inr f ↦ rw (e, f) refl
  ]
  | inr e ↦ rw e (finish_int-Lexeme (scan-Passes is_digit l) (scan-ne-nil is_digit l h d))
]

wide_close-Lexeme :
    (l d e : Lexer) {text : Bytes} (c : Bool × Lexer)
    → (c.0 ≡ true → Passes l text c.1)
    → text ≢ []
    → IsLexeme l (wide_close l d e c)
unfolding wide_close wide_token
wide_close-Lexeme l d e (false, m) p ne = refl
wide_close-Lexeme l d e (true, m) p ne = elim (Bool-cases (same_bytes (slice d e) [])) [
  | inl x ↦ rw x refl
  | inr x ↦ rw x (elim (Option-cases (wide_number (slice d e))) [
    | inl y ↦ rw (y, wide_token) refl
    | inr (n, y) ↦
        rw (y, wide_token)
          (elim (Bool-cases (ltb n (2 ^ 128))) [
            | inl z ↦ rw z (Lexeme-slice _ (p refl) ne refl refl)
            | inr z ↦ rw z refl
          ])
  ])
]

-- The pieces of `int<128>(n)` stand one behind the other.
wide_digits-Lexeme :
    (l : Lexer) (width : Bytes) {text : Bytes} (c : Bool × Lexer)
    → (c.0 ≡ true → Passes l text c.1)
    → text ≢ []
    → IsLexeme l (wide_digits l width c)
unfolding wide_digits
wide_digits-Lexeme l width (false, m) p ne = refl
wide_digits-Lexeme l width {text} (true, d) p ne =
    wide_close-Lexeme l d e (consume (codes ")") e) closed (append-ne-nil text _ ne)
  where
    e : Lexer
    e = scan_while is_digit (rest d) d

    closed :
        (consume (codes ")") e).0 ≡ true
        → Passes l (text ++ (run is_digit (rest d) ++ codes ")")) (consume (codes ")") e).1
    closed h =
        Passes-trans (p refl)
          (Passes-trans (scan-Passes is_digit d) (consume-Passes (codes ")") e h))

read_wide-Lexeme : (l : Lexer) → at_wide_prefix l ≡ true → IsLexeme l (read_wide l)
unfolding read_wide at_wide_prefix
read_wide-Lexeme l h = elim (Bool-cases (same_bytes (slice w m) (codes "128"))) [
  | inl e ↦ rw e (wide_digits-Lexeme l (slice w m) (consume (codes ">(") m) opened (cc))
  | inr e ↦ rw e refl
]
  where
    w : Lexer
    w = advance_n (length wide_prefix) l

    m : Lexer
    m = scan_while is_digit (rest w) w

    opened :
        (consume (codes ">(") m).0 ≡ true
        → Passes l (wide_prefix ++ (run is_digit (rest w) ++ codes ">(")) (consume (codes ">(") m).1
    opened e =
        Passes-trans (has_prefix-Passes wide_prefix (rest l) l refl h)
          (Passes-trans (scan-Passes is_digit w) (consume-Passes (codes ">(") m e))

single-Lexeme :
    (l : Lexer) (b : ℕ) {bs : Bytes} (o : Option TokenKind)
    → rest l ≡ b ∷ bs
    → IsLexeme l (single b l o)
unfolding single
single-Lexeme l b none h = refl
single-Lexeme l b (some kind) h = record { passed = advance-Passes l h; placed = refl; solid = cc }

double-Lexeme :
    (l : Lexer) (b n : ℕ) {bs : Bytes} (o : Option TokenKind)
    → rest l ≡ b ∷ n ∷ bs
    → IsLexeme l (double b n l o)
unfolding double
double-Lexeme l b n none h = single-Lexeme l b (one_char b) h
double-Lexeme l b n (some kind) h = record { passed = two-Passes l h; placed = refl; solid = cc }

operator-Lexeme : (l : Lexer) (b : ℕ) (bs : Bytes) → rest l ≡ b ∷ bs → IsLexeme l (operator b bs l)
unfolding operator
operator-Lexeme l b [] h = single-Lexeme l b (one_char b) h
operator-Lexeme l b (n ∷ bs) h = double-Lexeme l b n (two_char b n) h

pub read-Lexeme : (l : Lexer) (b : ℕ) (bs : Bytes) → rest l ≡ b ∷ bs → IsLexeme l (read (b ∷ bs) l)
unfolding read
read-Lexeme l b bs h = elim (Bool-cases (is_ident_start b)) [
  | inl s ↦ elim (Bool-cases (at_wide_prefix l)) [
    | inl w ↦ rw (s, w) (read_wide-Lexeme l w)
    | inr w ↦ rw (s, w) (read_ident-Lexeme l h s)
  ]
  | inr s ↦ elim (Bool-cases (is_digit b)) [
    | inl d ↦ rw (s, d) (read_int-Lexeme l h d)
    | inr d ↦ rw (s, d) (operator-Lexeme l b bs h)
  ]
]

value_token-Lexeme :
    {l m : Lexer} {text : Bytes} (c : Classified)
    → Passes l text m
    → text ≢ []
    → IsLexeme l (value_token (slice l m) l m c)
unfolding value_token
value_token-Lexeme (refused why) p ne = refl
value_token-Lexeme (accepted v) p ne = Lexeme-slice _ p ne refl refl

pub read_value-Lexeme :
    (l : Lexer) (b : ℕ) (bs : Bytes) → rest l ≡ b ∷ bs → IsLexeme l (read_value (b ∷ bs) l)
unfolding read_value
read_value-Lexeme l b bs h = elim (Bool-cases (at_wide_prefix l)) [
  | inl w ↦ rw w refl
  | inr w ↦ elim (Bool-cases ((scan_while is_value_byte (b ∷ bs) l).pos == l.pos)) [
    | inl e ↦ rw (w, e) refl
    | inr e ↦
        rw (w, e)
          (value_token-Lexeme (classify_value (slice l (scan_while is_value_byte (b ∷ bs) l)))
            passed (moved e))
  ]
]
  where
    passed : Passes l (run is_value_byte (b ∷ bs)) (scan_while is_value_byte (b ∷ bs) l)
    passed = scan_while-Passes is_value_byte (b ∷ bs) l h

    moved :
        ((scan_while is_value_byte (b ∷ bs) l).pos == l.pos) ≡ false
        → run is_value_byte (b ∷ bs) ≢ []
    moved e empty = ground (arith, Passes-pos passed, ap length empty)
