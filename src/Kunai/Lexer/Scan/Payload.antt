-- ===== src/Kunai/Lexer/Scan/Payload.antt =====
-- What the tokens of pkg/kunai/lexer/lexer.go carry beside their text.
use bpf_ninja.Base.{
  ℕ, ◌<◌, ◌^◌, ◌≡◌, ◌≢◌, ◌⊎◌, refl, arith, Bool, true, false, Option, none, some, [], ◌∷◌, ltb,
  ◌==◌, Bytes, length, inl, inr, Bool-cases, sym, same_bytes, codes,
}
use bpf_ninja.Go.Strconv.{u64_mod, parse_uint_any}
use bpf_ninja.Kunai.Ast.{Position, Value}
use bpf_ninja.Kunai.Lexer.Token.{TokenKind, Token, ok, err, word_kind}
use bpf_ninja.Kunai.Lexer.State.{
  Lexer, rest, slice, advance, advance_n, consume, scan_while, wide_prefix, at_wide_prefix,
  skip_trivia, is_digit, is_hex_char, is_value_byte, is_ident_start, is_ident_cont, at_hex,
}
use bpf_ninja.Kunai.Lexer.Literals.{Classified, accepted, refused}
use bpf_ninja.Kunai.Lexer.Literals.Valid.{
  IsValidLiteral, IsValid, classify_value-IsValid, parse_uint_any-lt,
}
use bpf_ninja.Kunai.Lexer.Scan.{
  Outcome, symbol, int_token, finish_int, read_int, read_ident, wide_token, wide_close, wide_digits,
  read_wide, one_char, two_char, single, double, operator, read, next, wide_number, is_hex_prefix,
  value_token, read_value, next_value,
}

-- A value that is there, with a well formed literal.
abbrev pub IsGiven : Option Value → Type 0
IsGiven none = ⊥
IsGiven (some v) = IsValidLiteral v.literal

-- The numbers of a token fit 64 bits, a value token has its value, and the end no text.
pub record IsLoaded (t : Token) : Type 0 where
  pub low : t.int < u64_mod
  pub high : t.int_hi < u64_mod
  pub given : t.kind ≡ TokenKind.value → IsGiven t.value
  pub blank : t.kind ≡ TokenKind.eof → t.text ≡ []

abbrev Loads : Outcome → Type 0
Loads (ok t, m) = IsLoaded t
Loads (err e, m) = Unit {0}

symbol-IsLoaded :
    (k : TokenKind) (text : Bytes) (pos : Position)
    → k ≢ TokenKind.value
    → (k ≢ TokenKind.eof) ⊎ (text ≡ [])
    → IsLoaded (symbol k text pos)
symbol-IsLoaded k text pos h n = record {
  low = ground arith;
  high = ground arith;
  given = λ e. absurd (h e);
  blank = λ e. elim n [ inl x ↦ absurd (x e) | inr x ↦ x ];
}

one_char-kind :
    (b : ℕ) {k : TokenKind} → one_char b ≡ some k → (k ≢ TokenKind.value) × (k ≢ TokenKind.eof)
unfolding one_char
one_char-kind b e = ((λ h. ground arith), (λ h. ground arith))

two_char-kind :
    (b c : ℕ) {k : TokenKind} → two_char b c ≡ some k → (k ≢ TokenKind.value) × (k ≢ TokenKind.eof)
unfolding two_char
two_char-kind b c e = ((λ h. ground arith), (λ h. ground arith))

word_kind-kind :
    (text : Bytes) → (word_kind text ≢ TokenKind.value) × (word_kind text ≢ TokenKind.eof)
unfolding word_kind
word_kind-kind text = ((λ h. ground arith), (λ h. ground arith))

single-Loads : (b : ℕ) (l : Lexer) (o : Option TokenKind) → o ≡ one_char b → Loads (single b l o)
unfolding single
single-Loads b l none e = tt
single-Loads b l (some k) e =
    let (v, n) = one_char-kind b (sym e) in symbol-IsLoaded k _ _ v (inl n)

double-Loads :
    (b c : ℕ) (l : Lexer) (o : Option TokenKind) → o ≡ two_char b c → Loads (double b c l o)
unfolding double
double-Loads b c l none e = single-Loads b l (one_char b) refl
double-Loads b c l (some k) e =
    let (v, n) = two_char-kind b c (sym e) in symbol-IsLoaded k _ _ v (inl n)

operator-Loads : (b : ℕ) (bs : Bytes) (l : Lexer) → Loads (operator b bs l)
unfolding operator
operator-Loads b [] l = single-Loads b l (one_char b) refl
operator-Loads b (c ∷ bs) l = double-Loads b c l (two_char b c) refl

int_token-Loads :
    (pos : Position) (m : Lexer) (text : Bytes) (o : Option ℕ)
    → o ≡ parse_uint_any text
    → Loads (int_token pos m text o)
unfolding int_token
int_token-Loads pos m text none e = tt
int_token-Loads pos m text (some n) e = record {
  low = parse_uint_any-lt text (sym e);
  high = ground arith;
  given = λ e. absurd (cc);
  blank = λ e. absurd (cc);
}

finish_int-Loads : (l m : Lexer) → Loads (finish_int l m)
unfolding finish_int
finish_int-Loads l m = int_token-Loads _ m (slice l m) (parse_uint_any (slice l m)) refl

read_int-Loads : (l : Lexer) → Loads (read_int l)
unfolding read_int
read_int-Loads l = elim (Bool-cases (is_hex_prefix (rest l))) [
  | inl e ↦ elim (Bool-cases (at_hex (advance (advance l)))) [
    | inl f ↦
        rw (e, f)
          (finish_int-Loads l
            (scan_while is_hex_char (rest (advance (advance l))) (advance (advance l))))
    | inr f ↦ rw (e, f) tt
  ]
  | inr e ↦ rw e (finish_int-Loads l (scan_while is_digit (rest l) l))
]

wide_token-Loads :
    (pos : Position) (m : Lexer) (text digits : Bytes) (o : Option ℕ)
    → Loads (wide_token pos m text digits o)
unfolding wide_token
wide_token-Loads pos m text digits none = tt
wide_token-Loads pos m text digits (some n) = elim (Bool-cases (ltb n (2 ^ 128))) [
  | inl e ↦ rw e (record {
    low = omega arith;
    high = ground arith;
    given = λ e. absurd (cc);
    blank = λ e. absurd (cc);
  })
  | inr e ↦ rw e tt
]

wide_close-Loads : (l d e : Lexer) (c : Bool × Lexer) → Loads (wide_close l d e c)
unfolding wide_close
wide_close-Loads l d e (false, m) = tt
wide_close-Loads l d e (true, m) = elim (Bool-cases (same_bytes (slice d e) [])) [
  | inl x ↦ rw x tt
  | inr x ↦ rw x (wide_token-Loads _ m _ _ (wide_number (slice d e)))
]

wide_digits-Loads : (l : Lexer) (width : Bytes) (c : Bool × Lexer) → Loads (wide_digits l width c)
unfolding wide_digits
wide_digits-Loads l width (false, m) = tt
wide_digits-Loads l width (true, d) =
    let e = scan_while is_digit (rest d) d in wide_close-Loads l d e (consume (codes ")") e)

read_wide-Loads : (l : Lexer) → Loads (read_wide l)
unfolding read_wide
read_wide-Loads l = elim (Bool-cases (same_bytes (slice w m) (codes "128"))) [
  | inl e ↦ rw e (wide_digits-Loads l (slice w m) (consume (codes ">(") m))
  | inr e ↦ rw e tt
]
  where
    w : Lexer
    w = advance_n (length wide_prefix) l

    m : Lexer
    m = scan_while is_digit (rest w) w

read-Loads : (bs : Bytes) (l : Lexer) → Loads (read bs l)
unfolding read read_ident
read-Loads [] l = symbol-IsLoaded TokenKind.eof _ _ (λ e. cc) (inr refl)
read-Loads (b ∷ bs) l = elim (Bool-cases (is_ident_start b)) [
  | inl e ↦ elim (Bool-cases (at_wide_prefix l)) [
    | inl f ↦ rw (e, f) (read_wide-Loads l)
    | inr f ↦
        let (v, n) = word_kind-kind (slice l (scan_while is_ident_cont (rest l) l)) in
        rw (e, f) (symbol-IsLoaded _ _ _ v (inl n))
  ]
  | inr e ↦ elim (Bool-cases (is_digit b)) [
    | inl f ↦ rw (e, f) (read_int-Loads l)
    | inr f ↦ rw (e, f) (operator-Loads b bs l)
  ]
]

value_token-Loads :
    (raw : Bytes) (l m : Lexer) (c : Classified) → IsValid c → Loads (value_token raw l m c)
unfolding value_token
value_token-Loads raw l m (refused why) h = tt
value_token-Loads raw l m (accepted v) h = record {
  low = ground arith;
  high = ground arith;
  given = λ e. h;
  blank = λ e. absurd (cc);
}

read_value-Loads : (bs : Bytes) (l : Lexer) → Loads (read_value bs l)
unfolding read_value
read_value-Loads [] l = symbol-IsLoaded TokenKind.eof _ _ (λ e. cc) (inr refl)
read_value-Loads (b ∷ bs) l = elim (Bool-cases (at_wide_prefix l)) [
  | inl e ↦ rw e tt
  | inr e ↦ elim (Bool-cases ((scan_while is_value_byte (b ∷ bs) l).pos == l.pos)) [
    | inl f ↦ rw (e, f) tt
    | inr f ↦
        rw (e, f)
          (value_token-Loads _ l _ _
            (classify_value-IsValid (slice l (scan_while is_value_byte (b ∷ bs) l))))
  ]
]

-- The numbers of a token of `Next` fit 64 bits, and it has its value if it is one.
pub next-IsLoaded : (l : Lexer) {t : Token} {m : Lexer} → next l ≡ (ok t, m) → IsLoaded t
unfolding next
next-IsLoaded l e = rw e at (read-Loads (rest (skip_trivia l)) (skip_trivia l))

-- The value of a token of `NextValue` is there and well formed.
pub next_value-IsLoaded :
    (l : Lexer) {t : Token} {m : Lexer} → next_value l ≡ (ok t, m) → IsLoaded t
unfolding next_value
next_value-IsLoaded l e = rw e at (read_value-Loads (rest (skip_trivia l)) (skip_trivia l))
