-- ===== src/Kunai/Lexer/Scan.antt =====
-- pkg/kunai/lexer/lexer.go: structural mode (`Next`) and value mode (`NextValue`). Each reader
-- returns its outcome with the state that it leaves, on an error too.
pub mod Tiling
pub mod Source
pub mod Payload
pub mod Words
use bpf_ninja.Base.{
  ℕ, ◌/◌, ◌%◌, ◌^◌, Bool, true, false, ◌&&◌, ◌||◌, Option, none, some, [], ◌∷◌, ltb, leb, ◌==◌,
  if◌then◌else◌, Bytes, length, codes, same_bytes,
}
use bpf_ninja.Go.Strconv.{parse_uint_any, parse_number, parse_digits, u64_mod}
use bpf_ninja.Kunai.Ast.{Position}
use bpf_ninja.Kunai.Lexer.Token.{TokenKind, Token, word_kind, Message, Result, ok, err}
use bpf_ninja.Kunai.Lexer.State.{
  Lexer, rest, current_pos, advance, advance_n, scan_while, slice, is_ident_start, is_digit,
  is_ident_cont, is_hex_char, is_value_byte, skip_trivia, at_hex, wide_prefix, at_wide_prefix,
  consume, syntax_err,
}
use bpf_ninja.Kunai.Lexer.Literals.{Classified, accepted, refused, classify_value}

-- What a reader returns, with the state that it leaves.
abbrev pub Outcome : Type 0
Outcome = Result Token × Lexer

-- A token with no number and no value.
abbrev pub symbol : TokenKind → Bytes → Position → Token
symbol kind text pos = record {
  kind = kind;
  text = text;
  int = 0;
  int_hi = 0;
  value = none;
  pos = pos;
}

-- A `SyntaxError` at a position, in the state `m`.
abbrev fail : Lexer → Position → Message → Outcome
fail m pos message = (err (syntax_err m pos message), m)

-- `readIdent`
unfoldable pub read_ident : Lexer → Outcome
unfolding scan_while slice word_kind is_ident_cont
read_ident l =
    let m = scan_while is_ident_cont (rest l) l in
    (ok (symbol (word_kind (slice l m)) (slice l m) (current_pos l)), m)

-- The hint of `readInt`: a literal of up to 40 bytes may fit 128 bits.
wide_hint : Bytes → Option ℕ → Message
wide_hint text none = Message.invalid_integer text
wide_hint text (some n) =
    if ltb n (2 ^ 128) then Message.exceeds_64_bits text n else Message.invalid_integer text

int_message : Bytes → Message
unfolding wide_hint parse_number
int_message text =
    if leb (length text) 40
    then wide_hint text (parse_number text)
    else Message.invalid_integer text

int_token : Position → Lexer → Bytes → Option ℕ → Outcome
unfolding int_message
int_token pos m text none = fail m pos (int_message text)
int_token pos m text (some n) = (ok (record (symbol TokenKind.int text pos) { int = n }), m)

-- The end of `readInt`: the digits stand between `l` and `m`.
finish_int : Lexer → Lexer → Outcome
unfolding int_token slice parse_uint_any
finish_int l m = int_token (current_pos l) m (slice l m) (parse_uint_any (slice l m))

is_hex_prefix : Bytes → Bool
is_hex_prefix (z ∷ x ∷ _) = z == b'0' && (x == b'x' || x == b'X')
is_hex_prefix _ = false

-- `readInt`
unfoldable pub read_int : Lexer → Outcome
unfolding finish_int is_hex_prefix advance scan_while at_hex is_hex_char is_digit
read_int l =
    let m = advance (advance l) in
    if is_hex_prefix (rest l)
    then (if at_hex m
        then finish_int l (scan_while is_hex_char (rest m) m)
        else fail m (current_pos l) Message.malformed_hex)
    else finish_int l (scan_while is_digit (rest l) l)

wide_token : Position → Lexer → Bytes → Bytes → Option ℕ → Outcome
wide_token pos m text digits none = fail m pos (Message.wide_too_large digits)
wide_token pos m text digits (some n) =
    if ltb n (2 ^ 128)
    then (
      ok (record (symbol TokenKind.wide text pos) { int = n % u64_mod; int_hi = n / u64_mod }),
      m,
    )
    else fail m pos (Message.wide_too_large digits)

-- The number of up to 39 digits.
wide_number : Bytes → Option ℕ
unfolding parse_digits
wide_number digits = if leb (length digits) 39 then parse_digits false 10 0 digits else none

-- The closing parenthesis behind the digits, which stand between `d` and `e`.
wide_close : Lexer → Lexer → Lexer → Bool × Lexer → Outcome
unfolding slice wide_token wide_number
wide_close l d e (true, m) =
    if same_bytes (slice d e) []
    then fail e (current_pos l) Message.wide_without_digits
    else wide_token (current_pos l) m (slice l m) (slice d e) (wide_number (slice d e))
wide_close l d e (false, m) = fail m (current_pos l) Message.wide_without_digits

-- The digits behind `>(`.
wide_digits : Lexer → Bytes → Bool × Lexer → Outcome
unfolding wide_close scan_while is_digit consume same_bytes
wide_digits l width (true, d) =
    let e = scan_while is_digit (rest d) d in wide_close l d e (consume (codes ")") e)
wide_digits l width (false, m) = fail m (current_pos l) (Message.wide_unsupported width)

-- `readWide`
unfoldable pub read_wide : Lexer → Outcome
unfolding wide_digits advance_n
read_wide l =
    let w = advance_n (length wide_prefix) l in
    let m = scan_while is_digit (rest w) w in
    if same_bytes (slice w m) (codes "128")
    then wide_digits l (slice w m) (consume (codes ">(") m)
    else fail m (current_pos l) (Message.wide_unsupported (slice w m))

-- The two-character operators.
two_char : ℕ → ℕ → Option TokenKind
two_char b n =
    if b == b'=' && n == b'='
    then some TokenKind.eq_eq
    else if b == b'!' && n == b'='
    then some TokenKind.neq
    else if b == b'<' && n == b'='
    then some TokenKind.le
    else if b == b'>' && n == b'='
    then some TokenKind.ge
    else if b == b'<' && n == b'<'
    then some TokenKind.shl
    else if b == b'>' && n == b'>'
    then some TokenKind.shr
    else none

-- The single-character tokens.
one_char : ℕ → Option TokenKind
one_char b =
    if b == b'/'
    then some TokenKind.slash
    else if b == b'@'
    then some TokenKind.at
    else if b == b'['
    then some TokenKind.lbracket
    else if b == b']'
    then some TokenKind.rbracket
    else if b == b'('
    then some TokenKind.lparen
    else if b == b')'
    then some TokenKind.rparen
    else if b == b'{'
    then some TokenKind.lbrace
    else if b == b'}'
    then some TokenKind.rbrace
    else if b == b','
    then some TokenKind.comma
    else if b == b'.'
    then some TokenKind.dot
    else if b == b'|'
    then some TokenKind.pipe
    else if b == b'?'
    then some TokenKind.question
    else if b == b'+'
    then some TokenKind.plus
    else if b == b'*'
    then some TokenKind.star
    else if b == b'-'
    then some TokenKind.minus
    else if b == b'%'
    then some TokenKind.percent
    else if b == b'&'
    then some TokenKind.amp
    else if b == b'^'
    then some TokenKind.caret
    else if b == b':'
    then some TokenKind.colon
    else if b == b'='
    then some TokenKind.eq
    else if b == b'<'
    then some TokenKind.lt
    else if b == b'>'
    then some TokenKind.gt
    else none

single : ℕ → Lexer → Option TokenKind → Outcome
unfolding advance
single b l none = fail (advance l) (current_pos l) (Message.unexpected_character b)
single b l (some kind) = (ok (symbol kind (b ∷ []) (current_pos l)), advance l)

double : ℕ → ℕ → Lexer → Option TokenKind → Outcome
unfolding single one_char
double b n l none = single b l (one_char b)
double b n l (some kind) = (ok (symbol kind (b ∷ n ∷ []) (current_pos l)), advance (advance l))

-- Operators and punctuation: two characters where they make one.
operator : ℕ → Bytes → Lexer → Outcome
unfolding double two_char
operator b [] l = single b l (one_char b)
operator b (n ∷ _) l = double b n l (two_char b n)

-- The token at the cursor, with the bytes ahead of it.
unfoldable pub read : Bytes → Lexer → Outcome
unfolding at_wide_prefix read_wide read_ident read_int operator is_ident_start
read [] l = (ok (symbol TokenKind.eof [] (current_pos l)), l)
read (b ∷ bs) l =
    if is_ident_start b
    then (if at_wide_prefix l then read_wide l else read_ident l)
    else if is_digit b
    then read_int l
    else operator b bs l

-- `Next`
unfoldable pub next : Lexer → Outcome
unfolding read skip_trivia
next l = let m = skip_trivia l in read (rest m) m

value_token : Bytes → Lexer → Lexer → Classified → Outcome
value_token raw l m (refused why) = fail m (current_pos l) (Message.bad_value why)
value_token raw l m (accepted literal) = (
  ok (record (symbol TokenKind.value raw (current_pos l)) {
    value = some (record { raw = raw; literal = literal; pos = current_pos l });
  }),
  m,
)

-- The value at the cursor, with the bytes ahead of it.
unfoldable pub read_value : Bytes → Lexer → Outcome
unfolding at_wide_prefix value_token classify_value scan_while slice is_value_byte
read_value [] l = (ok (symbol TokenKind.eof [] (current_pos l)), l)
read_value (b ∷ bs) l =
    let m = scan_while is_value_byte (b ∷ bs) l in
    if at_wide_prefix l
    then fail l (current_pos l) Message.wide_outside_where
    else if m.pos == l.pos
    then fail m (current_pos l) (Message.value_expected b)
    else value_token (slice l m) l m (classify_value (slice l m))

-- `NextValue`
unfoldable pub next_value : Lexer → Outcome
unfolding read_value skip_trivia
next_value l = let m = skip_trivia l in read_value (rest m) m
