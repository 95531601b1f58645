-- ===== src/Kunai/Lexer/Token.antt =====
-- pkg/kunai/lexer/token.go and errors.go: tokens, keywords and syntax errors.
use bpf_ninja.Base.{ℕ, Option, List, [], ◌∷◌, if◌then◌else◌, Bytes, codes, same_bytes}
use bpf_ninja.Kunai.Ast.{Position, Value}

-- `TokenKind`
pub data TokenKind : Type 0 where
  eof ident int value wide : TokenKind
  kw_where kw_capture kw_all kw_any kw_headers kw_and kw_or kw_not kw_in kw_has : TokenKind
  kw_action kw_true kw_false : TokenKind
  slash at lbracket rbracket lparen rparen lbrace rbrace comma dot pipe : TokenKind
  question plus star minus percent amp caret shl shr colon eq : TokenKind
  eq_eq neq lt le gt ge : TokenKind

-- `Token`; the number of a `wide` token is `int_hi * 2 ^ 64 + int`.
pub record Token : Type 0 where
  pub kind : TokenKind
  pub text : Bytes
  pub int : ℕ
  pub int_hi : ℕ
  pub value : Option Value
  pub pos : Position

-- The `keywords` table.
abbrev keywords : List (Bytes × TokenKind)
keywords =
    (codes "where", kw_where)
    ∷ (codes "capture", kw_capture)
    ∷ (codes "all", kw_all)
    ∷ (codes "any", kw_any)
    ∷ (codes "headers", kw_headers)
    ∷ (codes "and", kw_and)
    ∷ (codes "or", kw_or)
    ∷ (codes "not", kw_not)
    ∷ (codes "in", kw_in)
    ∷ (codes "has", kw_has)
    ∷ (codes "action", kw_action)
    ∷ (codes "true", kw_true)
    ∷ (codes "false", kw_false)
    ∷ []

find_keyword : Bytes → List (Bytes × TokenKind) → TokenKind
unfolding same_bytes
find_keyword text [] = ident
find_keyword text ((k, kind) ∷ rest) = if same_bytes text k then kind else find_keyword text rest

-- The kind of an identifier's text.
unfoldable pub word_kind : Bytes → TokenKind
unfolding find_keyword
word_kind text = find_keyword text keywords

-- Why a value is refused.
pub data ValueError : Type 0 where
  empty_value unrecognized range_empty_side range_lower range_upper range_reversed : ValueError
  cidr_invalid host_bits_set ipv4_invalid ipv6_invalid mac_octet int_invalid : ValueError

-- The messages of the lexer's `SyntaxError`s, with the values that they name.
pub data Message : Type 0 where
  unexpected_character : ℕ → Message
  wide_outside_where malformed_hex wide_without_digits : Message
  value_expected : ℕ → Message
  bad_value : ValueError → Message
  exceeds_64_bits : Bytes → ℕ → Message
  invalid_integer : Bytes → Message
  wide_unsupported : Bytes → Message
  wide_too_large : Bytes → Message

-- `SyntaxError`, whose hint the lexer never sets.
pub record SyntaxError : Type 0 where
  pub file : Bytes
  pub pos : Position
  pub message : Message

pub data Result {ℓ} (A : Type ℓ) : Type ℓ where
  ok : A → Result A
  err : SyntaxError → Result A
