-- ===== src/Kunai/Parser/State.antt =====
-- pkg/kunai/parser/parser.go: the state, and its moves from token to token.
pub mod Reach
pub mod Progress
use bpf_ninja.Base.{ℕ, zero, suc, Bool, true, false, List, [], ◌∷◌, ◌==◌, if◌then◌else◌, Bytes}
use bpf_ninja.Kunai.Ast.{Position}
use bpf_ninja.Kunai.Lexer.Token.{TokenKind, Token, SyntaxError, ok, err}
use bpf_ninja.Kunai.Lexer.State.{Lexer, Snapshot, save}
use bpf_ninja.Kunai.Lexer.Scan.{Outcome, next, next_value}

-- What the parser says of a token that it does not expect.
pub data Complaint : Type 0 where
  empty_filter trailing_token expected_layer chained_quantifiers : Complaint
  range_reversed range_negative label_reserved groups_too_deep too_few_alternatives : Complaint
  expected_test expected_value expected_list slice_end slice_empty nested_index expected_index :
      Complaint
  expected_capture in_misplaced expression_too_deep chained_comparison literal_alone : Complaint
  ordered_literal literal_needs_field ordered_bool arith_needs_integers negative_literal : Complaint
  negative_range expected_operand expected_open expected_action : Complaint
  expected : TokenKind → Complaint

-- The `SyntaxError` of the lexer, or one of the parser. `out_of_fuel` has no counterpart in the
-- program.
pub data ParseError : Type 0 where
  lexing : SyntaxError → ParseError
  complains : Position → Complaint → ParseError
  out_of_fuel : ParseError

-- `parser`; its file is that of the scanner, and `reserved` tells a reserved label.
pub record Parser : Type 0 where
  pub lex : Lexer
  pub cur : Token
  pub pre_cur : Snapshot
  pub depth : ℕ
  pub expr_depth : ℕ
  pub paren_depth : ℕ
  pub reserved : Bytes → Bool

pub data Parsed {ℓ} (A : Type ℓ) : Type ℓ where
  parsed : A → Parser → Parsed A
  failed : ParseError → Parsed A

abbrev pub P : Type 0 → Type 0
P A = Parser → Parsed A

abbrev pub after : {A B : Type 0} → Parsed A → (A → P B) → Parsed B
after (parsed a p) f = f a p
after (failed e) f = failed e

infixl 5 ◌>>=◌ ◌>>◌
abbrev pub ◌>>=◌ : {A B : Type 0} → P A → (A → P B) → P B
◌>>=◌ m f p = after (m p) f

abbrev pub ◌>>◌ : {B : Type 0} → P (Unit {0}) → P B → P B
m >> k = m >>= λ _. k

abbrev pub pure : {A : Type 0} → A → P A
pure a p = parsed a p

-- The current token.
abbrev pub peek : P Token
peek p = parsed p.cur p

-- `errorf`, at a position
abbrev pub complain : {A : Type 0} → Position → Complaint → P A
complain pos what p = failed (complains pos what)

-- `errorf`, at the current token
abbrev pub complain_here : {A : Type 0} → Complaint → P A
complain_here what p = failed (complains p.cur.pos what)

-- `if b { return errorf }`
abbrev pub refuse_if : Bool → Position → Complaint → P (Unit {0})
refuse_if true pos what p = failed (complains pos what)
refuse_if false pos what p = parsed tt p

abbrev pub starve : {A : Type 0} → P A
starve p = failed out_of_fuel

advanced : Parser → Outcome → Parsed (Unit {0})
advanced p (ok t, l) = parsed tt (record p { lex = l; cur = t; pre_cur = save p.lex })
advanced p (err e, l) = failed (lexing e)

-- `advance`
unfoldable pub advance : P (Unit {0})
unfolding advanced save next
advance p = advanced p (next p.lex)

advanced_value : Parser → Outcome → Parsed (Unit {0})
advanced_value p (ok t, l) = parsed tt (record p { lex = l; cur = t })
advanced_value p (err e, l) = failed (lexing e)

-- `advanceValue`
unfoldable pub advance_value : P (Unit {0})
unfolding advanced_value next_value
advance_value p = advanced_value p (next_value p.lex)

-- The number of a kind, in the order of the source's constants.
abbrev pub kind_code : TokenKind → ℕ
kind_code TokenKind.eof = 0
kind_code TokenKind.ident = 1
kind_code TokenKind.int = 2
kind_code TokenKind.value = 3
kind_code TokenKind.wide = 4
kind_code TokenKind.kw_where = 5
kind_code TokenKind.kw_capture = 6
kind_code TokenKind.kw_all = 7
kind_code TokenKind.kw_any = 8
kind_code TokenKind.kw_headers = 9
kind_code TokenKind.kw_and = 10
kind_code TokenKind.kw_or = 11
kind_code TokenKind.kw_not = 12
kind_code TokenKind.kw_in = 13
kind_code TokenKind.kw_has = 14
kind_code TokenKind.kw_action = 15
kind_code TokenKind.kw_true = 16
kind_code TokenKind.kw_false = 17
kind_code TokenKind.slash = 18
kind_code TokenKind.at = 19
kind_code TokenKind.lbracket = 20
kind_code TokenKind.rbracket = 21
kind_code TokenKind.lparen = 22
kind_code TokenKind.rparen = 23
kind_code TokenKind.lbrace = 24
kind_code TokenKind.rbrace = 25
kind_code TokenKind.comma = 26
kind_code TokenKind.dot = 27
kind_code TokenKind.pipe = 28
kind_code TokenKind.question = 29
kind_code TokenKind.plus = 30
kind_code TokenKind.star = 31
kind_code TokenKind.minus = 32
kind_code TokenKind.percent = 33
kind_code TokenKind.amp = 34
kind_code TokenKind.caret = 35
kind_code TokenKind.shl = 36
kind_code TokenKind.shr = 37
kind_code TokenKind.colon = 38
kind_code TokenKind.eq = 39
kind_code TokenKind.eq_eq = 40
kind_code TokenKind.neq = 41
kind_code TokenKind.lt = 42
kind_code TokenKind.le = 43
kind_code TokenKind.gt = 44
kind_code TokenKind.ge = 45

abbrev pub is_kind : TokenKind → TokenKind → Bool
is_kind k j = kind_code j == kind_code k

-- Whether the current token has a kind.
abbrev pub at_kind : TokenKind → Parser → Bool
at_kind k p = is_kind k p.cur.kind

-- A branch on the current token's kind.
abbrev pub when : {A : Type 0} → TokenKind → P A → P A → P A
when k m other p = if at_kind k p then m p else other p

-- The current token, over which the parser moves.
unfoldable pub take_token : P Token
unfolding advance
take_token p = after (advance p) (λ _. pure p.cur)

-- `expect`
unfoldable pub expect : TokenKind → P Token
unfolding take_token
expect k = when k take_token (complain_here (Complaint.expected k))

-- `for p.cur.Kind == sep { advance; item }`, with what the rounds give.
unfoldable pub separated : {A : Type 0} → TokenKind → P A → ℕ → P (List A)
unfolding take_token
separated sep item zero = starve
separated sep item (suc f) =
    when sep (do _ ← take_token; a ← item; rest ← separated sep item f; pure (a ∷ rest)) (pure [])
