-- ===== src/Kunai/Parser/Captures.antt =====
-- pkg/kunai/parser/capture.go: capture clauses.
pub mod Sound
use bpf_ninja.Base.{ℕ, ◌&&◌, Option, none, some, ◌∷◌, if◌then◌else◌, codes, same_bytes}
use bpf_ninja.Kunai.Ast.{WhereExpr, CaptureSpec, CaptureClause}
use bpf_ninja.Kunai.Lexer.Token.{TokenKind, Token}
use bpf_ninja.Kunai.Parser.State.{
  P, ◌>>=◌, pure, peek, complain_here, Complaint, take_token, expect, when, at_kind, separated,
}
use bpf_ninja.Kunai.Parser.Paths.{path_from_head, field_path}
use bpf_ninja.Kunai.Parser.Expressions.{where_clause}

-- `parseOptionalPlusInt`; `none` is no plus.
optional_plus_int : P (Option ℕ)
unfolding take_token expect
optional_plus_int =
    when TokenKind.plus (do _ ← take_token; n ← expect TokenKind.int; pure (some n.int)) (pure none)

headers_spec : Option ℕ → CaptureSpec
headers_spec none = CaptureSpec.headers
headers_spec (some n) = CaptureSpec.headers_plus n

extra_or_zero : Option ℕ → ℕ
extra_or_zero none = 0
extra_or_zero (some n) = n

capture_all : P CaptureSpec
unfolding take_token
capture_all = do _ ← take_token; pure CaptureSpec.all

capture_headers : P CaptureSpec
unfolding take_token optional_plus_int headers_spec
capture_headers = do _ ← take_token; extra ← optional_plus_int; pure (headers_spec extra)

capture_absolute : P CaptureSpec
unfolding take_token
capture_absolute = do n ← take_token; pure (CaptureSpec.absolute n.int)

capture_fields : ℕ → Token → P CaptureSpec
unfolding path_from_head field_path separated
capture_fields f ident = do
  first ← path_from_head f ident
  rest ← separated TokenKind.comma (field_path f) f
  pure (CaptureSpec.fields (first ∷ rest))

capture_layer : Token → P CaptureSpec
unfolding optional_plus_int extra_or_zero
capture_layer ident = do
  extra ← optional_plus_int
  pure (CaptureSpec.to_layer ident.text (extra_or_zero extra))

capture_named : ℕ → Token → P CaptureSpec
unfolding capture_fields capture_layer
capture_named f ident = when TokenKind.dot (capture_fields f ident) (capture_layer ident)

-- What follows the name of a capture.
capture_from : ℕ → Token → P CaptureSpec
unfolding same_bytes capture_absolute capture_named
capture_from f ident p =
    if same_bytes ident.text (codes "absolute") && at_kind TokenKind.int p
    then capture_absolute p
    else capture_named f ident p

-- `parseCaptureIdent`
capture_ident : ℕ → P CaptureSpec
unfolding take_token capture_from
capture_ident f = do ident ← take_token; capture_from f ident

-- `parseCaptureSpec`
capture_spec : ℕ → P CaptureSpec
unfolding capture_all capture_headers capture_ident
capture_spec f = when TokenKind.kw_all capture_all (
    when TokenKind.kw_headers capture_headers
      (when TokenKind.ident (capture_ident f) (complain_here Complaint.expected_capture)))

-- A where clause, if there is one.
unfoldable pub maybe_where : ℕ → P (Option WhereExpr)
unfolding where_clause
maybe_where f = when TokenKind.kw_where (do w ← where_clause f; pure (some w)) (pure none)

-- `parseCaptureClause`
unfoldable pub capture_clause : ℕ → P CaptureClause
unfolding expect capture_spec maybe_where
capture_clause f = do
  start ← peek
  _ ← expect TokenKind.kw_capture
  spec ← capture_spec f
  cond ← maybe_where f
  pure (record { spec = spec; where_expr = cond; pos = start.pos })
