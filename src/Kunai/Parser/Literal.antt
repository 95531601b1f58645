-- ===== src/Kunai/Parser/Literal.antt =====
-- pkg/kunai/parser/where.go: network literals, which are read again in value mode.
pub mod Sound
use bpf_ninja.Base.{Bool, true, false, Option, none, some, if◌then◌else◌}
use bpf_ninja.Kunai.Ast.{Literal, Value}
use bpf_ninja.Kunai.Lexer.Token.{TokenKind, Token, ok, err}
use bpf_ninja.Kunai.Lexer.State.{Lexer, restore}
use bpf_ninja.Kunai.Lexer.Scan.{Outcome, next, next_value}
use bpf_ninja.Kunai.Parser.State.{
  Parser, P, Parsed, parsed, failed, lexing, after, pure, is_kind, advance,
}

-- `isNetworkLiteralKind`
unfoldable pub is_network : Literal → Bool
is_network (Literal.ipv4 ip) = true
is_network (Literal.ipv6 ip) = true
is_network (Literal.mac mac) = true
is_network (Literal.cidr4 ip n) = true
is_network (Literal.cidr6 ip n) = true
is_network _ = false

present_network : Option Value → Option Value
unfolding is_network
present_network none = none
present_network (some v) = if is_network v.literal then some v else none

-- The network literal of a token, if it is one.
network_of : Token → Option Value
unfolding present_network
network_of t = if is_kind TokenKind.value t.kind then present_network t.value else none

-- A miss: the structural token once more.
reread : Parser → Outcome → Parsed (Option Value)
reread p (ok t, l) = parsed none (record p { lex = l; cur = t })
reread p (err e, l) = failed (lexing e)

literal_token : Parser → Lexer → Option Value → Parsed (Option Value)
unfolding advance reread next restore
literal_token p l (some v) = after (advance (record p { lex = l })) (λ _. pure (some v))
literal_token p l none = reread p (next (restore p.pre_cur p.lex))

literal_outcome : Parser → Outcome → Parsed (Option Value)
unfolding literal_token network_of
literal_outcome p (ok t, l) = literal_token p l (network_of t)
literal_outcome p (err e, l) = literal_token p l none

-- `tryNetworkLiteral`, from the snapshot in front of the current token
unfoldable pub try_network_literal : P (Option Value)
unfolding literal_outcome restore next_value
try_network_literal p = literal_outcome p (next_value (restore p.pre_cur p.lex))
