-- ===== src/Tests/Lexer.antt =====
-- pkg/kunai/lexer on small sources.
use bpf_ninja.Base.{◌≡◌, refl, true, some, [], ◌∷◌, codes, Bytes, arith, length}
use bpf_ninja.Go.Strconv.{parse_digits, format_uint}
use bpf_ninja.Kunai.Ast.{Position, Literal}
use bpf_ninja.Kunai.Lexer.Token.{Token, TokenKind, Message, ok, word_kind}
use bpf_ninja.Kunai.Lexer.State.{
  Lexer, advance, advance_n, at_wide_prefix, is_ident_cont, is_digit, syntax_err,
}
use bpf_ninja.Kunai.Lexer.Scan.{symbol, next, next_value}
use bpf_ninja.Kunai.Lexer.Scan.Source.{
  Reads, FailsAt, next-Reads, next_value-Reads, next-FailsAt, next_value-FailsAt,
}
use bpf_ninja.Kunai.Lexer.Scan.Words.{Stops, number, next-word, next-format_uint, next_leading_zero}
use bpf_ninja.Kunai.Lexer.Literals.{classify_value, accepted, is_ident_literal}
use bpf_ninja.Kunai.Lexer.Literals.Valid.{IsValid, classify_value-IsValid}

-- A scanner on a text, at its beginning.
abbrev on : Bytes → Lexer
on text = record { src = text; pos = 0; line = 1; col = 1; file = [] }

abbrev start : Position
start = record { line = 1; col = 1 }

abbrev at_two : Position
at_two = record { line = 2; col = 1 }

-- White space with a line's end in front of `>=`.
abbrev spaced : Lexer
spaced = on (b'\n' ∷ codes ">=x")

abbrev spaced_end : Lexer
spaced_end = record spaced { pos = 3; line = 2; col = 3 }

next-Reads_example : Reads spaced (symbol TokenKind.ge (codes ">=") at_two) spaced_end
unfolding next
next-Reads_example = next-Reads spaced refl

-- A value in a comparison.
abbrev with_value : Lexer
with_value = on (codes " eth0")

abbrev the_value : Token
the_value = record (symbol TokenKind.value (codes "eth0") (record { line = 1; col = 2 })) {
  value = some (record {
    raw = codes "eth0";
    literal = Literal.ident (codes "eth0");
    pos = record { line = 1; col = 2 };
  });
}

next_value-Reads_example : Reads with_value the_value (record with_value { pos = 5; col = 6 })
unfolding next_value classify_value advance
next_value-Reads_example = next_value-Reads with_value refl

-- A character that begins no token.
abbrev strange : Lexer
strange = on (b'\n' ∷ codes "$")

next-FailsAt_example :
    FailsAt strange (syntax_err strange at_two (Message.unexpected_character b'$'))
unfolding next
next-FailsAt_example = next-FailsAt strange refl

next_value-FailsAt_example :
    FailsAt strange (syntax_err strange at_two (Message.value_expected b'$'))
unfolding next_value advance
next_value-FailsAt_example = next_value-FailsAt strange refl

next-word_example : next (on (codes "tcp.port")) ≡ (
  ok (symbol (word_kind (codes "tcp")) (codes "tcp") start),
  advance_n 3 (on (codes "tcp.port")),
)
unfolding at_wide_prefix
next-word_example =
    next-word (on (codes "tcp.port")) (codes "tcp") (codes ".port") test_ident test_stop refl refl
  where
    test_ident : is_ident_literal (codes "tcp") ≡ true
    test_ident = unfold is_ident_literal in refl

    test_stop : Stops (codes ".port")
    test_stop = unfold is_ident_cont in refl

next-format_uint_example : next (on (codes "443)")) ≡ (
  ok (number (on (codes "443)")) (format_uint 443) 443),
  advance_n (length (format_uint 443)) (on (codes "443)")),
)
next-format_uint_example =
    next-format_uint (on (codes "443)")) 443 (codes ")") (omega arith) test_stop
      (unfold format_uint in refl)
  where
    test_stop : Stops (codes ")")
    test_stop = unfold is_ident_cont in refl

next_leading_zero_example :
    next (on (codes "010"))
    ≡ (ok (number (on (codes "010")) (codes "010") 8), advance_n 3 (on (codes "010")))
next_leading_zero_example =
    next_leading_zero (on (codes "010")) (codes "10") [] 8 (unfold is_digit in refl) (λ e. cc) tt
      refl (unfold parse_digits in refl) (omega arith)

classify_value-IsValid_example : IsValid (classify_value (codes "10.0.0.0/8"))
classify_value-IsValid_example = classify_value-IsValid (codes "10.0.0.0/8")

-- A prefix with a host bit set is refused, and one without is taken.
test_prefixes :
    (classify_value (codes "10.0.0.0/8") ≡ accepted (Literal.cidr4 (10 ∷ 0 ∷ 0 ∷ 0 ∷ []) 8))
    × (classify_value (codes "80..443") ≡ accepted (Literal.range 80 443))
unfolding classify_value
test_prefixes = (refl, refl)
