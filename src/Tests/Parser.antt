-- ===== src/Tests/Parser.antt =====
-- pkg/kunai/parser on small filters.
use bpf_ninja.Base.{ℕ, ◌≡◌, ◌≢◌, refl, Bool, some, [], ◌∷◌, Bytes, codes, same_bytes}
use bpf_ninja.Kunai.Ast.{
  Position, Literal, Value, CmpOp, path, segment, end, unindexed, WhereExpr, Quant, proto, group,
  nil, cons, Filter,
}
use bpf_ninja.Kunai.Lexer.Token.{TokenKind}
use bpf_ninja.Kunai.Lexer.State.{rest}
use bpf_ninja.Kunai.Lexer.Scan.{symbol}
use bpf_ninja.Kunai.Parser.State.{Parser, parsed, failed, complains, out_of_fuel, Complaint}
use bpf_ninja.Kunai.Parser.WellFormed.{IsFilter}
use bpf_ninja.Kunai.Parser.Filters.{parse}
use bpf_ninja.Kunai.Parser.Filters.Sound.{parse-terminates, parse-IsFilter, parse-rest}

-- A label may not stand behind a group.
abbrev source : Bytes
source = codes "(b|c)@e"

-- Two alternatives, a quantifier and a comparison with an address.
abbrev text : Bytes
text = codes "(b|c){1,2} where b.x==1.2.3.4"

-- A host that has an action of the name `drop`.
abbrev no_drop : Bytes → Bool
no_drop name = same_bytes name (codes "drop")

abbrev at_col : ℕ → Position
at_col n = record { line = 1; col = n }

abbrev address : Value
address = record {
  raw = codes "1.2.3.4";
  literal = Literal.ipv4 (1 ∷ 2 ∷ 3 ∷ 4 ∷ []);
  pos = at_col 23;
}

abbrev tree : Filter
tree = record {
  layers =
      cons
        (group
          (cons (proto (codes "b") [] [] Quant.one (at_col 2))
            (cons (proto (codes "c") [] [] Quant.one (at_col 4)) nil))
          (Quant.range 1 (some 2)) (at_col 1))
        nil;
  where_expr = some (
      WhereExpr.literal
        (path (segment (codes "b") unindexed (segment (codes "x") unindexed end)) (at_col 18))
        CmpOp.eq address (at_col 18));
  captures = [];
  pos = at_col 1;
}

abbrev final : Parser
final = record {
  lex = record { src = text; pos = 29; line = 1; col = 30; file = [] };
  cur = symbol TokenKind.eof [] (at_col 30);
  pre_cur = record { pos = 29; line = 1; col = 30 };
  depth = 0;
  expr_depth = 0;
  paren_depth = 0;
  reserved = no_drop;
}

parse-text : parse text [] no_drop ≡ parsed tree final
unfolding parse
parse-text = refl

-- A label that the host reserves.
reserved_label :
    parse (codes "a@drop") [] no_drop ≡ failed (complains (at_col 3) Complaint.label_reserved)
unfolding parse
reserved_label = refl

-- A comparison in a chain.
chained :
    parse (codes "a where b.x<1<2") [] no_drop
    ≡ failed (complains (at_col 14) Complaint.chained_comparison)
unfolding parse
chained = refl

-- Bounds of a range in the wrong order.
reversed :
    parse (codes "a{3,2}") [] no_drop ≡ failed (complains (at_col 5) Complaint.range_reversed)
unfolding parse
reversed = refl

-- Something behind the filter.
trailing : parse source [] no_drop ≡ failed (complains (at_col 6) Complaint.trailing_token)
unfolding parse
trailing = refl

parse-terminates_example : parse text [] no_drop ≢ failed out_of_fuel
parse-terminates_example = parse-terminates text [] no_drop

parse-IsFilter_example : IsFilter no_drop tree
parse-IsFilter_example = parse-IsFilter text [] no_drop parse-text

parse-rest_example : (final.lex.src ≡ text) × (rest final.lex ≡ [])
parse-rest_example = parse-rest text [] no_drop parse-text
