-- ===== src/Kunai/Parser/Filters.antt =====
-- pkg/kunai/parser/parser.go: a whole filter.
pub mod Sound
use bpf_ninja.Base.{ℕ, zero, suc, Bool, none, List, [], ◌∷◌, Bytes, length}
use bpf_ninja.Kunai.Ast.{Filter, CaptureClause}
use bpf_ninja.Kunai.Lexer.Token.{TokenKind}
use bpf_ninja.Kunai.Lexer.State.{Lexer, new, save}
use bpf_ninja.Kunai.Parser.State.{
  Parser, P, Parsed, after, ◌>>=◌, pure, peek, complain_here, starve, Complaint, advance, when,
}
use bpf_ninja.Kunai.Parser.Layers.{layer_chain}
use bpf_ninja.Kunai.Parser.Captures.{capture_clause, maybe_where}

-- The loop of `parseFilter`
captures : ℕ → ℕ → P (List CaptureClause)
unfolding capture_clause
captures f zero = starve
captures f (suc g) =
    when TokenKind.kw_capture (do c ← capture_clause f; rest ← captures f g; pure (c ∷ rest))
      (pure [])

-- `parseFilter`, past its check of an empty filter
filter_body : ℕ → P Filter
unfolding layer_chain maybe_where captures
filter_body f = do
  start ← peek
  layers ← layer_chain f
  cond ← maybe_where f
  cs ← captures f f
  _ ← when TokenKind.eof peek (complain_here Complaint.trailing_token)
  pure (record { layers = layers; where_expr = cond; captures = cs; pos = start.pos })

-- `parseFilter`
parse_filter : ℕ → P Filter
unfolding filter_body
parse_filter f = when TokenKind.eof (complain_here Complaint.empty_filter) (filter_body f)

-- A parser before its first token.
fresh : Lexer → (Bytes → Bool) → Parser
unfolding save
fresh l reserved = record {
  lex = l;
  cur = record {
    kind = TokenKind.eof;
    pos = record { line = 0; col = 0 };
    text = [];
    int = 0;
    int_hi = 0;
    value = none;
  };
  pre_cur = save l;
  depth = 0;
  expr_depth = 0;
  paren_depth = 0;
  reserved = reserved;
}

-- `Parse`; the fuel is one more than the bytes of the source.
unfoldable pub parse : Bytes → Bytes → (Bytes → Bool) → Parsed Filter
unfolding parse_filter advance fresh new
parse expr file reserved =
    after (advance (fresh (new expr file) reserved)) (λ _. parse_filter (suc (length expr)))
