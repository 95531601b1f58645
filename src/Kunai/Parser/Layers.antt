-- ===== src/Kunai/Parser/Layers.antt =====
-- pkg/kunai/parser/layer.go: the chain of layers.
pub mod Leaves
pub mod Sound
use bpf_ninja.Base.{
  ℕ, zero, suc, ◌+◌, ◌-◌, ◌%◌, ◌^◌, Bool, ◌||◌, Option, none, some, List, [], ◌∷◌, ltb, leb,
  if◌then◌else◌, Bytes,
}
use bpf_ninja.Go.Strconv.{u64_mod}
use bpf_ninja.Kunai.Ast.{Predicate, Quant, Layer, proto, group, Layers, nil, cons}
use bpf_ninja.Kunai.Lexer.Token.{TokenKind}
use bpf_ninja.Kunai.Parser.State.{
  Parser, P, parsed, after, ◌>>=◌, pure, peek, complain_here, refuse_if, starve, Complaint,
  take_token, expect, when, at_kind, separated,
}
use bpf_ninja.Kunai.Parser.Predicates.{predicate_list}

abbrev pub max_alt_depth : ℕ
max_alt_depth = 16

unfoldable pub layers_of : List Layer → Layers
layers_of [] = nil
layers_of (l ∷ ls) = cons l (layers_of ls)

-- `layer.Quant = ...`
with_quant : Quant → Layer → Layer
with_quant q (proto name tag preds _ pos) = proto name tag preds q pos
with_quant q (group alts _ pos) = group alts q pos

-- `isQuantToken`
at_quant : Parser → Bool
at_quant p =
    at_kind TokenKind.question p
    || (at_kind TokenKind.plus p || (at_kind TokenKind.star p || at_kind TokenKind.lbrace p))

-- `int(t.Int)` against `int(u.Int)`: the order of signed numbers.
signed_less : ℕ → ℕ → Bool
signed_less n m = ltb ((n + 2 ^ 63) % u64_mod) ((m + 2 ^ 63) % u64_mod)

-- The bound behind a comma, if there is one.
upper_bound : ℕ → P (Option ℕ)
unfolding take_token signed_less
upper_bound lo =
    when TokenKind.int
      (do
        t ← take_token
        _ ← refuse_if (signed_less t.int lo) t.pos Complaint.range_reversed
        pure (some t.int))
      (pure none)

-- `parseQuantRange`
quant_range : P Quant
unfolding take_token expect upper_bound
quant_range = do
  open_tok ← expect TokenKind.lbrace
  lo ← expect TokenKind.int
  hi ← when TokenKind.comma (do _ ← take_token; upper_bound lo.int) (pure (some lo.int))
  _ ← expect TokenKind.rbrace
  _ ← refuse_if (leb (2 ^ 63) lo.int) open_tok.pos Complaint.range_negative
  pure (Quant.range lo.int hi)

simple_quant : Quant → P Quant
unfolding take_token
simple_quant q = do _ ← take_token; pure q

-- `parseQuantifier`
quantifier : P Quant
unfolding simple_quant quant_range
quantifier = when TokenKind.question (simple_quant Quant.opt) (
    when TokenKind.plus (simple_quant Quant.plus)
      (when TokenKind.star (simple_quant Quant.star) quant_range))

-- A quantifier behind a layer, if there is one.
pub maybe_quant : Layer → P Layer
unfolding at_quant quantifier with_quant
maybe_quant layer p =
    if at_quant p then after (quantifier p) (λ q. pure (with_quant q layer)) else parsed layer p

pub no_quant : P (Unit {0})
unfolding at_quant
no_quant p = if at_quant p then complain_here Complaint.chained_quantifiers p else parsed tt p

-- `@LABEL`, or an empty label
layer_label : P Bytes
unfolding take_token expect
layer_label =
    when TokenKind.at
      (do
        _ ← take_token
        t ← expect TokenKind.ident
        λ p. (do _ ← refuse_if (p.reserved t.text) t.pos Complaint.label_reserved; pure t.text) p)
      (pure [])

bracketed_predicates : ℕ → P (List Predicate)
unfolding take_token expect predicate_list
bracketed_predicates f =
    when TokenKind.lbracket
      (do _ ← take_token; preds ← predicate_list f; _ ← expect TokenKind.rbracket; pure preds)
      (pure [])

-- `parseProtoLeaf`
pub proto_leaf : ℕ → P Layer
unfolding expect layer_label bracketed_predicates
proto_leaf f = do
  name ← expect TokenKind.ident
  tag ← layer_label
  preds ← bracketed_predicates f
  pure (proto name.text tag preds Quant.one name.pos)

-- The guard of `parseLayerAltGroup` and its `p.depth++`
enter_alt : P (Unit {0})
enter_alt p =
    if leb max_alt_depth p.depth
    then complain_here Complaint.groups_too_deep p
    else parsed tt (record p { depth = p.depth + 1 })

leave_alt : P (Unit {0})
leave_alt p = parsed tt (record p { depth = p.depth - 1 })

-- `parseLayerAltGroup`
alt_group : P Layer → ℕ → P Layer
unfolding enter_alt leave_alt expect separated layers_of
alt_group item f = do
  _ ← enter_alt
  open_tok ← expect TokenKind.lparen
  first ← item
  _ ← when TokenKind.pipe peek (complain_here Complaint.too_few_alternatives)
  rest ← separated TokenKind.pipe item f
  _ ← expect TokenKind.rparen
  _ ← leave_alt
  pure (group (layers_of (first ∷ rest)) Quant.one open_tok.pos)

-- `parseLayerAtom`
layer_atom : P Layer → ℕ → P Layer
unfolding proto_leaf alt_group
layer_atom item f =
    when TokenKind.ident (proto_leaf f)
      (when TokenKind.lparen (alt_group item f) (complain_here Complaint.expected_layer))

-- `parseLayerItem`
layer_item : ℕ → P Layer
unfolding layer_atom maybe_quant no_quant
layer_item zero = starve
layer_item (suc f) = do
  atom ← layer_atom (layer_item f) (suc f)
  layer ← maybe_quant atom
  _ ← no_quant
  pure layer

-- `parseLayerChain`
unfoldable pub layer_chain : ℕ → P Layers
unfolding layer_item separated layers_of
layer_chain f = do
  first ← layer_item f
  rest ← separated TokenKind.slash (layer_item f) f
  pure (layers_of (first ∷ rest))
