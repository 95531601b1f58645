-- ===== src/Kunai/Parser/Predicates.antt =====
-- pkg/kunai/parser/predicate.go: the predicates of a layer.
pub mod Sound
use bpf_ninja.Base.{
  ℕ, zero, suc, ◌||◌, Option, none, some, List, [], ◌∷◌, if◌then◌else◌, codes, same_bytes,
}
use bpf_ninja.Kunai.Ast.{
  Position, FieldPath, path, segment, end, unindexed, CmpOp, Value, Predicate, Test,
}
use bpf_ninja.Kunai.Lexer.Token.{TokenKind}
use bpf_ninja.Kunai.Parser.State.{
  P, parsed, ◌>>=◌, pure, peek, complain_here, starve, Complaint, take_token, expect, when, at_kind,
  advance_value, separated,
}
use bpf_ninja.Kunai.Parser.Paths.{field_path}

-- `cmpOpFor`
unfoldable pub cmp_op_for : TokenKind → Option CmpOp
cmp_op_for TokenKind.eq_eq = some CmpOp.eq
cmp_op_for TokenKind.neq = some CmpOp.neq
cmp_op_for TokenKind.lt = some CmpOp.lt
cmp_op_for TokenKind.le = some CmpOp.le
cmp_op_for TokenKind.gt = some CmpOp.gt
cmp_op_for TokenKind.ge = some CmpOp.ge
cmp_op_for _ = none

-- A value that was read in value mode: the pointer of the current token.
unfoldable pub take_value : P (Option Value)
unfolding take_token
take_value =
    when TokenKind.value (do t ← take_token; pure t.value) (complain_here Complaint.expected_value)

-- The loop of `parseValueList`
value_tail : ℕ → P (List (Option Value))
unfolding advance_value take_value
value_tail zero = starve
value_tail (suc f) =
    when TokenKind.comma
      (do _ ← advance_value; v ← take_value; rest ← value_tail f; pure (v ∷ rest)) (pure [])

-- `parseValueList`
value_list : ℕ → P (List (Option Value))
unfolding advance_value take_value value_tail expect
value_list f =
    when TokenKind.lbracket
      (do
        _ ← advance_value
        first ← take_value
        rest ← value_tail f
        _ ← expect TokenKind.rbracket
        pure (first ∷ rest))
      (complain_here Complaint.expected_list)

-- `in @NAME` or `in [...]`, from the `in` on
in_test : ℕ → P Test
unfolding take_token expect value_list
in_test f = do
  _ ← take_token
  when TokenKind.at (do _ ← take_token; name ← expect TokenKind.ident; pure (Test.in_set name.text))
      (do list ← value_list f; pure (Test.in_list list))

has_test : P Test
unfolding take_token expect
has_test = do _ ← take_token; flag ← expect TokenKind.ident; pure (Test.has flag.text)

-- A comparison, at its operator
cmp_test : Option CmpOp → P Test
unfolding advance_value take_value
cmp_test none = complain_here Complaint.expected_test
cmp_test (some op) = do _ ← advance_value; v ← take_value; pure (Test.cmp op v)

test : ℕ → P Test
unfolding in_test has_test cmp_test cmp_op_for
test f =
    when TokenKind.kw_in (in_test f)
      (when TokenKind.kw_has has_test (λ p. cmp_test (cmp_op_for p.cur.kind) p))

-- `segment.valid` with no index: the path without its tail.
valid_field : FieldPath → Option FieldPath
unfolding same_bytes
valid_field (path (segment name unindexed (segment tail unindexed end)) pos) =
    if same_bytes tail (codes "valid") then some (path (segment name unindexed end) pos) else none
valid_field _ = none

predicate_of : ℕ → Position → FieldPath → P Predicate
unfolding test
predicate_of f pos field = do t ← test f; pure (record { field = field; test = t; pos = pos })

-- A field that ends in `valid` stands alone in front of `,` or `]`.
valid_or : ℕ → Position → FieldPath → Option FieldPath → P Predicate
unfolding predicate_of
valid_or f pos field none p = predicate_of f pos field p
valid_or f pos field (some stripped) p =
    if at_kind TokenKind.comma p || at_kind TokenKind.rbracket p
    then parsed (record { field = stripped; test = Test.valid; pos = pos }) p
    else predicate_of f pos field p

-- `parsePredicate`
predicate : ℕ → P Predicate
unfolding field_path valid_or valid_field
predicate f = do first ← peek; field ← field_path f; valid_or f first.pos field (valid_field field)

-- `parsePredicateList`
unfoldable pub predicate_list : ℕ → P (List Predicate)
unfolding predicate separated
predicate_list f = do
  first ← predicate f
  rest ← separated TokenKind.comma (predicate f) f
  pure (first ∷ rest)
