-- ===== src/Kunai/Parser/Paths.antt =====
-- pkg/kunai/parser/predicate.go: field paths and their indices.
pub mod Sound
use bpf_ninja.Base.{ℕ, zero, suc, Bool, true, false, leb}
use bpf_ninja.Kunai.Ast.{
  Position, FieldPath, path, Segments, segment, end, Index, unindexed, at, slice, by_field,
}
use bpf_ninja.Kunai.Lexer.Token.{TokenKind, Token}
use bpf_ninja.Kunai.Parser.State.{
  P, ◌>>=◌, pure, refuse_if, complain_here, starve, Complaint, take_token, expect, when,
}

-- `hasAnyIndex`
unfoldable pub any_index : Segments → Bool
any_index end = false
any_index (segment name unindexed rest) = any_index rest
any_index (segment name _ rest) = true

unfoldable pub has_any_index : FieldPath → Bool
unfolding any_index
has_any_index (path segments pos) = any_index segments

-- `[lo:hi]`, from the colon on
slice_end : Position → ℕ → P Index
unfolding take_token expect
slice_end open_pos lo = do
  _ ← take_token
  hi ← when TokenKind.int take_token (complain_here Complaint.slice_end)
  _ ← expect TokenKind.rbracket
  _ ← refuse_if (leb hi.int lo) open_pos Complaint.slice_empty
  pure (slice lo hi.int open_pos)

-- `[N]` or a slice, from the number on
int_index : Position → P Index
unfolding take_token expect slice_end
int_index open_pos = do
  n ← take_token
  when TokenKind.colon (slice_end open_pos n.int)
      (do _ ← expect TokenKind.rbracket; pure (at n.int open_pos))

-- An index by a field, from its first name on
path_index : (Token → P FieldPath) → Position → P Index
unfolding expect has_any_index
path_index rec open_pos = do
  head ← expect TokenKind.ident
  fp ← rec head
  _ ← refuse_if (has_any_index fp) open_pos Complaint.nested_index
  _ ← expect TokenKind.rbracket
  pure (by_field fp open_pos)

-- What follows `[`.
index_body : (Token → P FieldPath) → Position → P Index
unfolding int_index path_index
index_body rec open_pos =
    when TokenKind.int (int_index open_pos)
      (when TokenKind.ident (path_index rec open_pos) (complain_here Complaint.expected_index))

-- `tryParseIndexExpr`
try_index : (Token → P FieldPath) → P Index
unfolding take_token index_body
try_index rec =
    when TokenKind.lbracket (do open_tok ← take_token; index_body rec open_tok.pos) (pure unindexed)

-- The loop of `parseFieldPathFromHead`
path_tail : (Token → P FieldPath) → ℕ → P Segments
unfolding take_token expect try_index
path_tail rec zero = starve
path_tail rec (suc f) =
    when TokenKind.dot
      (do
        _ ← take_token
        name ← expect TokenKind.ident
        idx ← try_index rec
        rest ← path_tail rec f
        pure (segment name.text idx rest))
      (pure end)

-- `parseFieldPathFromHead`
unfoldable pub path_from_head : ℕ → Token → P FieldPath
unfolding try_index path_tail
path_from_head zero head = starve
path_from_head (suc f) head = do
  idx ← try_index (path_from_head f)
  rest ← path_tail (path_from_head f) (suc f)
  pure (path (segment head.text idx rest) head.pos)

-- `parseFieldPath`
unfoldable pub field_path : ℕ → P FieldPath
unfolding expect path_from_head
field_path f = do head ← expect TokenKind.ident; path_from_head f head
