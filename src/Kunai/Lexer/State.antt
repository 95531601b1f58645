-- ===== src/Kunai/Lexer/State.antt =====
-- pkg/kunai/lexer/lexer.go: the scanner's state, its moves over the source, and snapshots.
use bpf_ninja.Base.{
  ℕ, zero, suc, ◌+◌, ◌-◌, Bool, true, false, ◌||◌, Option, none, some, [], ◌∷◌, ◌==◌, if◌then◌else◌,
  Bytes, get_elem?, take, drop, length, codes,
}
use bpf_ninja.Go.Strconv.{within}
use bpf_ninja.Go.Strings.{has_prefix}
use bpf_ninja.Kunai.Ast.{Position}
use bpf_ninja.Kunai.Lexer.Token.{SyntaxError, Message}

-- `Lexer`
pub record Lexer : Type 0 where
  pub src : Bytes
  pub pos : ℕ
  pub line : ℕ
  pub col : ℕ
  pub file : Bytes

-- `New`
unfoldable pub new : Bytes → Bytes → Lexer
new src file = record { src = src; pos = 0; line = 1; col = 1; file = file }

-- `Snapshot`
pub record Snapshot : Type 0 where
  pub pos : ℕ
  pub line : ℕ
  pub col : ℕ

unfoldable pub save : Lexer → Snapshot
save l = record { pos = l.pos; line = l.line; col = l.col }

unfoldable pub restore : Snapshot → Lexer → Lexer
restore s l = record l { pos = s.pos; line = s.line; col = s.col }

-- `l.src[l.pos:]`
abbrev pub rest : Lexer → Bytes
rest l = drop l.pos l.src

-- `currentPos`
abbrev pub current_pos : Lexer → Position
current_pos l = record { line = l.line; col = l.col }

step_over : Option ℕ → Lexer → Lexer
step_over none l = l
step_over (some b) l =
    if b == b'\n'
    then record l { line = l.line + 1; col = 1; pos = l.pos + 1 }
    else record l { col = l.col + 1; pos = l.pos + 1 }

-- `advance`: over one byte, if there is one.
unfoldable pub advance : Lexer → Lexer
unfolding step_over
advance l = step_over (get_elem? l.src l.pos) l

-- `for range n { l.advance() }`
unfoldable pub advance_n : ℕ → Lexer → Lexer
advance_n zero l = l
advance_n (suc n) l = advance_n n (advance l)

-- `for l.pos < len(l.src) && p(l.src[l.pos]) { l.advance() }`, over the bytes ahead.
unfoldable pub scan_while : (ℕ → Bool) → Bytes → Lexer → Lexer
scan_while p [] l = l
scan_while p (b ∷ bs) l = if p b then scan_while p bs (advance l) else l

-- `l.src[l.pos:m.pos]`
unfoldable pub slice : Lexer → Lexer → Bytes
slice l m = take (m.pos - l.pos) (drop l.pos l.src)

abbrev pub is_trivia : ℕ → Bool
is_trivia b = b == b' ' || (b == b'\t' || (b == b'\n' || b == b'\r'))

unfoldable pub is_ident_start : ℕ → Bool
is_ident_start b = b == b'_' || (within b'a' b'z' b || within b'A' b'Z' b)

unfoldable pub is_digit : ℕ → Bool
is_digit b = within b'0' b'9' b

unfoldable pub is_ident_cont : ℕ → Bool
unfolding is_ident_start is_digit
is_ident_cont b = is_ident_start b || is_digit b

unfoldable pub is_hex_char : ℕ → Bool
unfolding is_digit
is_hex_char b = is_digit b || (within b'a' b'f' b || within b'A' b'F' b)

unfoldable pub is_value_byte : ℕ → Bool
unfolding is_digit
is_value_byte b =
    is_digit b
    || (within b'a' b'z' b
        || (within b'A' b'Z' b
            || (b == b'.'
                || (b == b':' || (b == b'/' || (b == b'_' || (b == b'-' || b == b'%')))))))

unfoldable pub skip_trivia : Lexer → Lexer
unfolding scan_while
skip_trivia l = scan_while is_trivia (rest l) l

starts_hex : Bytes → Bool
unfolding is_hex_char
starts_hex [] = false
starts_hex (b ∷ _) = is_hex_char b

-- `atHex`
unfoldable pub at_hex : Lexer → Bool
unfolding starts_hex
at_hex l = starts_hex (rest l)

-- `widePrefix`
abbrev pub wide_prefix : Bytes
wide_prefix = codes "int<"

-- `atWidePrefix`
unfoldable pub at_wide_prefix : Lexer → Bool
unfolding has_prefix
at_wide_prefix l = has_prefix (rest l) wide_prefix

-- `consume`: whether the source goes on with `s`, and the state behind it if so.
unfoldable pub consume : Bytes → Lexer → Bool × Lexer
unfolding has_prefix advance_n
consume s l = if has_prefix (rest l) s then (true, advance_n (length s) l) else (false, l)

-- `syntaxErr`
abbrev pub syntax_err : Lexer → Position → Message → SyntaxError
syntax_err l pos message = record { file = l.file; pos = pos; message = message }
