-- ===== src/Kunai/Parser/State/Reach.antt =====
-- What a rule of pkg/kunai/parser keeps and how many bytes it leaves.

use bpf_ninja.Base.{
  ℕ, suc, ◌+◌, ◌<◌, ◌≤◌, ◌≡◌, ◌≢◌, ◌⊎◌, inl, inr, refl, arith, Bool, true, false, [], Bytes,
  if◌then◌else◌, drop, length, Bool-cases,
}
use bpf_ninja.Kunai.Lexer.Token.{TokenKind}
use bpf_ninja.Kunai.Lexer.State.{rest}
use bpf_ninja.Kunai.Lexer.Scan.Payload.{IsLoaded}
use bpf_ninja.Kunai.Parser.State.{
  Parser, P, Parsed, parsed, failed, out_of_fuel, after, Complaint, complain_here, at_kind, when,
}

-- What stays the same while a rule of the grammar is parsed.
pub record Context : Type 0 where
  pub src : Bytes
  pub reserved : Bytes → Bool
  pub depth : ℕ

-- The bytes from the current token on.
abbrev pub left : Parser → ℕ
left p = length (drop p.pre_cur.pos p.lex.src)

-- The current token, and the scanner behind it.
pub record IsGood (c : Context) (p : Parser) : Type 0 where
  pub solid : ((p.cur.kind ≡ TokenKind.eof) × (rest p.lex ≡ [])) ⊎ (p.cur.text ≢ [])
  pub room : length p.cur.text + length (rest p.lex) ≤ left p
  pub loaded : IsLoaded p.cur
  pub at_depth : p.depth ≡ c.depth
  pub same_reserved : p.reserved ≡ c.reserved
  pub same_src : p.lex.src ≡ c.src

abbrev pub Holds : {A : Type 0} → Context → ℕ → (A → Type 0) → Parsed A → Type 0
Holds c n W (parsed a p) = W a × IsGood c p × (left p < n)
Holds c n W (failed e) = e ≢ out_of_fuel

-- A result with `W`, in a good state with fewer than `n` bytes left; or an error of the program.
pub record Reaches {A : Type 0} (c : Context) (n : ℕ) (W : A → Type 0) (r : Parsed A) : Type 0 where
  pub holds : Holds c n W r

pub Reaches-within :
    {A : Type 0} {c : Context} {n k : ℕ} {W : A → Type 0} {r : Parsed A}
    → Reaches c n W r
    → n ≤ k
    → Reaches c k W r
Reaches-within {r = parsed a p} h l = record {
  holds = (h.holds.0, h.holds.1, omega (arith, h.holds.2, l));
}
Reaches-within {r = failed e} h l = record { holds = h.holds }

pub Reaches-map :
    {A : Type 0} {c : Context} {n : ℕ} {V W : A → Type 0} {r : Parsed A}
    → Reaches c n V r
    → ((a : A) → V a → W a)
    → Reaches c n W r
Reaches-map {r = parsed a p} h f = record { holds = (f a h.holds.0, h.holds.1, h.holds.2) }
Reaches-map {r = failed e} h f = record { holds = h.holds }

pub Reaches-loose :
    {A : Type 0} {c : Context} {n : ℕ} {W : A → Type 0} {r : Parsed A}
    → Reaches c n W r
    → Reaches c (suc n) W r
Reaches-loose h = Reaches-within h (omega arith)

pub Reaches-pure :
    {A : Type 0} {c : Context} {W : A → Type 0} (a : A) (p : Parser)
    → W a
    → IsGood c p
    → Reaches c (suc (left p)) W (parsed a p)
Reaches-pure a p w g = record { holds = (w, g, omega arith) }

-- The rest of a rule goes on in the state that its first part leaves.
pub Reaches-after :
    {A B : Type 0} {c d : Context} {n : ℕ} {V : A → Type 0} {W : B → Type 0} {f : A → P B}
    {r : Parsed A}
    → Reaches c n V r
    → ((a : A) (q : Parser) → V a → IsGood c q → left q < n → Reaches d (suc (left q)) W (f a q))
    → Reaches d n W (after r f)
Reaches-after {r = failed e} h g = record { holds = h.holds }
Reaches-after {r = parsed a q} h g =
    Reaches-within (g a q h.holds.0 h.holds.1 h.holds.2) (omega (arith, h.holds.2))

-- The same, where the first part may read nothing and the rest reads a token.
pub Reaches-strict :
    {A B : Type 0} {c d : Context} {n : ℕ} {V : A → Type 0} {W : B → Type 0} {f : A → P B}
    {r : Parsed A}
    → Reaches c (suc n) V r
    → ((a : A) (q : Parser) → V a → IsGood c q → left q < suc n → Reaches d (left q) W (f a q))
    → Reaches d n W (after r f)
Reaches-strict {r = failed e} h g = record { holds = h.holds }
Reaches-strict {r = parsed a q} h g =
    Reaches-within (g a q h.holds.0 h.holds.1 h.holds.2) (omega (arith, h.holds.2))

pub Reaches-when :
    {A : Type 0} {c : Context} {n : ℕ} {W : A → Type 0} (k : TokenKind) (m other : P A) (p : Parser)
    → (at_kind k p ≡ true → Reaches c n W (m p))
    → Reaches c n W (other p)
    → Reaches c n W (when k m other p)
Reaches-when k m other p f g = elim (Bool-cases (at_kind k p)) [
  | inl e ↦ rw e (f e)
  | inr e ↦ rw e g
]

pub Reaches-if :
    {A : Type 0} {c : Context} {n : ℕ} {W : A → Type 0} {r s : Parsed A} (b : Bool)
    → (b ≡ true → Reaches c n W r)
    → (b ≡ false → Reaches c n W s)
    → Reaches c n W (if b then r else s)
Reaches-if true f g = f refl
Reaches-if false f g = g refl

pub complaint-Reaches :
    {c : Context} {n : ℕ} {A : Type 0} {W : A → Type 0} (what : Complaint) (p : Parser)
    → Reaches c n W (complain_here what p)
complaint-Reaches what p = record { holds = λ e. cc }

-- A rule that reads at least one token, in a state with fewer than `n` bytes left.
abbrev pub Parses : {A : Type 0} → Context → ℕ → (A → Type 0) → P A → Type 0
Parses c n W m = (p : Parser) → IsGood c p → left p < n → Reaches c (left p) W (m p)
