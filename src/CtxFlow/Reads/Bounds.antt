-- ===== src/CtxFlow/Reads/Bounds.antt =====
-- The targets of `ArgReads` are instructions.
use bpf_ninja.Base.{
  ℕ, zero, suc, ◌+◌, ◌<◌, ◌≡◌, ◌≢◌, refl, arith, Option, none, some, List, [], ◌∷◌, Bytes, ◌==◌,
  length, if◌then◌else◌, get_elem?, Bool-cases, Option-cases, same_bytes, inl, inr,
}
use bpf_ninja.CtxFlow.Insns.{Instruction, is_exit, branches, is_goto}
use bpf_ninja.CtxFlow.Reads.{
  ReadsError, Found, ok, fail, ◌>>=◌, index_from, symbol_from, or_fail, target, successors,
}
use bpf_ninja.CtxFlow.Reads.Uses.{>>=-eq-ok, ok_same}
use bpf_ninja.CtxFlow.Reads.Potential.{Below}

-- An answer of the program: no error of the model.
abbrev pub Ends {ℓ} : {A : Type ℓ} → Found A → Type ℓ
Ends m = m ≢ fail ReadsError.out_of_fuel

pub >>=-Ends :
    {A B : Type 0} (m : Found A) (f : A → Found B)
    → Ends m
    → ((a : A) → m ≡ ok a → Ends (f a))
    → Ends (m >>= f)
>>=-Ends (ok a) f h k = k a refl
>>=-Ends (fail e) f h k = λ p. h (ground (arith, p))

index_from_bound :
    (at pc i j : ℕ) (insns : List Instruction)
    → index_from at pc i insns ≡ some j
    → j < i + length insns
unfolding index_from
index_from_bound at pc i j [] e = cc
index_from_bound at pc i j (ins ∷ insns) e = elim (Bool-cases (pc == at)) [
  | inl t ↦ let here : i ≡ j = ground (arith, rw t at e) in omega (arith, here)
  | inr t ↦ omega (arith, index_from_bound at (pc + ins.size) (i + 1) j insns (rw t at e))
]

symbol_from_bound :
    (name : Bytes) (i j : ℕ) (insns : List Instruction)
    → symbol_from name i insns ≡ some j
    → j < i + length insns
unfolding symbol_from
symbol_from_bound name i j [] e = cc
symbol_from_bound name i j (ins ∷ insns) e = elim (Option-cases (symbol_from name (i + 1) insns)) [
  | inr (k, q) ↦
      let here : k ≡ j = ground (arith, rw (symbol_from, q) at e) in
      omega (arith, here, symbol_from_bound name (i + 1) k insns q)
  | inl q ↦ elim (Bool-cases (same_bytes ins.symbol name)) [
    | inl t ↦ let here : i ≡ j = ground (arith, rw (symbol_from, q, t) at e) in omega (arith, here)
    | inr t ↦ let bad = rw (symbol_from, q, t) at e in cc
  ]
]

or_fail-ok : (o : Option ℕ) (e : ReadsError) (t : ℕ) → or_fail o e ≡ ok t → o ≡ some t
unfolding or_fail
or_fail-ok none e t h = cc
or_fail-ok (some i) e t h = ground (arith, h)

or_fail-Ends : (o : Option ℕ) (e : ReadsError) → e ≢ ReadsError.out_of_fuel → Ends (or_fail o e)
unfolding or_fail
or_fail-Ends none e h = λ p. h (ground (arith, p))
or_fail-Ends (some i) e h = λ p. cc

module _ (insns : List Instruction) where
  pub target_bound : (i t : ℕ) (ins : Instruction) → target insns i ins ≡ ok t → t < length insns
  unfolding target
  target_bound i t ins e = elim (Bool-cases (length ins.reference == 0)) [
    | inl b ↦
        let found = or_fail-ok _ ReadsError.no_target t (rw b at e) in
        omega (arith, index_from_bound _ 0 0 t insns found)
    | inr b ↦
        let found = or_fail-ok _ ReadsError.unknown_symbol t (rw b at e) in
        omega (arith, symbol_from_bound ins.reference 0 t insns found)
  ]

  pub target-Ends : (i : ℕ) (ins : Instruction) → Ends (target insns i ins)
  unfolding target
  target-Ends i ins = elim (Bool-cases (length ins.reference == 0)) [
    | inl b ↦ rw b (or_fail-Ends _ ReadsError.no_target (λ p. cc))
    | inr b ↦ rw b (or_fail-Ends _ ReadsError.unknown_symbol (λ p. cc))
  ]

  pub get_elem?_bound :
      (l : List Instruction) (i : ℕ) (ins : Instruction) → get_elem? l i ≡ some ins → i < length l
  get_elem?_bound [] i ins e = cc
  get_elem?_bound (x ∷ l) zero ins e = omega arith
  get_elem?_bound (x ∷ l) (suc i) ins e = omega (arith, get_elem?_bound l i ins e)

  pub successors_bound :
      (i : ℕ) (ins : Instruction) (l : List ℕ)
      → i < length insns
      → successors insns i ins ≡ ok l
      → Below (length insns + 1) l
  unfolding successors
  successors_bound i ins l h e = elim (Bool-cases (is_exit ins)) [
    | inl x ↦ let q = ok_same [] l (rw x at e) in rw (← q) tt
    | inr x ↦ elim (Bool-cases (branches ins)) [
      | inr b ↦ let q = ok_same ((i + 1) ∷ []) l (rw (x, b) at e) in rw (← q) (omega arith)
      | inl b ↦
          let (t, g, k) =
            >>=-eq-ok (target insns i ins)
              (λ t. ok (if is_goto ins then t ∷ [] else t ∷ (i + 1) ∷ [])) l (rw (x, b) at e) in
          let inside = target_bound i t ins g in
          elim (Bool-cases (is_goto ins)) [
            | inl j ↦ let q = ok_same (t ∷ []) l (rw j at k) in rw (← q) (omega (arith, inside))
            | inr j ↦
                let q = ok_same (t ∷ (i + 1) ∷ []) l (rw j at k) in rw (← q) (omega (arith, inside))
          ]
    ]
  ]

  pub successors-Ends : (i : ℕ) (ins : Instruction) → Ends (successors insns i ins)
  unfolding successors
  successors-Ends i ins = elim (Bool-cases (is_exit ins)) [
    | inl x ↦ rw x (λ p. cc)
    | inr x ↦ elim (Bool-cases (branches ins)) [
      | inr b ↦ rw (x, b) (λ p. cc)
      | inl b ↦ rw (x, b) (>>=-Ends (target insns i ins) _ (target-Ends i ins) (λ t g p. cc))
    ]
  ]
