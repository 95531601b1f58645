-- ===== src/CtxFlow/Reads/Uses.antt =====
-- What `ArgReads` takes an instruction to read, and where it takes control to go.

use bpf_ninja.Base.{
  ℕ, ◌+◌, ◌≡◌, refl, sym, ap, ◌∙◌, arith, Bool, true, false, some, List, [], ◌∷◌, if◌then◌else◌,
  get_elem?, Bool-cases, ◌⊎◌, inl, inr,
}
use bpf_ninja.CtxFlow.Insns.{Instruction, RegSet, has, args, operands, is_goto}
use bpf_ninja.CtxFlow.Reads.{
  Found, ok, fail, ◌>>=◌, lookup, target, is_exported, Memo, Callee, call_reads, uses_when, uses_of,
  successors,
}
use bpf_ninja.CtxFlow.Reads.Paths.{
  Edge, falls, jumps, passes, ReadsFirst, Uses, operand, argument, in_callee,
}
use bpf_ninja.CtxFlow.Reads.Arrive.{In}

-- What comes before, where a chain succeeds.
pub >>=-eq-ok :
    {A B : Type 0} (first : Found A) (continue : A → Found B) (answer : B)
    → (first >>= continue) ≡ ok answer
    → (a : A) × (first ≡ ok a) × (continue a ≡ ok answer)
>>=-eq-ok (fail e) next_step answer h = cc
>>=-eq-ok (ok a) next_step answer h = (a, refl, h)

pub ok_same : {A : Type 0} (a b : A) → ok a ≡ ok b → a ≡ b
ok_same a b h = ground (arith, h)

pub some_same : {A : Type 0} (a b : A) → some a ≡ some b → a ≡ b
some_same a b h = ground (arith, h)

pub clash : (b : Bool) → b ≡ true → b ≡ false → ⊥
clash b h k = cc

module _ (insns : List Instruction) where
  -- A set holds what the function at an index reads first.
  abbrev pub Sound : ℕ → RegSet → Type 0
  Sound start s = (r : ℕ) → ReadsFirst insns start r → has s r ≡ true

  -- What the memo says is right.
  abbrev pub IsSoundMemo : Memo → Type 0
  IsSoundMemo memo = (t : ℕ) (s : RegSet) → lookup t memo ≡ some s → Sound t s

  -- A call's answer is right, with the memo behind it.
  abbrev pub IsSoundCallee : Callee → Type 0
  IsSoundCallee callee =
      (memo memo' : Memo) (t : ℕ) (s : RegSet)
      → IsSoundMemo memo
      → callee memo t ≡ ok (s, memo')
      → Sound t s × IsSoundMemo memo'

  pub same_ins :
      (i : ℕ) (ins ins' : Instruction)
      → get_elem? insns i ≡ some ins
      → get_elem? insns i ≡ some ins'
      → ins' ≡ ins
  same_ins i ins ins' e e' = some_same ins' ins (sym e' ∙ e)

  Uses-operand :
      (i r : ℕ) (ins : Instruction)
      → get_elem? insns i ≡ some ins
      → ins.is_function_call ≡ false
      → Uses insns i r
      → has (operands ins).0 r ≡ true
  Uses-operand i r ins e f (operand ins' e' f' h) = rw (same_ins i ins ins' e e') at h
  Uses-operand i r ins e f (argument ins' e' f' t x h) =
      let called = rw (same_ins i ins ins' e e') at f' in
      absurd (clash ins.is_function_call called f)
  Uses-operand i r ins e f (in_callee ins' e' f' t x h) =
      let called = rw (same_ins i ins ins' e e') at f' in
      absurd (clash ins.is_function_call called f)

  Uses-call :
      (i r t : ℕ) (ins : Instruction)
      → get_elem? insns i ≡ some ins
      → ins.is_function_call ≡ true
      → target insns i ins ≡ ok t
      → Uses insns i r
      → ((is_exported insns t ≡ true) × (has args r ≡ true))
        ⊎ ((is_exported insns t ≡ false) × ReadsFirst insns t r)
  Uses-call i r t ins e f g (operand ins' e' f' h) =
      let called = rw (same_ins i ins ins' e e') at f' in
      absurd (clash ins.is_function_call f called)
  Uses-call i r t ins e f g (argument {t = t'} ins' e' f' g' x h) =
      let there = rw (same_ins i ins ins' e e') at g' in
      let same : t' ≡ t = ok_same t' t (sym there ∙ g) in inl (rw same at x, h)
  Uses-call i r t ins e f g (in_callee {t = t'} ins' e' f' g' x h) =
      let there = rw (same_ins i ins ins' e e') at g' in
      let same : t' ≡ t = ok_same t' t (sym there ∙ g) in inr (rw same at x, rw same at h)

  -- A call's reads are right.
  call_reads_sound :
      (callee : Callee) (memo memo' : Memo) (i t : ℕ) (ins : Instruction) (s : RegSet)
      → IsSoundCallee callee
      → IsSoundMemo memo
      → get_elem? insns i ≡ some ins
      → ins.is_function_call ≡ true
      → target insns i ins ≡ ok t
      → call_reads insns callee memo t ≡ ok (s, memo')
      → IsSoundMemo memo' × ((r : ℕ) → Uses insns i r → has s r ≡ true)
  unfolding call_reads
  call_reads_sound callee memo memo' i t ins s c v e f g u =
      elim (Bool-cases (is_exported insns t)) [
        | inl x ↦
            let p : (args, memo) ≡ (s, memo') = ok_same (args, memo) (s, memo') (rw x at u) in
            let is_args : args ≡ s = ap (λ (q : RegSet × Memo). q.0) p in
            let is_memo : memo ≡ memo' = ap (λ (q : RegSet × Memo). q.1) p in
            (
              rw (← is_memo) v,
              λ r h. elim (Uses-call i r t ins e f g h) [
                | inl (y, k) ↦ rw is_args at k
                | inr (y, k) ↦ absurd (clash (is_exported insns t) x y)
              ],
            )
        | inr x ↦
            let (right, kept) = c memo memo' t s v (rw x at u) in
            (
              kept,
              λ r h. elim (Uses-call i r t ins e f g h) [
                | inl (y, k) ↦ absurd (clash (is_exported insns t) y x)
                | inr (y, k) ↦ right r k
              ],
            )
      ]

  uses_when_sound :
      (b : Bool) (callee : Callee) (memo memo' : Memo) (i : ℕ) (ins : Instruction) (s : RegSet)
      → IsSoundCallee callee
      → IsSoundMemo memo
      → get_elem? insns i ≡ some ins
      → ins.is_function_call ≡ b
      → uses_when b insns callee memo i ins ≡ ok (s, memo')
      → IsSoundMemo memo' × ((r : ℕ) → Uses insns i r → has s r ≡ true)
  unfolding uses_when
  uses_when_sound true callee memo memo' i ins s c v e f u =
      let (t, g, q) = >>=-eq-ok (target insns i ins) (call_reads insns callee memo) (s, memo') u in
      call_reads_sound callee memo memo' i t ins s c v e f g q
  uses_when_sound false callee memo memo' i ins s c v e f u =
      let p : ((operands ins).0, memo) ≡ (s, memo') =
        ok_same ((operands ins).0, memo) (s, memo') u in
      let is_use : (operands ins).0 ≡ s = ap (λ (q : RegSet × Memo). q.0) p in
      let is_memo : memo ≡ memo' = ap (λ (q : RegSet × Memo). q.1) p in
      (rw (← is_memo) v, λ r h. rw is_use at (Uses-operand i r ins e f h))

  -- Control goes where `successors` says.
  pub successors-In :
      (i j : ℕ) (ins : Instruction) (l : List ℕ)
      → get_elem? insns i ≡ some ins
      → successors insns i ins ≡ ok l
      → Edge insns i j
      → In j l
  unfolding successors
  successors-In i j ins l e u (falls ins' e' x b p) =
      let same = same_ins i ins ins' e e' in
      let x' = rw same at x in
      let b' = rw same at b in
      let q : (i + 1) ∷ [] ≡ l = ok_same ((i + 1) ∷ []) l (rw b' at (rw x' at u)) in
      rw (← q) (inl (sym p))
  successors-In i j ins l e u (jumps ins' e' x b g) =
      let same = same_ins i ins ins' e e' in
      let x' = rw same at x in
      let b' = rw same at b in
      let g' = rw same at g in
      let q = ok_same _ l (rw g' at (rw b' at (rw x' at u))) in
      elim (Bool-cases (is_goto ins)) [
        | inl k ↦ rw (← q, k) (inl refl)
        | inr k ↦ rw (← q, k) (inl refl)
      ]
  successors-In i j ins l e u (passes ins' e' x b k p) =
      let same = same_ins i ins ins' e e' in
      let x' = rw same at x in
      let b' = rw same at b in
      let k' = rw same at k in
      let (t, g, q) =
        >>=-eq-ok (target insns i ins) (λ t. ok (if is_goto ins then t ∷ [] else t ∷ (i + 1) ∷ []))
          l (rw b' at (rw x' at u)) in
      let q' : t ∷ (i + 1) ∷ [] ≡ l = ok_same (t ∷ (i + 1) ∷ []) l (rw k' at q) in
      rw (← q') (inr (inl (sym p)))

  pub uses_of_sound :
      (callee : Callee) (memo memo' : Memo) (i : ℕ) (ins : Instruction) (s : RegSet)
      → IsSoundCallee callee
      → IsSoundMemo memo
      → get_elem? insns i ≡ some ins
      → uses_of insns callee memo i ins ≡ ok (s, memo')
      → IsSoundMemo memo' × ((r : ℕ) → Uses insns i r → has s r ≡ true)
  unfolding uses_of
  uses_of_sound callee memo memo' i ins s c v e u =
      uses_when_sound ins.is_function_call callee memo memo' i ins s c v e refl u
