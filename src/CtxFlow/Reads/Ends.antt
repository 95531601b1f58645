-- ===== src/CtxFlow/Reads/Ends.antt =====
-- `ArgReads` comes to an end on every program.
use bpf_ninja.Base.{
  ℕ, zero, suc, ◌+◌, ◌<◌, ◌≤◌, ◌≡◌, ◌≢◌, refl, arith, Bool, true, false, Option, none, some, List,
  [], ◌∷◌, ◌==◌, length, if◌then◌else◌, get_elem?, Bool-cases, Option-cases, inl, inr,
}
use bpf_ninja.CtxFlow.Insns.{Instruction, RegSet, union, minus, no_regs, bit, operands}
use bpf_ninja.CtxFlow.Reads.{
  ReadsError, Found, ok, fail, lookup, target, is_exported, Memo, Callee, call_reads, uses_when,
  uses_of, successors, Walk, arrive_all, written_at, visit, flow, in_progress, known, remember,
  rounds, unless_busy, outcome, reads, arg_reads,
}
use bpf_ninja.CtxFlow.Reads.Potential.{potential, potential_bound, arrive_all-pending}
use bpf_ninja.CtxFlow.Reads.Bounds.{
  Ends, >>=-Ends, target_bound, target-Ends, get_elem?_bound, successors_bound, successors-Ends,
}

module _ (insns : List Instruction) where
  -- A call comes to an end wherever there is an instruction.
  abbrev CalleeEnds : Callee → Type 0
  CalleeEnds callee = (memo : Memo) (t : ℕ) → t < length insns → Ends (callee memo t)

  call_reads-Ends :
      (callee : Callee) (memo : Memo) (t : ℕ)
      → CalleeEnds callee
      → t < length insns
      → Ends (call_reads insns callee memo t)
  unfolding call_reads
  call_reads-Ends callee memo t c h = elim (Bool-cases (is_exported insns t)) [
    | inl x ↦ rw x (λ p. cc)
    | inr x ↦ rw x (c memo t h)
  ]

  uses_when-Ends :
      (b : Bool) (callee : Callee) (memo : Memo) (i : ℕ) (ins : Instruction)
      → CalleeEnds callee
      → Ends (uses_when b insns callee memo i ins)
  unfolding uses_when
  uses_when-Ends true callee memo i ins c =
      >>=-Ends (target insns i ins) (call_reads insns callee memo) (target-Ends insns i ins)
        (λ t g. call_reads-Ends callee memo t c (target_bound insns i t ins g))
  uses_when-Ends false callee memo i ins c = λ p. cc

  uses_of-Ends :
      (callee : Callee) (memo : Memo) (i : ℕ) (ins : Instruction)
      → CalleeEnds callee
      → Ends (uses_of insns callee memo i ins)
  unfolding uses_of
  uses_of-Ends callee memo i ins c = uses_when-Ends ins.is_function_call callee memo i ins c

  flow-Ends :
      (callee : Callee) (f : ℕ) (m : List (ℕ × RegSet)) (work : List ℕ) (out : RegSet) (memo : Memo)
      → CalleeEnds callee
      → length work + potential (length insns + 1) m < f
      → Ends (flow insns callee f m work out memo)
  unfolding flow visit
  flow-Ends callee f m [] out memo c h = λ p. cc
  flow-Ends callee zero m (i ∷ work) out memo c h = absurd (omega arith)
  flow-Ends callee (suc f) m (i ∷ work) out memo c h = elim (Option-cases (get_elem? insns i)) [
    | inl e ↦ rw e (λ p. cc)
    | inr (ins, e) ↦ rw e (
        let k : Walk = record { written = m; work = work } in
        let w : RegSet = written_at i k in
        >>=-Ends (uses_of insns callee memo i ins) _ (uses_of-Ends callee memo i ins c) (λ u q.
          >>=-Ends (successors insns i ins) _ (successors-Ends insns i ins) (λ l q'.
            let k' : Walk = arrive_all (union w (operands ins).1) l k in
            let less =
              arrive_all-pending (length insns + 1) (union w (operands ins).1) l k
                (successors_bound insns i ins l (get_elem?_bound insns insns i ins e) q') in
            flow-Ends callee f k'.written k'.work (union out (minus u.0 w)) u.1 c
              (omega (arith, h, less)))))
  ]

  outcome-Ends :
      (callee : Callee) (memo : Memo) (start : ℕ)
      → CalleeEnds callee
      → Ends (outcome insns callee memo start)
  outcome-Ends callee memo start c =
      unfold outcome in
      >>=-Ends (flow insns callee (rounds insns) ((start, no_regs) ∷ []) (start ∷ []) no_regs memo)
        (remember start)
        (flow-Ends callee (rounds insns) ((start, no_regs) ∷ []) (start ∷ []) no_regs memo c
          (omega (arith, potential_bound (length insns + 1) ((start, no_regs) ∷ []))))
        (λ a e. unfold remember in λ p. cc)

-- How many of the first `n` functions are not being read.
free : ℕ → List ℕ → ℕ
unfolding in_progress
free zero busy = 0
free (suc n) busy = (if in_progress n busy then 0 else 1) + free n busy

free_bound : (n : ℕ) (busy : List ℕ) → free n busy ≤ n
unfolding free
free_bound zero busy = omega arith
free_bound (suc n) busy = ground (arith, free_bound n busy)

free_other : (n s : ℕ) (busy : List ℕ) → n ≤ s → free n (s ∷ busy) ≡ free n busy
unfolding free
free_other zero s busy h = refl
free_other (suc n) s busy h =
    let other : (s == n) ≡ false = ground arith in
    rw (other, free_other n s busy (omega arith)) refl

free_fewer :
    (n s : ℕ) (busy : List ℕ)
    → s < n
    → in_progress s busy ≡ false
    → free n busy ≡ suc (free n (s ∷ busy))
unfolding free
free_fewer zero s busy h e = absurd (omega arith)
free_fewer (suc n) s busy h e = elim (Bool-cases (s == n)) [
  | inl t ↦
      let same : n ≡ s = ground (arith, t) in
      let still : in_progress n busy ≡ false = rw same e in
      rw (t, still, free_other n s busy (omega (arith, same))) (omega arith)
  | inr t ↦ let less : s < n = ground (arith, t) in rw t (omega (arith, free_fewer n s busy less e))
]

module _ (insns : List Instruction) where
  known-Ends :
      (o : Option RegSet) (memo : Memo) (rest : Found (RegSet × Memo))
      → Ends rest
      → Ends (known o memo rest)
  unfolding known
  known-Ends none memo rest h = h
  known-Ends (some r) memo rest h = λ p. cc

  unless_busy-Ends :
      (b : Bool) (rest : Found (RegSet × Memo))
      → (b ≡ false → Ends rest)
      → Ends (unless_busy b rest)
  unfolding unless_busy
  unless_busy-Ends true rest h = λ p. cc
  unless_busy-Ends false rest h = h refl

  reads-Ends :
      (f : ℕ) (busy : List ℕ) (memo : Memo) (start : ℕ)
      → start < length insns
      → free (length insns) busy < f
      → Ends (reads insns f busy memo start)
  unfolding reads
  reads-Ends zero busy memo start k h = absurd (omega arith)
  reads-Ends (suc f) busy memo start k h =
      let callee : Callee = λ m t. reads insns f (start ∷ busy) m t in
      known-Ends (lookup start memo) memo
        (unless_busy (in_progress start busy) (outcome insns callee memo start))
        (unless_busy-Ends (in_progress start busy) (outcome insns callee memo start) (λ e.
          outcome-Ends insns callee memo start (λ m t q.
            reads-Ends f (start ∷ busy) m t q
              (omega (arith, h, free_fewer (length insns) start busy k e)))))

-- `ArgReads` comes to an end for every program and every index: calls inside one another no deeper
-- than there are instructions, and seven rounds for each instruction of a function, are enough.
pub arg_reads-total :
    (insns : List Instruction) (start : ℕ) → arg_reads insns start ≢ fail ReadsError.out_of_fuel
unfolding arg_reads reads
arg_reads-total insns start =
    let callee : Callee = λ m t. reads insns (length insns + 1) (start ∷ []) m t in
    let first : Ends (reads insns (suc (length insns + 1)) [] [] start) =
      known-Ends insns none [] (unless_busy false (outcome insns callee [] start)) (
        unless_busy-Ends insns false (outcome insns callee [] start) (λ e.
          outcome-Ends insns callee [] start (λ m t q.
            reads-Ends insns (length insns + 1) (start ∷ []) m t q
              (omega (arith, free_bound (length insns) (start ∷ [])))))) in
    >>=-Ends (reads insns (suc (length insns + 1)) [] [] start) (λ r. ok (minus r.0 (bit 0))) first
      (λ a e p. cc)
