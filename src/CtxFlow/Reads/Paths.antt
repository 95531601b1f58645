-- ===== src/CtxFlow/Reads/Paths.antt =====
-- What a function reads before it writes it: the paths of its instructions, described without the
-- algorithm of `ArgReads`.
use bpf_ninja.Base.{ℕ, ◌+◌, ◌≡◌, true, false, some, List, get_elem?}
use bpf_ninja.CtxFlow.Insns.{
  Instruction, RegSet, has, union, no_regs, args, operands, is_exit, branches, is_goto,
}
use bpf_ninja.CtxFlow.Reads.{ok, target, is_exported}

-- Control may go from one instruction to another.
pub data Edge (insns : List Instruction) : ℕ → ℕ → Type 0 where
  falls :
      {i j : ℕ} (ins : Instruction)
      → get_elem? insns i ≡ some ins
      → is_exit ins ≡ false
      → branches ins ≡ false
      → j ≡ i + 1
      → Edge insns i j
  jumps :
      {i t : ℕ} (ins : Instruction)
      → get_elem? insns i ≡ some ins
      → is_exit ins ≡ false
      → branches ins ≡ true
      → target insns i ins ≡ ok t
      → Edge insns i t
  passes :
      {i j : ℕ} (ins : Instruction)
      → get_elem? insns i ≡ some ins
      → is_exit ins ≡ false
      → branches ins ≡ true
      → is_goto ins ≡ false
      → j ≡ i + 1
      → Edge insns i j

-- A path from a function's start to an instruction, with what is written on it.
pub data Run (insns : List Instruction) (start : ℕ) : ℕ → RegSet → Type 0 where
  here : Run insns start start no_regs
  next :
      {i j : ℕ} {d : RegSet} (ins : Instruction)
      → Run insns start i d
      → get_elem? insns i ≡ some ins
      → Edge insns i j
      → Run insns start j (union d (operands ins).1)

mutual
  -- The function at `start` reads `r`, which nothing before on the path writes.
  pub data ReadsFirst (insns : List Instruction) : ℕ → ℕ → Type 0 where
    reads_first :
        {start i r : ℕ} {d : RegSet}
        → Run insns start i d
        → Uses insns i r
        → has d r ≡ false
        → ReadsFirst insns start r

  -- The instruction of index `i` reads `r`: as an operand, as an argument of a function that is not
  -- static, or in the function that it calls.
  pub data Uses (insns : List Instruction) : ℕ → ℕ → Type 0 where
    operand :
        {i r : ℕ} (ins : Instruction)
        → get_elem? insns i ≡ some ins
        → ins.is_function_call ≡ false
        → has (operands ins).0 r ≡ true
        → Uses insns i r
    argument :
        {i t r : ℕ} (ins : Instruction)
        → get_elem? insns i ≡ some ins
        → ins.is_function_call ≡ true
        → target insns i ins ≡ ok t
        → is_exported insns t ≡ true
        → has args r ≡ true
        → Uses insns i r
    in_callee :
        {i t r : ℕ} (ins : Instruction)
        → get_elem? insns i ≡ some ins
        → ins.is_function_call ≡ true
        → target insns i ins ≡ ok t
        → is_exported insns t ≡ false
        → ReadsFirst insns t r
        → Uses insns i r
