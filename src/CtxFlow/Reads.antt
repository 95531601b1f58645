-- ===== src/CtxFlow/Reads.antt =====
-- internal/ctxflow/pass.go: `ArgReads`, the argument registers that a function reads before it
-- writes them on some path.
pub mod Sets
pub mod Paths
pub mod Arrive
pub mod Uses
pub mod Walks
pub mod Sound
pub mod Potential
pub mod Bounds
pub mod Ends
pub mod Free
use bpf_ninja.Base.{
  ℕ, zero, suc, ◌+◌, ◌-◌, ◌*◌, ◌%◌, ◌^◌, ◌≡◌, Bool, true, false, not, ◌&&◌, ◌||◌, Option, none,
  some, List, [], ◌∷◌, ◌++◌, Bytes, ltb, ◌==◌, if◌then◌else◌, length, get_elem?, same_bytes,
}
use bpf_ninja.CtxFlow.Insns.{
  Class, JumpOp, Linkage, Instruction, RegSet, union, inter, minus, same_set, no_regs, args, bit,
  operands, is_exit, branches, is_goto,
}

pub data ReadsError : Type 0 where
  unknown_symbol no_target recursive_call leaves_program out_of_fuel : ReadsError

pub data Found {ℓ} (A : Type ℓ) : Type ℓ where
  ok : A → Found A
  fail : ReadsError → Found A

infixl 5 ◌>>=◌
abbrev pub ◌>>=◌ {ℓ κ} : {A : Type ℓ} {B : Type κ} → Found A → (A → Found B) → Found B
ok a >>= f = f a
fail e >>= f = fail e

-- A map from indices, the newest entry first.
abbrev pub lookup : {A : Type 0} → ℕ → List (ℕ × A) → Option A
lookup i [] = none
lookup i ((j, a) ∷ m) = if j == i then some a else lookup i m

-- The index of the instruction at a raw pc, with `pc` and `i` those of the first.
index_from : ℕ → ℕ → ℕ → List Instruction → Option ℕ
index_from at pc i [] = none
index_from at pc i (ins ∷ insns) =
    if pc == at then some i else index_from at (pc + ins.size) (i + 1) insns

-- The raw pc of the instruction of index `i`.
pc_of : ℕ → List Instruction → ℕ
pc_of i [] = 0
pc_of zero insns = 0
pc_of (suc i) (ins ∷ insns) = ins.size + pc_of i insns

-- The last instruction with a symbol, with `i` the index of the first.
symbol_from : Bytes → ℕ → List Instruction → Option ℕ
unfolding same_bytes
symbol_from name i [] = none
symbol_from name i (ins ∷ insns) = elim (symbol_from name (i + 1) insns) [
  | some j ↦ some j
  | none ↦ if same_bytes ins.symbol name then some i else none
]

-- A pattern of `w` bits as one of 64.
sign_extended : ℕ → ℕ → ℕ
sign_extended w x =
    if ltb (x % 2 ^ w) (2 ^ (w - 1)) then x % 2 ^ w else x % 2 ^ w + (2 ^ 64 - 2 ^ w)

is_far_goto : Instruction → Bool
is_far_goto ins = (elim ins.class [ Class.jump32 ↦ true | _ ↦ false ]) && is_goto ins

-- The distance that a jump or a call goes.
relative : Instruction → ℕ
unfolding sign_extended is_far_goto is_goto
relative ins =
    if ins.is_function_call || is_far_goto ins
    then sign_extended 32 ins.constant
    else sign_extended 16 ins.offset

or_fail : Option ℕ → ReadsError → Found ℕ
or_fail none e = fail e
or_fail (some i) e = ok i

-- `target` of `ArgReads`, of the instruction of index `i`
unfoldable pub target : List Instruction → ℕ → Instruction → Found ℕ
unfolding or_fail symbol_from index_from pc_of relative
target insns i ins =
    if length ins.reference == 0
    then or_fail (index_from ((pc_of i insns + 1 + relative ins) % 2 ^ 64) 0 0 insns)
        ReadsError.no_target
    else or_fail (symbol_from ins.reference 0 insns) ReadsError.unknown_symbol

-- Whether BTF says that the function at index `i` is not static.
unfoldable pub is_exported : List Instruction → ℕ → Bool
is_exported insns i = elim (get_elem? insns i) [
  | none ↦ false
  | some ins ↦ elim ins.linkage [
    | none ↦ false
    | some l ↦ elim l [ Linkage.static_func ↦ false | _ ↦ true ]
  ]
]

abbrev pub Memo : Type 0
Memo = List (ℕ × RegSet)

-- What a call of the function at an index reads, with the memo before and after.
abbrev pub Callee : Type 0
Callee = Memo → ℕ → Found (RegSet × Memo)

call_reads : List Instruction → Callee → Memo → ℕ → Found (RegSet × Memo)
unfolding is_exported
call_reads insns callee memo t = if is_exported insns t then ok (args, memo) else callee memo t

uses_when : Bool → List Instruction → Callee → Memo → ℕ → Instruction → Found (RegSet × Memo)
uses_when true insns callee memo i ins = target insns i ins >>= call_reads insns callee memo
uses_when false insns callee memo i ins = ok ((operands ins).0, memo)

-- What an instruction reads, its callee's reads for a call.
pub uses_of : List Instruction → Callee → Memo → ℕ → Instruction → Found (RegSet × Memo)
unfolding uses_when target call_reads operands
uses_of insns callee memo i ins = uses_when ins.is_function_call insns callee memo i ins

-- Where control goes from an instruction.
pub successors : List Instruction → ℕ → Instruction → Found (List ℕ)
unfolding is_exit branches is_goto target
successors insns i ins =
    if is_exit ins
    then ok []
    else if branches ins
    then (target insns i ins >>= λ t. ok (if is_goto ins then t ∷ [] else t ∷ (i + 1) ∷ []))
    else ok ((i + 1) ∷ [])

-- `written` and `work`; the top of the stack is first.
pub record Walk : Type 0 where
  pub written : List (ℕ × RegSet)
  pub work : List ℕ

-- Arrive at `s`, where every path so far has written `w`.
pub arrive : RegSet → ℕ → Walk → Walk
arrive w s k = elim (lookup s k.written) [
  | none ↦ record { written = (s, w) ∷ k.written; work = s ∷ k.work }
  | some old ↦
      if same_set (inter w old) old
      then k
      else record { written = (s, inter w old) ∷ k.written; work = s ∷ k.work }
]

pub arrive_all : RegSet → List ℕ → Walk → Walk
unfolding arrive
arrive_all w [] k = k
arrive_all w (s ∷ l) k = arrive_all w l (arrive w s k)

written_at : ℕ → Walk → RegSet
written_at i k = elim (lookup i k.written) [ none ↦ no_regs | some w ↦ w ]

-- A round at an instruction, with the rest of the loop.
visit :
    List Instruction
    → Callee
    → ℕ
    → Walk
    → RegSet
    → Memo
    → Option Instruction
    → (Walk → RegSet → Memo → Found (RegSet × Memo))
    → Found (RegSet × Memo)
unfolding uses_of successors arrive_all written_at
visit insns callee i k out memo none next = fail ReadsError.leaves_program
visit insns callee i k out memo (some ins) next =
    let w = written_at i k in
    uses_of insns callee memo i ins >>= λ u. successors insns i ins >>= λ l.
    next (arrive_all (union w (operands ins).1) l k) (union out (minus u.0 w)) u.1

-- The loop of `reads`, over `written` and `work`: what is read before it is written.
pub flow :
    List Instruction
    → Callee
    → ℕ
    → List (ℕ × RegSet)
    → List ℕ
    → RegSet
    → Memo
    → Found (RegSet × Memo)
unfolding visit
flow insns callee f m [] out memo = ok (out, memo)
flow insns callee zero m (i ∷ work) out memo = fail ReadsError.out_of_fuel
flow insns callee (suc f) m (i ∷ work) out memo =
    visit insns callee i (record { written = m; work = work }) out memo (get_elem? insns i)
      (λ k out' memo'. flow insns callee f k.written k.work out' memo')

in_progress : ℕ → List ℕ → Bool
in_progress i [] = false
in_progress i (j ∷ busy) = if j == i then true else in_progress i busy

known : Option RegSet → Memo → Found (RegSet × Memo) → Found (RegSet × Memo)
known none memo rest = rest
known (some r) memo rest = ok (r, memo)

remember : ℕ → RegSet × Memo → Found (RegSet × Memo)
remember start (out, memo) = ok (out, (start, out) ∷ memo)

-- The rounds that a walk is given.
abbrev pub rounds : List Instruction → ℕ
rounds insns = 7 * (length insns + 1) + 2

unless_busy : Bool → Found (RegSet × Memo) → Found (RegSet × Memo)
unless_busy true rest = fail ReadsError.recursive_call
unless_busy false rest = rest

-- The walk of a function, remembered.
outcome : List Instruction → Callee → Memo → ℕ → Found (RegSet × Memo)
unfolding flow remember
outcome insns callee memo start =
    flow insns callee (rounds insns) ((start, no_regs) ∷ []) (start ∷ []) no_regs memo
    >>= remember start

-- `reads` of `ArgReads`, inside calls of the functions at `busy`
pub reads : List Instruction → ℕ → List ℕ → Memo → ℕ → Found (RegSet × Memo)
unfolding outcome in_progress known unless_busy
reads insns zero busy memo start =
    known (lookup start memo) memo
      (unless_busy (in_progress start busy) (fail ReadsError.out_of_fuel))
reads insns (suc f) busy memo start = known (lookup start memo) memo (
    unless_busy (in_progress start busy)
      (outcome insns (λ m t. reads insns f (start ∷ busy) m t) memo start))

-- `ArgReads`, of the function at index `start`
unfoldable pub arg_reads : List Instruction → ℕ → Found RegSet
unfolding reads
arg_reads insns start =
    reads insns (suc (length insns + 1)) [] [] start >>= λ r. ok (minus r.0 (bit 0))
