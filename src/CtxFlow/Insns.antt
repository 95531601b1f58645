-- ===== src/CtxFlow/Insns.antt =====
-- internal/ctxflow/pass.go: the argument registers that an instruction reads and writes. What the
-- assembler library's methods say of an instruction is given, and stands in `Instruction`.
use bpf_ninja.Base.{
  ℕ, zero, suc, ◌-◌, Bool, true, false, not, ◌&&◌, ◌||◌, Option, none, some, ◌++◌, Bytes, codes,
  leb, ◌==◌, if◌then◌else◌, get_elem?,
}

pub data Class : Type 0 where
  ld ldx st stx alu alu64 jump jump32 : Class

pub data AluOp : Type 0 where
  mov neg swap other : AluOp

pub data JumpOp : Type 0 where
  exit call ja other : JumpOp

pub data Linkage : Type 0 where
  static_func global_func extern_func : Linkage

-- `asm.Instruction`. An offset is the pattern of 16 bits and a constant that of 64; `size` is in raw
-- instructions; `linkage` is that of the function that starts here, if BTF says it.
pub record Instruction : Type 0 where
  pub class : Class
  pub alu_op : AluOp
  pub jump_op : JumpOp
  pub reg_source : Bool
  pub mem_mode : Bool
  pub load_imm_dword : Bool
  pub dst : ℕ
  pub src : ℕ
  pub offset : ℕ
  pub constant : ℕ
  pub size : ℕ
  pub symbol : Bytes
  pub reference : Bytes
  pub is_function_call : Bool
  pub is_builtin_call : Bool
  pub linkage : Option Linkage

-- A bit set over R0 to R5.
pub record RegSet : Type 0 where
  pub r0 : Bool
  pub r1 : Bool
  pub r2 : Bool
  pub r3 : Bool
  pub r4 : Bool
  pub r5 : Bool

unfoldable pub has : RegSet → ℕ → Bool
has s zero = s.r0
has s (suc zero) = s.r1
has s (suc (suc zero)) = s.r2
has s (suc (suc (suc zero))) = s.r3
has s (suc (suc (suc (suc zero)))) = s.r4
has s (suc (suc (suc (suc (suc zero))))) = s.r5
has s r = false

-- The set of the registers that pass a test.
abbrev pub set_of : (ℕ → Bool) → RegSet
set_of f = record { r0 = f 0; r1 = f 1; r2 = f 2; r3 = f 3; r4 = f 4; r5 = f 5 }

abbrev pub union : RegSet → RegSet → RegSet
union s t = record {
  r0 = s.r0 || t.r0;
  r1 = s.r1 || t.r1;
  r2 = s.r2 || t.r2;
  r3 = s.r3 || t.r3;
  r4 = s.r4 || t.r4;
  r5 = s.r5 || t.r5;
}

abbrev pub inter : RegSet → RegSet → RegSet
inter s t = record {
  r0 = s.r0 && t.r0;
  r1 = s.r1 && t.r1;
  r2 = s.r2 && t.r2;
  r3 = s.r3 && t.r3;
  r4 = s.r4 && t.r4;
  r5 = s.r5 && t.r5;
}

-- `s &^ t`
abbrev pub minus : RegSet → RegSet → RegSet
minus s t = record {
  r0 = s.r0 && not t.r0;
  r1 = s.r1 && not t.r1;
  r2 = s.r2 && not t.r2;
  r3 = s.r3 && not t.r3;
  r4 = s.r4 && not t.r4;
  r5 = s.r5 && not t.r5;
}

abbrev pub same_bit : Bool → Bool → Bool
same_bit true b = b
same_bit false b = not b

abbrev pub same_set : RegSet → RegSet → Bool
same_set s t =
    same_bit s.r0 t.r0
    && (same_bit s.r1 t.r1
        && (same_bit s.r2 t.r2
            && (same_bit s.r3 t.r3 && (same_bit s.r4 t.r4 && same_bit s.r5 t.r5))))

abbrev pub no_regs : RegSet
no_regs = set_of (λ r. false)

abbrev pub all_regs : RegSet
all_regs = set_of (λ r. true)

abbrev pub args : RegSet
args = set_of (λ r. leb 1 r)

-- `bit` of `operands`
abbrev pub bit : ℕ → RegSet
bit r = set_of (λ x. x == r)

-- `helperArgs`, as digits
helper_args : Bytes
helper_args =
    codes "0"
    ++ (codes
          "2423050055533002131442215435333231032322103231125434424352242243254544444434141024255132244"
        ++ (codes
              "311111155433344421553333210445113053124322221111144434233541421242020315453413231111341454"
            ++ (codes "332101144533231442255333220442")))

-- The registers that a call of a helper reads: its arguments, or all where it is unknown.
call_uses : Instruction → RegSet
unfolding helper_args
call_uses ins =
    if ins.is_builtin_call
    then elim (get_elem? helper_args ins.constant) [
      | none ↦ args
      | some d ↦ set_of (λ r. leb 1 r && leb r (d - b'0'))
    ]
    else args

abbrev pub is_jump_class : Class → Bool
is_jump_class Class.jump = true
is_jump_class Class.jump32 = true
is_jump_class c = false

with_src : Bool → Instruction → RegSet → RegSet
with_src true ins read = union read (bit ins.src)
with_src false ins read = read

-- What an instruction of an arithmetic class reads.
alu_uses : AluOp → Instruction → RegSet
unfolding with_src
alu_uses AluOp.mov ins = with_src ins.reg_source ins no_regs
alu_uses AluOp.neg ins = bit ins.dst
alu_uses AluOp.swap ins = bit ins.dst
alu_uses AluOp.other ins = with_src ins.reg_source ins (bit ins.dst)

jump_operands : JumpOp → Instruction → RegSet × RegSet
unfolding call_uses with_src
jump_operands JumpOp.exit ins = (bit 0, no_regs)
jump_operands JumpOp.call ins = (call_uses ins, all_regs)
jump_operands JumpOp.ja ins = (no_regs, no_regs)
jump_operands JumpOp.other ins = (with_src ins.reg_source ins (bit ins.dst), no_regs)

class_operands : Class → Instruction → RegSet × RegSet
unfolding alu_uses jump_operands
class_operands Class.alu ins = (alu_uses ins.alu_op ins, bit ins.dst)
class_operands Class.alu64 ins = (alu_uses ins.alu_op ins, bit ins.dst)
class_operands Class.ldx ins = (bit ins.src, bit ins.dst)
class_operands Class.ld ins =
    if ins.load_imm_dword then (no_regs, bit ins.dst) else (union (bit ins.src) args, all_regs)
class_operands Class.st ins = (bit ins.dst, no_regs)
class_operands Class.stx ins =
    if ins.mem_mode
    then (union (bit ins.dst) (bit ins.src), no_regs)
    else (union (union (bit ins.dst) (bit ins.src)) (bit 0), no_regs)
class_operands Class.jump ins = jump_operands ins.jump_op ins
class_operands Class.jump32 ins = jump_operands ins.jump_op ins

-- `operands`: the registers read and written
unfoldable pub operands : Instruction → RegSet × RegSet
unfolding class_operands
operands ins = class_operands ins.class ins

-- `FreeArg`; 0 is no register.
unfoldable pub free_arg : RegSet → ℕ
unfolding has
free_arg reads =
    if not (has reads 5)
    then 5
    else if not (has reads 4)
    then 4
    else if not (has reads 3)
    then 3
    else if not (has reads 2)
    then 2
    else if not (has reads 1)
    then 1
    else 0

-- What ends a path, what branches, and what does so always.
unfoldable pub is_exit : Instruction → Bool
is_exit ins = is_jump_class ins.class && (elim ins.jump_op [ JumpOp.exit ↦ true | _ ↦ false ])

unfoldable pub branches : Instruction → Bool
branches ins =
    is_jump_class ins.class
    && (elim ins.jump_op [ JumpOp.exit ↦ false | JumpOp.call ↦ false | _ ↦ true ])

unfoldable pub is_goto : Instruction → Bool
is_goto ins = elim ins.jump_op [ JumpOp.ja ↦ true | _ ↦ false ]
