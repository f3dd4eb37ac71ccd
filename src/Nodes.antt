-- ===== src/Nodes.antt =====
-- include/qbt/nodes.h: values, instructions, blocks and functions of the intermediate language.
-- A register or temporary number and a block pointer is an ℕ (the program never makes a negative
-- one); the 64-bit immediates and offsets are integers, and no operation of the passes computes
-- with them. A block pointer is the block's `id`, which `new_block` never gives out twice.
pub mod Blocks
pub mod Build
pub mod Names
mod Tests
use Prim.Native.String.{String}
use qbt.Prelude.{ℕ, Bool, true, false, ◌||◌, Option, List, ◌==◌}
use qbt.Prelude.Int.{ℤ, pos, eqb_ℤ}

pub data InsnType : Type 0 where
  add sub mul div rem call label store load alloc dealloc copy move blit : InsnType
  eq ne le ge lt gt not neg lshift rshift : InsnType
  beq bne ble bge blt bgt bnz bez j ret : InsnType
  arg retarg param retval addr save restore : InsnType

-- The value of the enumerator.
unfoldable pub type_code : InsnType → ℕ
type_code InsnType.add = 0
type_code InsnType.sub = 1
type_code InsnType.mul = 2
type_code InsnType.div = 3
type_code InsnType.rem = 4
type_code InsnType.call = 5
type_code InsnType.label = 6
type_code InsnType.store = 7
type_code InsnType.load = 8
type_code InsnType.alloc = 9
type_code InsnType.dealloc = 10
type_code InsnType.copy = 11
type_code InsnType.move = 12
type_code InsnType.blit = 13
type_code InsnType.eq = 14
type_code InsnType.ne = 15
type_code InsnType.le = 16
type_code InsnType.ge = 17
type_code InsnType.lt = 18
type_code InsnType.gt = 19
type_code InsnType.not = 20
type_code InsnType.neg = 21
type_code InsnType.lshift = 22
type_code InsnType.rshift = 23
type_code InsnType.beq = 24
type_code InsnType.bne = 25
type_code InsnType.ble = 26
type_code InsnType.bge = 27
type_code InsnType.blt = 28
type_code InsnType.bgt = 29
type_code InsnType.bnz = 30
type_code InsnType.bez = 31
type_code InsnType.j = 32
type_code InsnType.ret = 33
type_code InsnType.arg = 34
type_code InsnType.retarg = 35
type_code InsnType.param = 36
type_code InsnType.retval = 37
type_code InsnType.addr = 38
type_code InsnType.save = 39
type_code InsnType.restore = 40

-- `a == b` on enumerators.
unfoldable pub same_type : InsnType → InsnType → Bool
unfolding type_code
same_type a b = type_code a == type_code b

pub data ValType : Type 0 where
  notype i9 i27 : ValType

-- A string that the parser owns: its address, by which pointers are compared, and its characters.
pub record Str : Type 0 where
  pub address : ℕ
  pub text : String

-- `struct val`: the class with the fields that it uses. `mem` is a base register and an offset.
pub data Val : Type 0 where
  reg tmp : ℕ → Val
  imm : ℤ → ValType → Val
  mem : ℕ → ℤ → Val
  ref : Str → Val
  noclass : Val

abbrev pub is_reg : Val → Bool
is_reg (reg _) = true
is_reg _ = false

abbrev pub is_tmp : Val → Bool
is_tmp (tmp _) = true
is_tmp _ = false

abbrev pub is_imm : Val → Bool
is_imm (imm _ _) = true
is_imm _ = false

abbrev pub is_ref : Val → Bool
is_ref (ref _) = true
is_ref _ = false

abbrev pub hasclass : Val → Bool
hasclass noclass = false
hasclass _ = true

-- The field `r` of the struct, by which the passes index their tables.
abbrev pub r_of : Val → ℕ
r_of (reg r) = r
r_of (tmp r) = r
r_of (imm _ i9) = 1
r_of (imm _ i27) = 2
r_of (mem base _) = base
r_of _ = 0

-- The field `v` of the union; 0 where the value was built without it.
abbrev pub v_of : Val → ℤ
v_of (imm v _) = v
v_of (mem _ offset) = offset
v_of (ref s) = pos s.address
v_of _ = pos 0

-- A `mem` is compared by its offset alone, an `imm` by its value alone.
unfoldable pub same_val : Val → Val → Bool
same_val (reg a) (reg b) = a == b
same_val (tmp a) (tmp b) = a == b
same_val (imm v _) (imm w _) = eqb_ℤ v w
same_val (mem _ v) (mem _ w) = eqb_ℤ v w
same_val (ref s) (ref t) = s.address == t.address
same_val noclass noclass = true
same_val _ _ = false

-- `enum insn_flags`, one field to a bit.
pub record InsnFlags : Type 0 where
  pub call_teardown : Bool
  pub call_setup : Bool

pub record Insn : Type 0 where
  pub type : InsnType
  pub vtype : ValType
  pub out : Val
  pub in0 : Val
  pub in1 : Val
  pub flags : InsnFlags
  pub v : ℤ

abbrev pub set_insn_flags : Insn → InsnFlags → Insn
set_insn_flags i f = record i {
  flags = record {
    call_teardown = i.flags.call_teardown || f.call_teardown;
    call_setup = i.flags.call_setup || f.call_setup;
  };
}

abbrev pub no_flags : InsnFlags
no_flags = record { call_teardown = false; call_setup = false }

abbrev pub setup_flag : InsnFlags
setup_flag = record { call_teardown = false; call_setup = true }

abbrev pub teardown_flag : InsnFlags
teardown_flag = record { call_teardown = true; call_setup = false }

abbrev pub both_flags : InsnFlags
both_flags = record { call_teardown = true; call_setup = true }

abbrev pub insn_create : InsnType → ValType → Val → Val → Val → ℤ → Insn
insn_create o t r a0 a1 v = record {
  type = o;
  vtype = t;
  out = r;
  in0 = a0;
  in1 = a1;
  flags = no_flags;
  v = v;
}

pub record Blk : Type 0 where
  pub name : Option String
  pub id : ℕ
  pub btype : InsnType
  pub cmp0 : Val
  pub cmp1 : Val
  pub s1 : Option ℕ
  pub s2 : Option ℕ
  pub insns : List Insn
  pub params : List Val
  pub args1 : List Val
  pub args2 : List Val
  pub to : Option String
  pub visited : ℕ

pub record Fn : Type 0 where
  pub name : Option String
  pub ntmp : ℕ
  pub nblk : ℕ
  pub max_callee_save : ℕ
  pub max_call_save : ℕ
  pub has_calls : Bool
  pub blks : List Blk
  pub labels : List (String × ℕ)
  pub tmps : List (String × ℕ)
