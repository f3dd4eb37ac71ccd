-- ===== src/Asm/Syntax.antt =====
-- The lines of assembly that src/asm.c prints, one constructor to a format.
use Prim.Native.String.{String}
use qbt.Prelude.{ℕ, Option, Result, ok, ◌>>◌, assert, leb}
use qbt.Prelude.Int.{ℤ}
use qbt.Nodes.{Val, is_reg, r_of, Str}

-- A register by number, or by its name in the ABI.
pub data Name : Type 0 where
  x s : ℕ → Name
  sp fp ra : Name

pub data Width : Type 0 where
  w t : Width

pub data Test : Type 0 where
  blt ble bne beq : Test

-- `st` and `ld` have the register, the offset and the base; labels are a function's name, which
-- may be missing, and a block's number.
pub data Line : Type 0 where
  fn_label : Option String → Line
  blk_label : Option String → ℕ → Line
  st ld : Width → Name → ℤ → Name → Line
  mv : Name → Name → Line
  add sub slt : Name → Name → Name → Line
  addi slti : Name → Name → ℤ → Line
  li : Name → ℤ → Line
  call : Name → Str → Line
  jalr : Name → ℕ → Name → Line
  jal : Name → Option String → ℕ → Line
  branch : Test → Name → Name → Option String → ℕ → Line
  ret : Name → Line

unfoldable pub rname : Val → Result Name
rname v = do assert (is_reg v); assert (leb (r_of v) 80); ok (x (r_of v))
