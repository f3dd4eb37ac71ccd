-- ===== src/Nodes/Build.antt =====
-- src/nodes.c: how the parser builds a function. A block pointer is the block's `id`.
pub mod Actions
pub mod Sound
pub mod Finish
pub mod Invariant
mod Tests
use Prim.Native.String.{String}
use qbt.Prelude.{
  ℕ, suc, ◌-◌, List, [], ◌∷◌, ◌++◌, Bool, true, false, ◌&&◌, Option, none, some, Result, ok, fault,
  aborted, ◌>>=◌, ◌>>◌, assert, demand, leb, ◌==◌, length, traverse, if◌then◌else◌,
}
use qbt.Prelude.Int.{ℤ}
use qbt.Seq.{vec_at, vec_append, vec_pop}
use qbt.Nodes.{InsnType, type_code, same_type, ValType, Val, reg, Insn, insn_create, Blk, Fn}
use qbt.Nodes.Blocks.{put_blk}
use qbt.Nodes.Names.{same_name}

unfoldable pub insadd : Blk → InsnType → ValType → Val → Val → Val → ℤ → Blk
insadd b o t r a0 a1 v = record b { insns = vec_append b.insns (insn_create o t r a0 a1 v) }

unfoldable pub finish_block : Blk → InsnType → Val → Val → Option String → Result Blk
finish_block b cmp a0 a1 label = do
  assert
      (leb (type_code InsnType.beq) (type_code cmp) && leb (type_code cmp) (type_code InsnType.ret))
  ok (record b { btype = cmp; cmp0 = a0; cmp1 = a1; to = label })

-- What `calloc` leaves is zero: the first enumerators, and null pointers.
unfoldable pub blank_blk : ℕ → Blk
blank_blk id = record {
  name = none;
  id = id;
  btype = InsnType.add;
  cmp0 = reg 0;
  cmp1 = reg 0;
  s1 = none;
  s2 = none;
  insns = [];
  params = [];
  args1 = [];
  args2 = [];
  to = none;
  visited = 0;
}

unfoldable pub new_block : Fn → Fn × ℕ
new_block f =
    (record f { nblk = suc f.nblk; blks = vec_append f.blks (blank_blk (suc f.nblk)) }, suc f.nblk)

unfoldable pub label_find : List (String × ℕ) → String → Option ℕ
label_find [] name = none
label_find ((id, b) ∷ ms) name =
    let rest = label_find ms name in if same_name id name then some b else rest

abbrev pub blk_empty : Blk → Bool
blk_empty b = length b.insns == 0

abbrev pub return_blk : Blk → Bool
return_blk b = same_type b.btype InsnType.ret

-- A block with a label jumps to the block of the label.
abbrev pub resolve_to : List (String × ℕ) → Blk → Option String → Result Blk
resolve_to labels b none = ok b
resolve_to labels b (some name) = do
  m ← demand aborted (label_find labels name)
  ok (record b { s2 = some m })

abbrev pub resolve : List (String × ℕ) → Blk → Result Blk
resolve labels b = resolve_to labels b b.to

unfoldable pub finish_function : Fn → Option String → Result Fn
finish_function f name = do
  (front, last) ← vec_pop f.blks
  checked ← (if blk_empty last then ok last else fault aborted)
  end ← vec_at front (length front - 1)
  assert (return_blk end)
  blks ← traverse (resolve f.labels) (put_blk front (record end { s1 = none; s2 = none }))
  ok (record f { name = name; blks = blks })

unfoldable pub new_function : Fn
new_function =
    (new_block (record {
      name = none;
      ntmp = 0;
      nblk = 0;
      max_callee_save = 0;
      max_call_save = 0;
      has_calls = false;
      blks = [];
      labels = [];
      tmps = [];
    })).0

unfoldable pub new_label : Fn → ℕ → String → Fn
new_label f p name = record f { labels = vec_append f.labels (name, p) }
