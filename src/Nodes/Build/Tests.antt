-- ===== src/Nodes/Build/Tests.antt =====
-- A small function built by the rules of the grammar.
use qbt.Prelude.{refl, List, [], ◌∷◌, ◌≡◌, ◌>>=◌, Option, none, some, map, ok, ℕ}
use qbt.Prelude.Int.{ℤ}
use qbt.Nodes.{InsnType, type_code, same_type, ValType, tmp, imm, noclass, insn_create, Blk}
use qbt.Nodes.Blocks.{blk_of, put_blk}
use qbt.Nodes.Names.{idalloc, idmatch, find_tmp, same_name}
use qbt.Nodes.Build.{
  new_function, new_block, new_label, insadd, finish_block, finish_function, blank_blk, resolve,
  label_find,
}
use qbt.Nodes.Build.Actions.{
  Action, insert, allocate, replace, finish, label, act, act_all, do_new_function, do_insadd,
  do_idalloc, do_ins_replace, do_new_label, do_new_block, label_rule,
}
use qbt.Nodes.Build.Invariant.{start}

-- `i27 x = 7; f(x) => (); again: => ()`, with the call first without its address
abbrev actions : List Action
actions =
    allocate "x"
    ∷ insert InsnType.copy ValType.i27 (tmp 0) (imm (ℤ.pos 7) ValType.i27) noclass (ℤ.pos 0)
    ∷ insert InsnType.call ValType.notype noclass noclass noclass (ℤ.pos 0)
    ∷ replace 1 (insn_create InsnType.call ValType.notype noclass (tmp 0) noclass (ℤ.pos 0))
    ∷ finish InsnType.j noclass noclass none
    ∷ label "again"
    ∷ finish InsnType.bnz (tmp 0) noclass (some "again")
    ∷ finish InsnType.ret noclass noclass none
    ∷ []

-- The links between the blocks of the finished function: a label leads to its block.
abbrev links : Blk → ℕ × (Option ℕ × Option ℕ)
links b = (b.id, (b.s1, b.s2))

actions-links :
    (do p ← act_all start actions; (g, q) ← do_new_function p "main"; ok (map links g.blks))
    ≡ ok ((1, (some 2, some 2)) ∷ (2, (some 3, some 2)) ∷ (3, (none, none)) ∷ [])
unfolding act act_all do_new_function do_insadd do_idalloc do_ins_replace do_new_label do_new_block
    label_rule blk_of put_blk new_function new_block new_label insadd finish_block finish_function
    blank_blk resolve label_find idalloc idmatch find_tmp same_name type_code same_type
    qbt.Seq.vec_pop
actions-links = refl
