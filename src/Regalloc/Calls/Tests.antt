-- ===== src/Regalloc/Calls/Tests.antt =====
-- The theorems about the saves around a call at one small block.
use qbt.Prelude.{◌≡◌, refl, List, [], ◌∷◌, none, ok}
use qbt.Prelude.Int.{ℤ}
use qbt.Nodes.{
  InsnType, ValType, Val, tmp, reg, noclass, Insn, insn_create, set_insn_flags, setup_flag,
  teardown_flag, both_flags, Blk, same_type,
}
use qbt.Regalloc.Lifetimes.{Lifetime}
use qbt.Regalloc.Scan.{build_active_between, build_reserved, scan_prev, scan_from}
use qbt.Rules.{has_rewrite_rule, rewrite_tmp}
use qbt.Regalloc.Calls.{save_insn, restore_insn, do_call_saves}
use qbt.Regalloc.Calls.Place.{ends}
use qbt.Regalloc.Calls.Group.{saves, restores}
use qbt.Regalloc.Calls.OneCall.{do_call_saves-one_call}

abbrev sum : Insn
sum = insn_create InsnType.add ValType.i27 (reg 4) (reg 4) (reg 4) (ℤ.pos 0)

abbrev set_up : Insn
set_up =
    set_insn_flags (insn_create InsnType.move ValType.i27 (reg 5) (reg 4) noclass (ℤ.pos 0))
      setup_flag

abbrev the_call : Insn
the_call =
    set_insn_flags (insn_create InsnType.call ValType.notype noclass (reg 6) noclass (ℤ.pos 0))
      both_flags

abbrev take_down : Insn
take_down =
    set_insn_flags (insn_create InsnType.move ValType.i27 (reg 6) (reg 5) noclass (ℤ.pos 0))
      teardown_flag

abbrev block : Blk
block = record {
  name = none;
  id = 0;
  btype = InsnType.ret;
  cmp0 = noclass;
  cmp1 = noclass;
  s1 = none;
  s2 = none;
  insns = sum ∷ set_up ∷ the_call ∷ take_down ∷ sum ∷ [];
  params = [];
  args1 = [];
  args2 = [];
  to = none;
  visited = 0;
}

-- x4 and x20 are live over the call; the callee restores x20.
abbrev live_over : List Lifetime
live_over =
    record { v = tmp 0; start = 1; end = 6; used = 2 }
    ∷ record { v = tmp 1; start = 1; end = 6; used = 2 }
    ∷ []

abbrev rules : List Val
rules = reg 4 ∷ reg 20 ∷ []

do_call_saves-one_call_example :
    do_call_saves block live_over rules (3 ∷ [])
    ≡ ok (
      record block {
        insns =
            sum
            ∷ save_insn (reg 4) 0
            ∷ set_up
            ∷ the_call
            ∷ take_down
            ∷ restore_insn (reg 4) 0
            ∷ sum
            ∷ [];
      },
      1,
    )
unfolding saves restores build_active_between build_reserved same_type scan_prev scan_from
    has_rewrite_rule rewrite_tmp
do_call_saves-one_call_example =
    do_call_saves-one_call block live_over rules (reg 4 ∷ reg 20 ∷ []) (sum ∷ []) (set_up ∷ [])
      the_call (take_down ∷ []) (sum ∷ []) refl (ends [] sum refl) (refl, tt) refl refl refl
      (refl, tt) refl (refl, (refl, tt)) refl
