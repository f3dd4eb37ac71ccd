-- ===== src/Correct/Tests.antt =====
-- The corrections at small blocks.
use qbt.Prelude.{ℕ, ◌≡◌, refl, List, [], ◌∷◌, false, none, ok, All}
use qbt.Prelude.Int.{ℤ}
use qbt.Nodes.{InsnType, ValType, Str, Val, tmp, noclass, is_imm, Insn, insn_create, Blk, Fn}
use qbt.Correct.{kind_of, correct_insns, correct_blk, correct}
use qbt.Correct.Expand.{NoAddr}
use qbt.Correct.Loop.{correct_insns-expand_all}
use qbt.Correct.Blocks.{Alikes, Corrected, correct-ok, correct_blk-cmp1_lost}

abbrev seven : Val
seven = Val.imm (ℤ.pos 7) ValType.i27

abbrev symbol : Val
symbol = Val.ref (record { address = 4096; text = "counter" })

abbrev binary : InsnType → Val → Val → Insn
binary o a b = insn_create o ValType.i27 (tmp 0) a b (ℤ.pos 0)

-- Two spills, one, and a swap.
abbrev code : List Insn
code =
    binary InsnType.sub seven symbol
    ∷ binary InsnType.store (tmp 0) seven
    ∷ binary InsnType.mul seven (tmp 0)
    ∷ []

code-NoAddr : All NoAddr code
unfolding kind_of
code-NoAddr = (tt, (tt, (tt, tt)))

correct_insns-expand_all_example :
    correct_insns 48 0 (record { insns = code; addrs = []; ri = 1 })
    ≡ ok (record {
      insns =
          insn_create InsnType.addr ValType.i27 (tmp 1) symbol noclass (ℤ.pos 0)
          ∷ insn_create InsnType.copy ValType.i27 (tmp 2) seven noclass (ℤ.pos 0)
          ∷ binary InsnType.sub (tmp 2) (tmp 1)
          ∷ insn_create InsnType.copy ValType.i27 (tmp 3) seven noclass (ℤ.pos 0)
          ∷ binary InsnType.store (tmp 0) (tmp 3)
          ∷ binary InsnType.mul (tmp 0) seven
          ∷ [];
      addrs = [];
      ri = 4;
    })
unfolding kind_of qbt.Nodes.same_type qbt.Nodes.type_code
correct_insns-expand_all_example = correct_insns-expand_all code 1 code-NoAddr

abbrev counting : Blk
counting = record {
  name = none;
  id = 1;
  btype = InsnType.blt;
  cmp0 = tmp 0;
  cmp1 = seven;
  s1 = none;
  s2 = none;
  insns = code;
  params = [];
  args1 = [];
  args2 = [];
  to = none;
  visited = 0;
}

abbrev counter : Fn
counter = record {
  name = none;
  ntmp = 1;
  nblk = 1;
  max_callee_save = 0;
  max_call_save = 0;
  has_calls = false;
  blks = counting ∷ [];
  labels = [];
  tmps = [];
}

correct-ok_example :
    (bs : List Blk) × (last : ℕ) × (correct counter 1 ≡ ok (record counter { blks = bs }, last))
    × All Corrected bs
    × Alikes (counting ∷ []) bs
correct-ok_example = correct-ok counter 1 (record { insns = code-NoAddr; cmp0 = refl }, tt)

correct_blk-cmp1_lost_example :
    (c : Blk) × (last : ℕ) × (correct_blk
        (record counting { cmp1 = Val.imm (ℤ.pos 7) ValType.i27 })
        []
        1
      ≡ ok (c, [], last))
    × (correct_blk (record counting { cmp1 = Val.imm (ℤ.pos 9) ValType.i27 }) [] 1
        ≡ ok (c, [], last))
correct_blk-cmp1_lost_example =
    correct_blk-cmp1_lost counting 1 (ℤ.pos 7) (ℤ.pos 9) ValType.i27 ValType.i27
      (record { insns = code-NoAddr; cmp0 = refl })
