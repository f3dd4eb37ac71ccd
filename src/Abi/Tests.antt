-- ===== src/Abi/Tests.antt =====
-- The theorems about abi.c at a small function.
use qbt.Prelude.{ℕ, ◌≡◌, refl, ◌↔◌, [], ◌∷◌, none, false, true, ok, fault, array_bounds, arith, All}
use qbt.Prelude.Int.{pos}
use qbt.Nodes.{
  InsnType, same_type, ValType, Val, reg, tmp, imm, noclass, Insn, insn_create, set_insn_flags,
  setup_flag, Blk, Fn,
}
use qbt.Abi.Regs.{ar_map}
use qbt.Abi.{lower, lower_as, rewrite_arg, rewrite_param, pass_value, abi0, nth_ar, stated_index}
use qbt.Abi.Passed.{IsPseudo, index_of, Lowerable}
use qbt.Abi.Range.{is_pseudo, lower-index_24, lower-ok_iff}
use qbt.Abi.Lowered.{BlkLowered, abi0-ok, Pairs, lower-Pairs}

abbrev index : ℕ → Val
index k = imm (pos k) ValType.i27

-- i27 t0 = parameter k; argument t0 as number k
abbrev param_insn : ℕ → Insn
param_insn k = insn_create InsnType.param ValType.i27 (tmp 0) noclass (index k) (pos 0)

abbrev arg_insn : ℕ → Insn
arg_insn k = insn_create InsnType.arg ValType.notype noclass (tmp 0) (index k) (pos 0)

abbrev add_insn : Insn
add_insn = insn_create InsnType.add ValType.i27 (tmp 1) (tmp 0) (tmp 0) (pos 0)

abbrev one_block : Blk
one_block = record {
  name = none;
  id = 1;
  btype = InsnType.ret;
  cmp0 = noclass;
  cmp1 = noclass;
  s1 = none;
  s2 = none;
  insns = param_insn 0 ∷ add_insn ∷ arg_insn 23 ∷ [];
  params = [];
  args1 = [];
  args2 = [];
  to = none;
  visited = 0;
}

abbrev one_fn : Fn
one_fn = record {
  name = none;
  ntmp = 2;
  nblk = 1;
  max_callee_save = 0;
  max_call_save = 0;
  has_calls = false;
  blks = one_block ∷ [];
  labels = [];
  tmps = [];
}

-- parameter 0 comes from x20, and argument 23 goes to its register
abbrev one_lowered : Blk
one_lowered = record one_block {
  insns =
      insn_create InsnType.move ValType.i27 (tmp 0) (reg 4) noclass (pos 0)
      ∷ add_insn
      ∷ set_insn_flags (insn_create InsnType.move ValType.i27 (reg 43) (tmp 0) noclass (pos 0))
          setup_flag
      ∷ [];
}

abi0-ok_example :
    (abi0 one_fn ≡ ok (record one_fn { blks = one_lowered ∷ [] }))
    × All BlkLowered (one_lowered ∷ [])
abi0-ok_example = abi0-ok one_fn ((omega arith, (tt, ((tt, omega arith), tt))), tt)

lower-ok_iff_example :
    ((m : Insn) × (lower (arg_insn 7) ≡ ok m) × (is_pseudo m.type ≡ false)) ↔ Lowerable (arg_insn 7)
lower-ok_iff_example = lower-ok_iff (arg_insn 7)

lower-index_24_example : lower (arg_insn 24) ≡ fault array_bounds
lower-index_24_example = lower-index_24 (arg_insn 24) ValType.i27 IsPseudo.arg refl

-- argument 7 is sent and received in x27
abbrev sent : Insn
sent = record (insn_create InsnType.move ValType.i27 (reg 27) (tmp 0) noclass (pos 0)) {
  flags = record { call_teardown = false; call_setup = true };
}

abbrev received : Insn
received = insn_create InsnType.move ValType.i27 (tmp 0) (reg 27) noclass (pos 0)

lower-sent : lower (arg_insn 7) ≡ ok sent
unfolding lower lower_as rewrite_arg stated_index nth_ar ar_map pass_value same_type
lower-sent = refl

lower-received : lower (param_insn 7) ≡ ok received
unfolding lower lower_as rewrite_param stated_index nth_ar ar_map same_type
lower-received = refl

lower-Pairs_example : (sent.out ≡ received.in0) ↔ (index_of (index 7) ≡ index_of (index 7))
lower-Pairs_example =
    lower-Pairs (arg_insn 7) (param_insn 7) {m = sent} {q = received} Pairs.arguments lower-sent
      lower-received
