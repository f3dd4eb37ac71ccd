-- ===== src/Regalloc/Calls.antt =====
-- src/regalloc.c: registers that live over a call are saved before it and restored behind it
-- (`do_call_saves`).
pub mod Place
pub mod Group
pub mod OneCall
mod Tests
use qbt.Prelude.{
  ℕ, zero, suc, ◌+◌, ◌-◌, ◌&&◌, ◌||◌, List, [], ◌∷◌, Bool, Result, ok, ◌>>=◌, ◌>>◌, assert, leb,
  ltb, drop, if◌then◌else◌,
}
use qbt.Prelude.Int.{ℤ}
use qbt.Seq.{vec_at, vec_insert}
use qbt.Nodes.{
  InsnType, same_type, ValType, Val, imm, noclass, is_reg, r_of, Insn, insn_create, Blk,
}
use qbt.Regalloc.Lifetimes.{Lifetime}
use qbt.Regalloc.Scan.{build_active_between, build_reserved}

-- RS0 to RS23 are x18 to x24 and x63 to x79.
unfoldable pub callee_save : Val → Result Bool
callee_save r = do
  assert (is_reg r)
  ok ((leb 18 (r_of r) && leb (r_of r) 24) || (leb 63 (r_of r) && leb (r_of r) 79))

-- Backwards over the instructions that set the call up, from the one in front of position `p`:
-- where the saved register goes. (`p` is the C code's `pos + 1`, so that `pos < 0` is `p == 0`.)
unfoldable pub seek_before : List Insn → ℕ → Result ℕ
seek_before insns zero = ok 0
seek_before insns (suc p) = do
  let further = seek_before insns p
  setup ← vec_at insns p
  if setup.flags.call_setup then further else ok (suc p)

unfoldable pub insn_insert_before_call : List Insn → Insn → ℕ → Result (List Insn)
insn_insert_before_call insns save at = do
  i ← vec_at insns at
  assert (same_type i.type InsnType.call)
  p ← seek_before insns (suc at)
  vec_insert insns save p

-- Forwards over the instructions that take the call down, to the end at most.
unfoldable pub seek_after : List Insn → ℕ → ℕ
seek_after [] p = p
seek_after (i ∷ is) p =
    let further = seek_after is (suc p) in if i.flags.call_teardown then further else p

unfoldable pub insn_insert_after_call : List Insn → Insn → ℕ → Result (List Insn)
insn_insert_after_call insns restore at = do
  i ← vec_at insns at
  assert (same_type i.type InsnType.call)
  vec_insert insns restore (seek_after (drop at insns) at)

abbrev pub save_insn : Val → ℕ → Insn
save_insn r counter =
    insn_create InsnType.save ValType.notype noclass r (imm (ℤ.pos counter) ValType.i27) (ℤ.pos 0)

abbrev pub restore_insn : Val → ℕ → Insn
restore_insn r counter =
    insn_create InsnType.restore ValType.notype noclass r (imm (ℤ.pos counter) ValType.i27)
      (ℤ.pos 0)

-- The instructions, and the counters of the two loops over the reserved registers.
pub record Saving : Type 0 where
  pub insns : List Insn
  pub offset : ℕ
  pub counter : ℕ

unfoldable pub save_one : Val → ℕ → Saving → Result Saving
save_one r call_pos s = do
  insns ← insn_insert_before_call s.insns (save_insn r s.counter) (call_pos + s.offset - 1)
  ok (record { insns = insns; offset = suc s.offset; counter = suc s.counter })

unfoldable pub save_all : List Val → ℕ → Saving → Result Saving
save_all [] call_pos s = ok s
save_all (r ∷ rs) call_pos s = do
  kept ← callee_save r
  t ← (if kept then ok s else save_one r call_pos s)
  save_all rs call_pos t

-- Here `call_pos` already counts the saves.
unfoldable pub restore_one : Val → ℕ → Saving → Result Saving
restore_one r call_pos s = do
  insns ← insn_insert_after_call s.insns (restore_insn r s.counter) (call_pos - 1)
  ok (record { insns = insns; offset = suc s.offset; counter = suc s.counter })

unfoldable pub restore_all : List Val → ℕ → Saving → Result Saving
restore_all [] call_pos s = ok s
restore_all (r ∷ rs) call_pos s = do
  kept ← callee_save r
  t ← (if kept then ok s else restore_one r call_pos s)
  restore_all rs call_pos t

-- One round of the loop over the calls.
unfoldable pub save_call : List Lifetime → List Val → ℕ → Saving → Result Saving
save_call lifetimes rmap call_pos s = do
  reserved ← build_reserved (build_active_between [] lifetimes call_pos call_pos) rmap
  saved ← save_all reserved call_pos (record s { counter = 0 })
  restore_all reserved (call_pos + saved.offset) (record saved { counter = 0 })

unfoldable pub save_calls : List Lifetime → List Val → List ℕ → Saving → ℕ → Result (List Insn × ℕ)
save_calls lifetimes rmap [] s max_counter = ok (s.insns, max_counter)
save_calls lifetimes rmap (c ∷ cs) s max_counter = do
  t ← save_call lifetimes rmap c s
  save_calls lifetimes rmap cs t (if ltb max_counter t.counter then t.counter else max_counter)

unfoldable pub do_call_saves : Blk → List Lifetime → List Val → List ℕ → Result (Blk × ℕ)
do_call_saves b lifetimes rmap calls = do
  (insns, max_counter) ←
      save_calls lifetimes rmap calls (record { insns = b.insns; offset = 0; counter = 0 }) 0
  ok (record b { insns = insns }, max_counter)
