-- ===== src/Regalloc/Lifetimes.antt =====
-- src/regalloc.c: hints and lifetimes of the temporaries of one block (`collect_lifetimes`).
-- Positions count from 1, the instructions in order; a block's parameters are defined at 0, and its
-- comparison and arguments are used behind the last instruction.
use qbt.Prelude.{
  ℕ, suc, ◌==◌, List, [], ◌∷◌, not, Result, ok, ◌>>=◌, ◌>>◌, assert, leb, ltb, length, get_or, set,
  if◌then◌else◌,
}
use qbt.Seq.{vec_at, vec_put, vec_append}
use qbt.Nodes.{InsnType, same_type, Val, reg, tmp, noclass, is_tmp, r_of, Insn, Blk}
use qbt.Rules.{grow, add_rewrite_rule}

-- `add_hint` is `add_rewrite_rule` on the table of hints.
unfoldable pub get_hint : List Val → Val → Val
get_hint hints from =
    if leb (length hints) (r_of from) then noclass else get_or hints (r_of from) noclass

pub record Lifetime : Type 0 where
  pub v : Val
  pub start : ℕ
  pub end : ℕ
  pub used : ℕ

abbrev pub no_lifetime : Lifetime
no_lifetime = record { v = noclass; start = 0; end = 0; used = 0 }

unfoldable pub add_def : List Lifetime → Val → ℕ → List Lifetime
add_def lifetimes v i =
    set (grow no_lifetime lifetimes (r_of v)) (r_of v)
      (record { v = v; start = i; end = i; used = 1 })

unfoldable pub add_use : List Lifetime → Val → ℕ → Result (List Lifetime)
add_use lifetimes v i = do
  assert (ltb (r_of v) (length lifetimes))
  l ← vec_at lifetimes (r_of v)
  assert (not (l.used == 0))
  vec_put lifetimes (r_of v) (record l { used = suc l.used; end = i })

-- What `collect_lifetimes` fills in.
pub record Collected : Type 0 where
  pub hints : List Val
  pub lifetimes : List Lifetime
  pub rmap : List Val
  pub calls : List ℕ

-- `if (v.class == TMP) add_use(lifetimes, v, pos)`
unfoldable pub use_tmp : Val → ℕ → List Lifetime → Result (List Lifetime)
use_tmp v at ls = if is_tmp v then add_use ls v at else ok ls

unfoldable pub def_tmp : Val → ℕ → List Lifetime → List Lifetime
def_tmp v at ls = if is_tmp v then add_def ls v at else ls

-- The early hints that a move gives; a move from a register also fixes the rule.
unfoldable pub hint_classes : Val → Val → Collected → Result Collected
hint_classes (tmp t) (reg r) c = do
  hs ← add_rewrite_rule c.hints (tmp t) (reg r)
  rs ← add_rewrite_rule c.rmap (tmp t) (reg r)
  ok (record c { hints = hs; rmap = rs })
hint_classes (reg r) (tmp t) c = do
  hs ← add_rewrite_rule c.hints (tmp t) (reg r)
  ok (record c { hints = hs })
hint_classes _ _ c = ok c

unfoldable pub hint_move : Insn → Collected → Result Collected
hint_move i c = if same_type i.type InsnType.move then hint_classes i.out i.in0 c else ok c

unfoldable pub note_call : Insn → ℕ → Collected → Collected
note_call i at c =
    if same_type i.type InsnType.call then record c { calls = vec_append c.calls at } else c

-- One round of the loop over the instructions, at position `at`.
unfoldable pub collect_insn : Insn → ℕ → Collected → Result Collected
collect_insn i at c = do
  l1 ← use_tmp i.in0 at c.lifetimes
  l2 ← use_tmp i.in1 at l1
  c1 ← hint_move i (record c { lifetimes = def_tmp i.out at l2 })
  ok (note_call i at c1)

unfoldable pub collect_insns : List Insn → ℕ → Collected → Result Collected
collect_insns [] at c = ok c
collect_insns (i ∷ is) at c = do c1 ← collect_insn i at c; collect_insns is (suc at) c1

unfoldable pub add_params : List Val → List Lifetime → List Lifetime
add_params [] ls = ls
add_params (v ∷ vs) ls = add_params vs (add_def ls v 0)

unfoldable pub use_args : List Val → ℕ → List Lifetime → Result (List Lifetime)
use_args [] at ls = ok ls
use_args (v ∷ vs) at ls = do l1 ← add_use ls v at; use_args vs at l1

unfoldable pub collect_lifetimes : Blk → Collected → Result Collected
collect_lifetimes b c = do
  c1 ← collect_insns b.insns 1 (record c { lifetimes = add_params b.params c.lifetimes })
  let last = suc (length b.insns)
  l1 ← use_tmp b.cmp0 last c1.lifetimes
  l2 ← use_tmp b.cmp1 last l1
  l3 ← use_args b.args1 last l2
  l4 ← use_args b.args2 last l3
  ok (record c1 { lifetimes = l4 })
