-- ===== src/Regalloc.antt =====
-- src/regalloc.c: register allocation, block by block (`regalloc`).
pub mod Lifetimes
pub mod Scan
pub mod Rewrite
pub mod Calls
mod Tests
use qbt.Prelude.{
  ℕ, List, [], ◌∷◌, Bool, true, false, Result, ok, ◌>>=◌, ltb, ◌==◌, ◌||◌, not, length,
  if◌then◌else◌,
}
use qbt.Nodes.{Val, Blk, Fn}
use qbt.Regalloc.Lifetimes.{Collected, collect_lifetimes}
use qbt.Regalloc.Scan.{build_rmap}
use qbt.Regalloc.Rewrite.{do_rewrites}
use qbt.Regalloc.Calls.{do_call_saves}

-- The tables that outlive a block, and the fields of the function that grow.
pub record Alloc : Type 0 where
  pub hints : List Val
  pub rmap : List Val
  pub has_calls : Bool
  pub max_callee_save : ℕ
  pub max_call_save : ℕ

unfoldable pub regalloc_blk : Blk → Alloc → Result (Blk × Alloc)
regalloc_blk b a = do
  c ← collect_lifetimes b (record { hints = a.hints; lifetimes = []; rmap = a.rmap; calls = [] })
  (callee, rmap) ← build_rmap c.hints c.lifetimes c.rmap
  b1 ← do_rewrites b rmap
  (b2, call) ← do_call_saves b1 c.lifetimes rmap c.calls
  ok (
    b2,
    record {
      hints = c.hints;
      rmap = rmap;
      has_calls = a.has_calls || not (length c.calls == 0);
      max_callee_save = if ltb a.max_callee_save callee then callee else a.max_callee_save;
      max_call_save = if ltb a.max_call_save call then call else a.max_call_save;
    },
  )

unfoldable pub regalloc_blks : List Blk → Alloc → Result (List Blk × Alloc)
regalloc_blks [] a = ok ([], a)
regalloc_blks (b ∷ bs) a = do
  (c, a1) ← regalloc_blk b a
  (cs, a2) ← regalloc_blks bs a1
  ok (c ∷ cs, a2)

unfoldable pub regalloc : Fn → Result Fn
regalloc f = do
  (blks, a) ← regalloc_blks f.blks (record {
    hints = [];
    rmap = [];
    has_calls = f.has_calls;
    max_callee_save = f.max_callee_save;
    max_call_save = f.max_call_save;
  })
  ok (record f {
    blks = blks;
    has_calls = a.has_calls;
    max_callee_save = a.max_callee_save;
    max_call_save = a.max_call_save;
  })
