-- ===== src/Ssa/Pass.antt =====
-- src/ssa.c and src/unreachable.c: the pass. A traversal of `n` blocks has at most 3 n + 1 rounds.
pub mod Traversals
pub mod Content
pub mod Solve
pub mod Collect
pub mod Remove
pub mod Form
pub mod Join
pub mod Outcome
pub mod Ends
mod Tests
use qbt.Prelude.{
  ℕ, suc, ◌+◌, ◌*◌, List, [], ◌∷◌, Bool, none, Result, ok, ◌>>=◌, ltb, length, if◌then◌else◌,
}
use qbt.Seq.{vec_at}
use qbt.Nodes.{InsnType, same_type, Blk, Fn}
use qbt.Nodes.Blocks.{blk_of}
use qbt.Ssa.{rename_blks}
use qbt.Ssa.Params.{require_params, collect_args}
use qbt.Ssa.Walk.{walk}

-- Nothing follows a block that returns.
unfoldable pub drop_ret : Blk → Blk
drop_ret b = if same_type b.btype InsnType.ret then record b { s1 = none; s2 = none } else b

abbrev pub as_is : Blk → Blk
as_is b = b

unfoldable pub build_params : List Blk → ℕ → ℕ → Result (List Blk)
build_params blks p visited =
    walk drop_ret require_params visited (3 * length blks + 1) (p ∷ []) blks

unfoldable pub collect_params : List Blk → ℕ → ℕ → Result (List Blk)
collect_params blks p visited = walk as_is collect_args visited (3 * length blks + 1) (p ∷ []) blks

unfoldable pub remove_unvisited : List Blk → ℕ → List Blk
remove_unvisited [] visited = []
remove_unvisited (b ∷ bs) visited =
    let rest = remove_unvisited bs visited in if ltb b.visited visited then rest else b ∷ rest

-- The first block is read again for its mark behind the first traversal.
unfoldable pub ssa : Fn → Result (Fn × ℕ)
ssa f = do
  b ← vec_at f.blks 0
  built ← build_params f.blks b.id b.visited
  c ← blk_of built b.id
  let kept = remove_unvisited built c.visited
  collected ← collect_params kept c.id c.visited
  (blks, i) ← rename_blks collected 0
  ok (record f { blks = blks }, i)
