-- ===== src/Opt.antt =====
-- src/opt.c: the sequence of the passes. The dumps only print.
pub mod Front
mod Tests
use qbt.Prelude.{Result, ◌>>=◌}
use qbt.Nodes.{Fn}
use qbt.Correct.{correct}
use qbt.Ssa.Pass.{ssa}
use qbt.Abi.{abi0}
use qbt.Regalloc.{regalloc}

-- The count that `ssa` returns is not kept.
unfoldable pub optimize : Fn → Result Fn
optimize f = do
  (corrected, ntmp) ← correct f f.ntmp
  (renamed, count) ← ssa (record corrected { ntmp = ntmp })
  lowered ← abi0 renamed
  regalloc lowered
