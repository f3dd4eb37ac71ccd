-- ===== src/Nodes/Tests.antt =====
-- The theorem about the names of temporaries at one function.
use Prim.Native.String.{String}
use qbt.Prelude.{◌≡◌, ◌≢◌, [], none, false}
use qbt.Prelude.Int.{pos}
use qbt.Nodes.{Fn}
use qbt.Nodes.Names.{find_tmp, idmatch, idalloc, Named, idalloc-Named}

abbrev blank : Fn
blank = record {
  name = none;
  ntmp = 0;
  nblk = 0;
  max_callee_save = 0;
  max_call_save = 0;
  has_calls = false;
  blks = [];
  labels = [];
  tmps = [];
}

blank-Named : Named [] 0
unfolding find_tmp
blank-Named = record { below = λ a t e. absurd cc; apart = λ a b t ea eb. absurd cc }

-- `sum` has number 0.
abbrev with_sum : Fn
with_sum = (idalloc blank "sum").0

idalloc-Named_example :
    Named (idalloc with_sum "count").0.tmps (idalloc with_sum "count").0.ntmp
    × (idmatch (idalloc with_sum "count").0 "count" ≡ pos 1)
    × ((a : String) → a ≢ "count" → idmatch (idalloc with_sum "count").0 a ≡ idmatch with_sum a)
unfolding idalloc idmatch find_tmp
idalloc-Named_example = idalloc-Named with_sum "count" (idalloc-Named blank "sum" blank-Named).0
