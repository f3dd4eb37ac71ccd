-- ===== src/Nodes/Build/Invariant.antt =====
-- The functions that the parser builds (src/parser.y): blocks with identifiers of their own, none of
-- them marked and all without parameters and arguments.
use Prim.Native.String.{String}
use qbt.Prelude.{◌≡◌, Bool, true, ◌&&◌, Result, ok, fault, vec_bounds, leb, Has}
use qbt.Nodes.{InsnType, type_code, ValType, Fn}
use qbt.Nodes.Blocks.Laws.{ids}
use qbt.Nodes.Build.{resolve, new_function}
use qbt.Nodes.Build.Sound.{Sound}
use qbt.Nodes.Build.Actions.{Parser, Action, finish}

-- The parser is at a block of a sound function.
pub record Settled (p : Parser) : Type 0 where
  pub sound : Sound p.f.blks p.f.nblk
  pub here : Has p.b (ids p.f.blks)

-- A kind that can end a block.
abbrev pub ends_block : InsnType → Bool
ends_block t =
    leb (type_code InsnType.beq) (type_code t) && leb (type_code t) (type_code InsnType.ret)

abbrev pub Admissible : Action → Type 0
Admissible (finish t a0 a1 to) = ends_block t ≡ true
Admissible _ = Unit

-- A parser that is settled, or a stop where the instruction to be replaced is not there.
abbrev pub Outcome : Result Parser → Type 0
Outcome (ok p) = Settled p
Outcome (fault e) = e ≡ vec_bounds

-- The parser at the first block of a new function.
abbrev pub start : Parser
start = record { f = new_function; b = 1 }

-- A finished function is sound, and the parser starts anew.
abbrev pub Finished : Fn × Parser → Type 0
Finished (g, q) = Sound g.blks g.nblk × (q ≡ start)
