-- ===== src/Ssa/Params.antt =====
-- src/ssa.c: the parameters that one block needs (the second visit in `build_params`), and the
-- arguments that it passes on (the second visit in `collect_params`).
pub mod Tables
pub mod Live
pub mod Equation
pub mod Ready
use qbt.Prelude.{
  ℕ, List, [], ◌∷◌, ◌++◌, Bool, true, false, not, ◌&&◌, ◌||◌, Option, none, some, Result, ok, ◌>>=◌,
  ◌>>◌, assert, leb, length, get_or, set, if◌then◌else◌,
}
use qbt.Nodes.{Val, noclass, is_tmp, hasclass, r_of, Insn, Blk}
use qbt.Nodes.Blocks.{same_target, blk_of}
use qbt.Rules.{grow}

unfoldable pub add_val : List Val → Val → Result (List Val)
add_val map v = do assert (is_tmp v); ok (set (grow noclass map (r_of v)) (r_of v) v)

unfoldable pub remove_val : List Val → Val → Result (List Val)
remove_val map v = do
  assert (is_tmp v)
  ok (if leb (length map) (r_of v) then map else set map (r_of v) noclass)

unfoldable pub has_val : List Val → Val → Result Bool
has_val map v = do
  assert (is_tmp v)
  ok (if leb (length map) (r_of v) then false else hasclass (get_or map (r_of v) noclass))

-- The three vectors of the second visit.
pub record Sets : Type 0 where
  pub generated : List Val
  pub forward : List Val
  pub required : List Val

-- foreach_blk_param(pi, params) add_val(&forward, p)
unfoldable pub add_all : List Val → List Val → Result (List Val)
add_all map [] = ok map
add_all map (p ∷ ps) = do m ← add_val map p; add_all m ps

-- The parameters of a successor, if there is one.
unfoldable pub params_of : List Blk → Option ℕ → Result (List Val)
params_of blks none = ok []
params_of blks (some p) = do b ← blk_of blks p; ok b.params

-- The second successor where it is not the first as well.
unfoldable pub other_target : Blk → Option ℕ
other_target b = if same_target b.s2 b.s1 then none else b.s2

unfoldable pub forwards : List Blk → Blk → Result (List Val)
forwards blks b = do
  ps ← params_of blks b.s1
  forward ← add_all [] ps
  qs ← params_of blks (other_target b)
  add_all forward qs

-- `if (v.class == TMP && !has_val(&generated, v)) add_val(&required, v)`
unfoldable pub need : Val → Sets → Result Sets
need v s =
    if is_tmp v
    then (do
      known ← has_val s.generated v
      required ← (if known then ok s.required else add_val s.required v)
      ok (record s { required = required }))
    else ok s

unfoldable pub generate : Val → Sets → Result Sets
generate v s =
    if is_tmp v
    then (do
      generated ← add_val s.generated v
      passed ← has_val s.forward v
      forward ← (if passed then remove_val s.forward v else ok s.forward)
      ok (record s { generated = generated; forward = forward }))
    else ok s

unfoldable pub scan_insn : Insn → Sets → Result Sets
scan_insn i s = do s1 ← need i.in0 s; s2 ← need i.in1 s1; generate i.out s2

unfoldable pub scan_insns : List Insn → Sets → Result Sets
scan_insns [] s = ok s
scan_insns (i ∷ is) s = do s1 ← scan_insn i s; scan_insns is s1

-- The values to forward are added to the required ones.
unfoldable pub require_all : List Val → List Val → Result (List Val)
require_all [] required = ok required
require_all (p ∷ ps) required = do
  r ←
      (if hasclass p
        then (do known ← has_val required p; if known then ok required else add_val required p)
        else ok required)
  require_all ps r

-- The slots of the table that are not empty.
unfoldable pub present : List Val → List Val
present [] = []
present (p ∷ ps) = if hasclass p then p ∷ present ps else present ps

unfoldable pub require_params : List Blk → Blk → Result Blk
require_params blks b = do
  forward ← forwards blks b
  s ← scan_insns b.insns (record { generated = []; forward = forward; required = [] })
  s1 ← need b.cmp0 s
  s2 ← need b.cmp1 s1
  required ← require_all s2.forward s2.required
  ok (record b { params = b.params ++ present required })

-- In `collect_params` both successors give arguments, also where they are the same block.
unfoldable pub collect_args : List Blk → Blk → Result Blk
collect_args blks b = do
  ps ← params_of blks b.s1
  qs ← params_of blks b.s2
  ok (record b { args1 = b.args1 ++ ps; args2 = b.args2 ++ qs })
