-- ===== src/Nodes/Build/Actions.antt =====
-- src/parser.y: the helpers of the grammar and its rule for labels, on the function and the block
-- that the parser is at. Values and numbers that the grammar puts together are arguments.
use Prim.Native.String.{String}
use qbt.Prelude.{ℕ, List, [], ◌∷◌, Option, none, some, Result, ok, ◌>>=◌, if◌then◌else◌}
use qbt.Prelude.Int.{ℤ}
use qbt.Seq.{vec_at, vec_put}
use qbt.Nodes.{InsnType, same_type, ValType, Val, tmp, noclass, Insn, Blk, Fn}
use qbt.Nodes.Blocks.{blk_of, put_blk}
use qbt.Nodes.Names.{idalloc}
use qbt.Nodes.Build.{
  insadd, finish_block, new_block, blk_empty, return_blk, finish_function, new_function, new_label,
}

-- `p->f` and `p->b`
pub record Parser : Type 0 where
  pub f : Fn
  pub b : ℕ

-- A block in its place in the store.
abbrev pub with_blk : Parser → Blk → Parser
with_blk p c = record p { f = record p.f { blks = put_blk p.f.blks c } }

-- The links from a finished block to the new one.
abbrev pub link_jump : Blk → Option String → ℕ → Blk
link_jump c none new = record c { s1 = some new; s2 = some new }
link_jump c (some label) new = record c { s1 = some new }

abbrev pub link : Blk → Option String → ℕ → Blk
link c label new =
    if return_blk c
    then c
    else if same_type c.btype InsnType.j
    then link_jump c label new
    else record c { s1 = some new }

-- The finished block is stored, and the parser is at a new one behind it.
abbrev pub onward : Fn × ℕ → Blk → Option String → Parser
onward (f, new) c label = with_blk (record { f = f; b = new }) (link c label new)

unfoldable pub do_new_block : Parser → InsnType → Val → Val → Option String → Result Parser
do_new_block p type a0 a1 label = do
  b ← blk_of p.f.blks p.b
  c ← finish_block b type a0 a1 label
  ok (onward (new_block (with_blk p c).f) c label)

unfoldable pub do_insadd : Parser → InsnType → ValType → Val → Val → Val → ℤ → Result Parser
do_insadd p cmp t r a0 a1 v = do b ← blk_of p.f.blks p.b; ok (with_blk p (insadd b cmp t r a0 a1 v))

unfoldable pub do_idalloc : Parser → String → Parser × Val
do_idalloc p id = let (f, t) = idalloc p.f id in (record p { f = f }, tmp t)

unfoldable pub do_ins_replace : Parser → ℕ → Insn → Result Parser
do_ins_replace p i n = do
  b ← blk_of p.f.blks p.b
  insns ← vec_put b.insns i n
  ok (with_blk p (record b { insns = insns }))

unfoldable pub do_new_label : Parser → String → Parser
do_new_label p s = record p { f = new_label p.f p.b s }

-- `label : id ":"`
unfoldable pub label_rule : Parser → String → Result Parser
label_rule p id = do
  b ← blk_of p.f.blks p.b
  q ← (if blk_empty b then ok p else do_new_block p InsnType.j noclass noclass none)
  c ← blk_of q.f.blks q.b
  ok (do_new_label (with_blk q (record c { name = some id })) id)

-- The parser at the first block of a function.
abbrev pub at_first : Fn → Result Parser
at_first f = do b ← vec_at f.blks 0; ok (record { f = f; b = b.id })

-- The finished function, which goes to `p->fns`, and the parser at a new one.
unfoldable pub do_new_function : Parser → String → Result (Fn × Parser)
do_new_function p name = do
  g ← finish_function p.f (some name)
  q ← at_first new_function
  ok (g, q)

-- What the rules of the grammar do inside a function.
pub data Action : Type 0 where
  insert : InsnType → ValType → Val → Val → Val → ℤ → Action
  allocate : String → Action
  replace : ℕ → Insn → Action
  finish : InsnType → Val → Val → Option String → Action
  label : String → Action

unfoldable pub act : Parser → Action → Result Parser
act p (insert cmp t r a0 a1 v) = do_insadd p cmp t r a0 a1 v
act p (allocate id) = ok (do_idalloc p id).0
act p (replace i n) = do_ins_replace p i n
act p (finish type a0 a1 to) = do_new_block p type a0 a1 to
act p (label id) = label_rule p id

unfoldable pub act_all : Parser → List Action → Result Parser
act_all p [] = ok p
act_all p (a ∷ next) = do q ← act p a; act_all q next
