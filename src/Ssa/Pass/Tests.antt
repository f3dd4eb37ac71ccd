-- ===== src/Ssa/Pass/Tests.antt =====
-- The pass at small functions.
use mathlib.Core.Path.{subst}
use qbt.Prelude.{
  ◌||◌, ℕ, ◌⊎◌, ◌==◌, if◌then◌else◌, false, ◌-◌, ◌<◌, ◌≡◌, refl, inl, inr, List, [], ◌∷◌, Option,
  none, some, ok, fault, assert_failed, length, All, All-Has, Has, arith,
}
use qbt.Prelude.Int.{ℤ}
use qbt.Nodes.{InsnType, ValType, Val, tmp, noclass, Insn, insn_create, Blk, Fn}
use qbt.Nodes.Blocks.Laws.{ids}
use qbt.Ssa.Walk.Steps.{Edge}
use qbt.Nodes.Blocks.{blk_of}
use qbt.Ssa.{rename_blks}
use qbt.Ssa.Scope.{IsTmp}
use qbt.Ssa.Fresh.{all_defined, fresh}
use qbt.Ssa.Params.{require_params}
use qbt.Ssa.Params.Tables.{among}
use qbt.Ssa.Params.Live.{live}
use qbt.Ssa.Params.Equation.{require_params-live}
use qbt.Ssa.Walk.Visits.{Met}
use qbt.Ssa.Pass.Ends.{build_params-ends}
use qbt.Ssa.Pass.{drop_ret, build_params, ssa}
use qbt.Ssa.Pass.Form.{Plain, Acyclic, Form, Reachable}
use qbt.Ssa.Pass.Outcome.{ssa-ok, ssa-Reachable, ssa-Fits, Fits}

abbrev sum : ℕ → ℕ → Insn
sum d a = insn_create InsnType.add ValType.i27 (tmp d) (tmp a) (tmp a) (ℤ.pos 0)

abbrev load : ℕ → Insn
load d =
    insn_create InsnType.copy ValType.i27 (tmp d) (Val.imm (ℤ.pos 7) ValType.i27) noclass (ℤ.pos 0)

abbrev at_mark : ℕ → InsnType → Val → Option ℕ → Option ℕ → List Insn → Blk
at_mark i t c s1 s2 insns = record {
  name = none;
  id = i;
  btype = t;
  cmp0 = c;
  cmp1 = noclass;
  s1 = s1;
  s2 = s2;
  insns = insns;
  params = [];
  args1 = [];
  args2 = [];
  to = none;
  visited = 0;
}

-- Two ways from the first block to the last; a block that nothing jumps to.
abbrev diamond : List Blk
diamond =
    at_mark 1 InsnType.bnz (tmp 5) (some 2) (some 3) (load 5 ∷ [])
    ∷ at_mark 2 InsnType.j noclass (some 4) none (sum 6 5 ∷ [])
    ∷ at_mark 3 InsnType.j noclass (some 4) none (load 6 ∷ [])
    ∷ at_mark 7 InsnType.j noclass (some 4) none []
    ∷ at_mark 4 InsnType.ret noclass none none (sum 6 6 ∷ [])
    ∷ []

abbrev with_blks : List Blk → Fn
with_blks blks = record {
  name = none;
  ntmp = 0;
  nblk = length blks;
  max_callee_save = 0;
  max_call_save = 0;
  has_calls = false;
  blks = blks;
  labels = [];
  tmps = [];
}

abbrev depth : ℕ → ℕ
depth i = if i == 4 then 0 else 10 - i

-- Where the jumps of a block may lead.
abbrev Descends : Blk → Type 0
Descends c = (q : ℕ) → Edge (drop_ret c) q → Has q (ids diamond) × (depth q < depth c.id)

one_jump : (P : ℕ → Type 0) (k : ℕ) → P k → (q : ℕ) → ((some k ≡ some q) ⊎ (none ≡ some q)) → P q
one_jump P k h q (inl e) = let same : k ≡ q = cc in subst P same h
one_jump P k h q (inr e) = absurd cc

two_jumps :
    (P : ℕ → Type 0) (k l : ℕ) → P k → P l → (q : ℕ) → ((some k ≡ some q) ⊎ (some l ≡ some q)) → P q
two_jumps P k l h i q (inl e) = let same : k ≡ q = cc in subst P same h
two_jumps P k l h i q (inr e) = let same : l ≡ q = cc in subst P same i

no_jump : (P : ℕ → Type 0) (q : ℕ) → ((none ≡ some q) ⊎ (none ≡ some q)) → P q
no_jump P q (inl e) = absurd cc
no_jump P q (inr e) = absurd cc

abbrev Down : ℕ → ℕ → Type 0
Down i q = Has q (ids diamond) × (depth q < depth i)

to_four : (i : ℕ) → depth 4 < depth i → Down i 4
to_four i h = (inr (inr (inr (inr (inl refl)))), h)

diamond-Descends : All Descends diamond
unfolding drop_ret qbt.Nodes.same_type
diamond-Descends = (
  two_jumps (Down 1) 2 3 (inr (inl refl), omega arith) (inr (inr (inl refl)), omega arith),
  (
    one_jump (Down 2) 4 (to_four 2 (omega arith)),
    (
      one_jump (Down 3) 4 (to_four 3 (omega arith)),
      (one_jump (Down 7) 4 (to_four 7 (omega arith)), (no_jump (Down 4), tt)),
    ),
  ),
)

diamond-Plain : Plain diamond 0
diamond-Plain = record {
  apart = (
    (λ h. grind arith),
    ((λ h. grind arith), ((λ h. grind arith), ((λ h. grind arith), ((λ h. grind arith), tt)))),
  );
  unmarked =
      λ b has. All-Has (λ c. c.visited ≡ 0) diamond (refl, (refl, (refl, (refl, (refl, tt))))) has;
  no_params =
      λ b has. All-Has (λ c. c.params ≡ []) diamond (refl, (refl, (refl, (refl, (refl, tt))))) has;
  no_args = λ b has.
      All-Has (λ c. (c.args1 ≡ []) × (c.args2 ≡ [])) diamond
        ((refl, refl), ((refl, refl), ((refl, refl), ((refl, refl), ((refl, refl), tt))))) has;
  stored = λ b has q edge. (All-Has Descends diamond diamond-Descends has q edge).0;
}

diamond-Acyclic : Acyclic diamond 0 depth
diamond-Acyclic = record {
  plain = diamond-Plain;
  descending = λ b has q edge. (All-Has Descends diamond diamond-Descends has q edge).1;
}

-- The header of a loop whose body uses a value that the header does not use.
abbrev loop : List Blk
loop =
    at_mark 1 InsnType.j noclass (some 2) none (load 5 ∷ load 6 ∷ [])
    ∷ at_mark 2 InsnType.bnz (tmp 6) (some 3) (some 4) []
    ∷ at_mark 3 InsnType.j noclass (some 2) none (sum 6 5 ∷ [])
    ∷ at_mark 4 InsnType.ret noclass none none []
    ∷ []

-- The value does not come through the header, and the renaming of the header fails.
loop-assert_failed : ssa (with_blks loop) ≡ fault assert_failed
unfolding ssa qbt.Ssa.Pass.build_params qbt.Ssa.Walk.walk qbt.Ssa.Walk.round qbt.Nodes.Blocks.blk_of
    qbt.Ssa.Walk.resume qbt.Ssa.Walk.visit drop_ret qbt.Nodes.same_type qbt.Ssa.Params.other_target
    qbt.Nodes.Blocks.same_target qbt.Nodes.Blocks.put_blk qbt.Ssa.Params.require_params
    qbt.Ssa.Params.forwards qbt.Ssa.Params.params_of qbt.Ssa.Params.add_all
    qbt.Ssa.Params.scan_insns qbt.Ssa.Params.need qbt.Nodes.type_code qbt.Rules.grow
    qbt.Ssa.Params.add_val qbt.Ssa.Params.collect_args qbt.Ssa.Params.generate
    qbt.Ssa.Params.has_val qbt.Ssa.Params.present qbt.Ssa.Params.remove_val
    qbt.Ssa.Params.require_all qbt.Ssa.Params.scan_insn qbt.Ssa.Pass.collect_params
    qbt.Ssa.Pass.remove_unvisited qbt.Ssa.add_tmp_rule qbt.Ssa.rename_blks qbt.Ssa.rename_def
    qbt.Ssa.rename_insn qbt.Ssa.rename_insns qbt.Ssa.rename_params qbt.Ssa.rename_temps
    qbt.Ssa.rename_use qbt.Ssa.rewritten
loop-assert_failed = refl

-- The first block of `diamond`.
abbrev top : Blk
top = at_mark 1 InsnType.bnz (tmp 5) (some 2) (some 3) (load 5 ∷ [])

ssa-ok_example :
    (r bs : List Blk) × (n : ℕ) × (ssa (with_blks diamond)
      ≡ ok (record (with_blks diamond) { blks = bs }, n))
    × Form diamond 1 r
    × (rename_blks r 0 ≡ ok (bs, n))
    × (all_defined bs ≡ fresh 0 n)
ssa-ok_example = ssa-ok (with_blks diamond) depth top refl diamond-Acyclic

ssa-Reachable_example :
    (bs : List Blk) × (n : ℕ) × (ssa (with_blks diamond)
      ≡ ok (record (with_blks diamond) { blks = bs }, n))
    × ((q : ℕ) → Has q (ids bs) → Reachable diamond 1 q)
    × ((q : ℕ) → Reachable diamond 1 q → Has q (ids bs))
ssa-Reachable_example = ssa-Reachable (with_blks diamond) depth top refl diamond-Acyclic

ssa-Fits_example :
    (bs : List Blk) × (n : ℕ) × (ssa (with_blks diamond)
      ≡ ok (record (with_blks diamond) { blks = bs }, n))
    × ((q : ℕ) (c : Blk) → blk_of bs q ≡ ok c → Fits bs c.s1 c.args1 × Fits bs c.s2 c.args2)
ssa-Fits_example = ssa-Fits (with_blks diamond) depth top refl diamond-Acyclic

build_params-ends_example :
    (r : List Blk) × (build_params diamond 1 0 ≡ ok r)
    × ((q : ℕ) → Met 0 r q → Reachable diamond 1 q)
    × ((q : ℕ) → Reachable diamond 1 q → Met 0 r q)
    × ((q : ℕ) (b : Blk) → blk_of r q ≡ ok b → All IsTmp b.params)
build_params-ends_example = build_params-ends diamond 0 1 diamond-Plain (inl refl)

-- The successors of `top` with parameters, of which `top` defines one.
abbrev behind : List Blk
behind =
    record (at_mark 2 InsnType.ret noclass none none []) { params = tmp 5 ∷ [] }
    ∷ record (at_mark 3 InsnType.ret noclass none none []) { params = tmp 5 ∷ tmp 6 ∷ [] }
    ∷ []

require_params-live_example :
    (new : List Val) × (require_params behind top ≡ ok (record top { params = new }))
    × All IsTmp new
    × ((t : ℕ)
        → among new t ≡ live top (λ u. among (tmp 5 ∷ []) u || among (tmp 5 ∷ tmp 6 ∷ []) u) t)
unfolding qbt.Ssa.Params.params_of blk_of
require_params-live_example =
    require_params-live behind top (tmp 5 ∷ []) (tmp 5 ∷ tmp 6 ∷ []) refl refl (refl, tt)
      (refl, (refl, tt))
