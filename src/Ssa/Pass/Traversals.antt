-- ===== src/Ssa/Pass/Traversals.antt =====
-- The two traversals of src/ssa.c meet what the theorems on traversals ask.
use mathlib.Core.Path.{subst}
use qbt.Prelude.{
  ℕ, ◌≡◌, refl, ap, sym, ◌∙◌, inl, inr, List, [], ◌++◌, false, Bool-cases, none, some, Yields,
  Yields-bind, Yields-ok, arith,
}
use qbt.Nodes.{InsnType, same_type, Val, Blk}
use qbt.Ssa.Params.{
  require_params, collect_args, forwards, scan_insns, need, require_all, present, params_of,
}
use qbt.Ssa.Walk.Steps.{Edge, SameShape}
use qbt.Ssa.Walk.Visits.{Traversal}
use qbt.Ssa.Pass.{drop_ret, as_is}

pub drop_ret-id : (b : Blk) → (drop_ret b).id ≡ b.id
unfolding drop_ret
drop_ret-id b = ground arith

pub drop_ret-visited : (b : Blk) → (drop_ret b).visited ≡ b.visited
unfolding drop_ret
drop_ret-visited b = ground arith

-- A jump of the prepared block is one of the block.
pub drop_ret-Edge : (b : Blk) (q : ℕ) → Edge (drop_ret b) q → Edge b q
unfolding drop_ret
drop_ret-Edge b q edge = elim (Bool-cases (same_type b.btype InsnType.ret)) [
  | inl e ↦ elim (rw e at edge) [ inl h ↦ absurd (no_some h) | inr h ↦ absurd (no_some h) ]
  | inr e ↦ rw e at edge
]
  where
    no_some : none ≡ some q → ⊥
    no_some h = cc

same-Edge-back : (b c : Blk) → SameShape c b → (q : ℕ) → Edge b q → Edge c q
same-Edge-back b c h q (inl e) = inl (h.s1 ∙ e)
same-Edge-back b c h q (inr e) = inr (h.s2 ∙ e)

drop_ret-btype : (b : Blk) → (drop_ret b).btype ≡ b.btype
unfolding drop_ret
drop_ret-btype b = ground arith

drop_ret-keeps : (b : Blk) → same_type b.btype InsnType.ret ≡ false → drop_ret b ≡ b
unfolding drop_ret
drop_ret-keeps b e = rw e refl

-- A prepared block keeps its jumps when it is prepared again.
drop_ret-again :
    (b c : Blk) → SameShape c (drop_ret b) → (q : ℕ) → Edge (drop_ret b) q → Edge (drop_ret c) q
unfolding drop_ret
drop_ret-again b c h q edge = elim (Bool-cases (same_type b.btype InsnType.ret)) [
  | inl e ↦ elim (rw e at edge) [ inl k ↦ absurd (no_some k) | inr k ↦ absurd (no_some k) ]
  | inr e ↦
      let same : c.btype ≡ b.btype = h.btype ∙ drop_ret-btype b in
      subst (λ x. Edge x q) (sym (drop_ret-keeps c (ap (λ x. same_type x InsnType.ret) same ∙ e)))
        (same-Edge-back (drop_ret b) c h q edge)
]
  where
    no_some : none ≡ some q → ⊥
    no_some k = cc

same-Edge : (b c : Blk) → SameShape c b → (q : ℕ) → Edge c q → Edge b q
same-Edge b c h q (inl e) = inl (sym h.s1 ∙ e)
same-Edge b c h q (inr e) = inr (sym h.s2 ∙ e)

params-shape : (b : Blk) (ps : List Val) → SameShape (record b { params = ps }) b
params-shape b ps = record { id = refl; btype = refl; s1 = refl; s2 = refl }

args-shape : (b : Blk) (ps qs : List Val) → SameShape (record b { args1 = ps; args2 = qs }) b
args-shape b ps qs = record { id = refl; btype = refl; s1 = refl; s2 = refl }

abbrev Alike : Blk → Blk → Type 0
Alike b c = SameShape c b × (c.visited ≡ b.visited)

require_params-shape : (s : List Blk) (b : Blk) → Yields (Alike b) (require_params s b)
unfolding require_params
require_params-shape s b = Yields-bind (Alike b) (forwards s b) _ (λ forward.
    Yields-bind (Alike b)
      (scan_insns b.insns (record { generated = []; forward = forward; required = [] })) _
      (λ s0. Yields-bind (Alike b) (need b.cmp0 s0) _ (λ s1.
        Yields-bind (Alike b) (need b.cmp1 s1) _ (λ s2.
          Yields-bind (Alike b) (require_all s2.forward s2.required) _
            (λ required. (params-shape b (b.params ++ present required), refl))))))

collect_args-shape : (s : List Blk) (b : Blk) → Yields (Alike b) (collect_args s b)
unfolding collect_args
collect_args-shape s b = Yields-bind (Alike b) (params_of s b.s1) _ (λ ps.
    Yields-bind (Alike b) (params_of s b.s2) _
      (λ qs. (args-shape b (b.args1 ++ ps) (b.args2 ++ qs), refl)))

pub build_Traversal : Traversal drop_ret require_params
build_Traversal = record {
  prepare_id = drop_ret-id;
  prepare_visited = drop_ret-visited;
  stable = λ b c h q edge. same-Edge (drop_ret b) c h q (drop_ret-Edge c q edge);
  kept = drop_ret-again;
  work_shape = λ s b c e. (Yields-ok (Alike b) (require_params s b) (require_params-shape s b) e).0;
  work_visited =
      λ s b c e. (Yields-ok (Alike b) (require_params s b) (require_params-shape s b) e).1;
}

pub collect_Traversal : Traversal as_is collect_args
collect_Traversal = record {
  prepare_id = λ b. refl;
  prepare_visited = λ b. refl;
  stable = λ b c h q edge. same-Edge b c h q edge;
  kept = λ b c h q edge. same-Edge-back b c h q edge;
  work_shape = λ s b c e. (Yields-ok (Alike b) (collect_args s b) (collect_args-shape s b) e).0;
  work_visited = λ s b c e. (Yields-ok (Alike b) (collect_args s b) (collect_args-shape s b) e).1;
}
