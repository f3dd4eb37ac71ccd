-- ===== src/Ssa/Single.antt =====
-- src/ssa.c: every temporary of a renamed function has one definition.
use qbt.Prelude.{ℕ, suc, ◌+◌, ◌≡◌, refl, ap, List, [], ◌∷◌, ok, arith, length, length-append, All}
use qbt.Nodes.{Blk}
use qbt.Ssa.{rename_temps, rename_blks, Renaming}
use qbt.Ssa.Scope.{rename_use-ok, rename_args-ok}
use qbt.Ssa.Fresh.{
  outs, defined, all_defined, fresh, fresh-join, enter_all, enter_outs, Scoped, rename_params-ok,
  rename_insns-ok,
}

rename_temps-fresh :
    (b : Blk) (i : ℕ)
    → Scoped b
    → (c : Blk) × (rename_temps b i ≡ ok (c, i + length (defined b)))
      × (defined c ≡ fresh i (length (defined b)))
unfolding rename_temps
rename_temps-fresh b i h =
    let start : Renaming = record { rmap = []; next = i } in
    let ds = enter_all b.params [] in
    let (params, s1, ep, (ruled1, next1), fresh1) =
      rename_params-ok [] b.params start (λ t has. absurd has) h.params in
    let (insns, s2, ei, (ruled2, next2), fresh2) = rename_insns-ok ds b.insns s1 ruled1 h.insns in
    let end = enter_outs b.insns ds in
    let (cmp0, e0) = rename_use-ok end s2.rmap b.cmp0 ruled2 h.cmp0 in
    let (cmp1, e1) = rename_use-ok end s2.rmap b.cmp1 ruled2 h.cmp1 in
    let (args1, ea) = rename_args-ok end s2.rmap b.args1 ruled2 h.args1 h.args1_known in
    let (args2, eb) = rename_args-ok end s2.rmap b.args2 ruled2 h.args2 h.args2_known in
    let last : s2.next ≡ i + length (defined b) =
      omega (arith, length-append b.params (outs b.insns)) in
    (
      record b {
        params = params;
        insns = insns;
        cmp0 = cmp0;
        cmp1 = cmp1;
        args1 = args1;
        args2 = args2;
      },
      rw (ep, ei, e0, e1, ea, eb, last) refl,
      fresh-join i s1.next b.params (outs b.insns) fresh1 fresh2 next1,
    )

-- If every temporary that a block uses is a parameter of the block or defined in front of the use,
-- the renaming of the blocks succeeds, and they define, in order, the temporaries from the given
-- one on, each once; the result is the number behind the last.
pub rename_blks-fresh :
    (bs : List Blk) (i : ℕ)
    → All Scoped bs
    → (cs : List Blk) × (rename_blks bs i ≡ ok (cs, i + length (all_defined bs)))
      × (all_defined cs ≡ fresh i (length (all_defined bs)))
      × (length cs ≡ length bs)
unfolding rename_blks
rename_blks-fresh [] i h = ([], ap (λ n. ok ([], n)) (omega arith), refl, refl)
rename_blks-fresh (b ∷ bs) i (hb, h) =
    let j = i + length (defined b) in
    let (c, ec, fc) = rename_temps-fresh b i hb in
    let (cs, ecs, fcs, count) = rename_blks-fresh bs j h in
    let last : j + length (all_defined bs) ≡ i + length (all_defined (b ∷ bs)) =
      omega (arith, length-append (defined b) (all_defined bs)) in
    (
      c ∷ cs,
      rw (ec, ecs, last) refl,
      fresh-join i j (defined b) (all_defined bs) fc fcs refl,
      ap suc count,
    )
