-- ===== src/Opt/Front.antt =====
-- The first two passes of `optimize`: what `correct` leaves is what `ssa` asks for.
use mathlib.Core.Path.{subst}
use qbt.Prelude.{
  ℕ, ◌<◌, ◌≡◌, refl, ap, sym, ◌∙◌, inl, inr, List, [], ◌∷◌, false, Bool-cases, Option, none, some,
  ◌⊎◌, ok, ok-injective, ◌>>=◌, All, Has,
}
use qbt.Seq.{vec_at}
use qbt.Nodes.{InsnType, same_type, Blk, Fn}
use qbt.Nodes.Blocks.Laws.{ids, Apart}
use qbt.Correct.{correct}
use qbt.Correct.Blocks.{Addressless, Alike, Alikes, correct-ok, Corrected}
use qbt.Ssa.{rename_blks}
use qbt.Ssa.Fresh.{all_defined, fresh}
use qbt.Ssa.Walk.Steps.{Edge}
use qbt.Ssa.Pass.{drop_ret, ssa}
use qbt.Ssa.Pass.Form.{Acyclic, Form}
use qbt.Ssa.Pass.Outcome.{ssa-ok}
use qbt.Abi.{abi0}
use qbt.Regalloc.{regalloc}
use qbt.Opt.{optimize}

Alikes-ids : (bs cs : List Blk) → Alikes bs cs → ids cs ≡ ids bs
Alikes-ids [] [] h = refl
Alikes-ids (b ∷ bs) (c ∷ cs) (hb, h) =
    ap (λ t. t.id ∷ ids cs) hb ∙ ap (λ l. b.id ∷ l) (Alikes-ids bs cs h)
Alikes-ids [] (c ∷ cs) h = absurd h
Alikes-ids (b ∷ bs) [] h = absurd h

Alikes-Has :
    (bs cs : List Blk) (c : Blk) → Alikes bs cs → Has c cs → (b : Blk) × Has b bs × Alike b c
Alikes-Has (b ∷ bs) (d ∷ cs) c (hb, h) (inl e) = (b, inl refl, subst (Alike b) (sym e) hb)
Alikes-Has (b ∷ bs) (d ∷ cs) c (hb, h) (inr k) =
    let (x, hx, same) = Alikes-Has bs cs c h k in (x, inr hx, same)
Alikes-Has [] (d ∷ cs) c h k = absurd h
Alikes-Has bs [] c h k = absurd k

-- The jumps of a block depend on its kind and its successors only.
Jumps : InsnType → Option ℕ → Option ℕ → ℕ → Type 0
Jumps t o r q = (same_type t InsnType.ret ≡ false) × ((o ≡ some q) ⊎ (r ≡ some q))

Edge-Jumps : (b : Blk) (q : ℕ) → Edge (drop_ret b) q → Jumps b.btype b.s1 b.s2 q
unfolding drop_ret Jumps
Edge-Jumps b q edge = elim (Bool-cases (same_type b.btype InsnType.ret)) [
  | inl e ↦ absurd (no_edge (rw e at edge))
  | inr e ↦ (e, rw e at edge)
]
  where
    no_edge : (none ≡ some q) ⊎ (none ≡ some q) → ⊥
    no_edge (inl k) = cc
    no_edge (inr k) = cc

Jumps-Edge : (b : Blk) (q : ℕ) → Jumps b.btype b.s1 b.s2 q → Edge (drop_ret b) q
unfolding drop_ret Jumps
Jumps-Edge b q (e, edge) = rw e edge

Alike-Edge : (b c : Blk) (q : ℕ) → Alike b c → Edge (drop_ret c) q → Edge (drop_ret b) q
Alike-Edge b c q h edge =
    Jumps-Edge b q (subst (λ x. Jumps x.btype x.s1 x.s2 q) h (Edge-Jumps c q edge))

Alikes-Acyclic :
    (s r : List Blk) (base : ℕ) (rank : ℕ → ℕ)
    → Alikes s r
    → Acyclic s base rank
    → Acyclic r base rank
Alikes-Acyclic s r base rank alike h = record {
  plain = record {
    apart = subst Apart (sym (Alikes-ids s r alike)) h.plain.apart;
    unmarked = λ c has.
        let (b, hb, same) = Alikes-Has s r c alike has in
        ap (λ x. x.visited) same ∙ h.plain.unmarked b hb;
    no_params = λ c has.
        let (b, hb, same) = Alikes-Has s r c alike has in
        ap (λ x. x.params) same ∙ h.plain.no_params b hb;
    no_args = λ c has.
        let (b, hb, same) = Alikes-Has s r c alike has in
        let (e1, e2) = h.plain.no_args b hb in
        (ap (λ x. x.args1) same ∙ e1, ap (λ x. x.args2) same ∙ e2);
    stored = λ c has q edge.
        let (b, hb, same) = Alikes-Has s r c alike has in
        subst (λ l. Has q l) (sym (Alikes-ids s r alike))
          (h.plain.stored b hb q (Alike-Edge b c q same edge));
  };
  descending = λ c has q edge.
      let (b, hb, same) = Alikes-Has s r c alike has in
      subst (λ i. rank q < rank i) (sym (ap (λ x. x.id) same))
        (h.descending b hb q (Alike-Edge b c q same edge));
}

first-Alike :
    (s r : List Blk) (e : Blk)
    → Alikes s r
    → vec_at s 0 ≡ ok e
    → (d : Blk) × (vec_at r 0 ≡ ok d) × Alike e d
first-Alike (b ∷ bs) (c ∷ cs) e (hb, h) at = (c, refl, subst (λ x. Alike x c) (ok-injective at) hb)
first-Alike [] r e h at = absurd cc
first-Alike (b ∷ bs) [] e h at = absurd h

-- On a function that has no `addr` instruction, no reference first in a branch, and no cycles, as
-- `Acyclic` says it, `correct` and `ssa` succeed one behind the other, and `optimize` is `abi0` and
-- `regalloc` on what they make. Behind `correct` every instruction follows the pattern. `ssa` brings
-- the corrected blocks into form, and its result, the renamed form, has the temporaries below the
-- returned count as its definitions, each once and in order.
pub optimize-front :
    (f : Fn) (rank : ℕ → ℕ) (e : Blk)
    → vec_at f.blks 0 ≡ ok e
    → All Addressless f.blks
    → Acyclic f.blks e.visited rank
    → (bs r cs : List Blk) × (m n : ℕ) × (correct f f.ntmp ≡ ok (record f { blks = bs }, m))
      × All Corrected bs
      × (ssa (record f { blks = bs; ntmp = m }) ≡ ok (record f { blks = cs; ntmp = m }, n))
      × Form bs e.id r
      × (rename_blks r 0 ≡ ok (cs, n))
      × (all_defined cs ≡ fresh 0 n)
      × (optimize f ≡ (do lowered ← abi0 (record f { blks = cs; ntmp = m }); regalloc lowered))
unfolding optimize
optimize-front f rank e first plain h =
    let (bs, last, ec, corrected, alike) = correct-ok f f.ntmp plain in
    let (d, ed, same) = first-Alike f.blks bs e alike first in
    let mark : e.visited ≡ d.visited = sym (ap (λ x. x.visited) same) in
    let acyclic =
      subst (λ v. Acyclic bs v rank) mark (Alikes-Acyclic f.blks bs e.visited rank alike h) in
    let (r, cs, n, es, form, renamed, all) =
      ssa-ok (record f { blks = bs; ntmp = last }) rank d ed acyclic in
    (
      bs,
      r,
      cs,
      last,
      n,
      ec,
      corrected,
      es,
      subst (λ i. Form bs i r) (ap (λ x. x.id) same) form,
      renamed,
      all,
      rw (ec, es) refl,
    )
