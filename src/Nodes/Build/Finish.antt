-- ===== src/Nodes/Build/Finish.antt =====
-- src/nodes.c: the blocks that `finish_function` leaves.
use mathlib.Core.Path.{subst}
use Prim.Native.String.{String}
use qbt.Prelude.{
  ◌-◌, ◌≤◌, ◌≡◌, ap, sym, ◌∙◌, [], ◌∷◌, ◌++◌, Option, none, some, ok, ok-injective, bind-ok,
  then-ok, demand, aborted, fault, vec_bounds, assert, get_elem?, get_elem?-Has, ◌==◌, traverse,
  if◌then◌else◌, length, All,
}
use qbt.Seq.{vec_at, vec_pop}
use qbt.Nodes.{Blk, Fn}
use qbt.Nodes.Blocks.{put_blk}
use qbt.Nodes.Blocks.Laws.{ids, Apart}
use qbt.Nodes.Build.{return_blk, resolve, finish_function}
use qbt.Nodes.Build.Sound.{
  Sound, put_blk-Sound, ids-append, popped, Apart-front, All-front, All-found, Sound-resolved,
  Blank,
}

pub finish_function-Sound :
    (f g : Fn) (name : Option String)
    → finish_function f name ≡ ok g
    → Sound f.blks f.nblk
    → Sound g.blks g.nblk
unfolding finish_function
finish_function-Sound f g name e h =
    let ((front, last), e1, r1) = bind-ok (vec_pop f.blks) _ e in
    let (checked, e2, r2) =
      bind-ok (if length last.insns == 0 then ok last else fault aborted) _ r1 in
    let (end, e3, r3) = bind-ok (vec_at front (length front - 1)) _ r2 in
    let r4 = then-ok (assert (return_blk end)) _ r3 in
    let cleared = put_blk front (record end { s1 = none; s2 = none }) in
    let (blks, e5, r5) = bind-ok (traverse (resolve f.labels) cleared) _ r4 in
    let same : record f { name = name; blks = blks } ≡ g = ok-injective r5 in
    let parts = popped f.blks front last e1 in
    let split : ids f.blks ≡ ids front ++ last.id ∷ [] =
      ap ids parts ∙ ids-append front (last ∷ []) in
    let before : Sound front f.nblk = record {
      apart = Apart-front (ids front) (last.id ∷ []) (subst Apart split h.apart);
      numbered =
          All-front (λ p. p ≤ f.nblk) (ids front) (last.id ∷ [])
            (subst (All (λ p. p ≤ f.nblk)) split h.numbered);
      blank = All-front Blank front (last ∷ []) (subst (All Blank) parts h.blank);
    } in
    let was = All-found Blank front end before.blank (
      get_elem?-Has front (length front - 1)
        (demanded (get_elem? front (length front - 1)) end e3)) in
    let after =
      put_blk-Sound front f.nblk (record end { s1 = none; s2 = none }) before
        (record {
          visited = was.visited;
          params = was.params;
          args1 = was.args1;
          args2 = was.args2;
        }) in
    let (all, blanks) = Sound-resolved f.labels cleared blks f.nblk e5 in
    subst (λ x. Sound x.blks x.nblk) same
      (record {
        apart = subst Apart (sym all) after.apart;
        numbered = subst (All (λ p. p ≤ f.nblk)) (sym all) after.numbered;
        blank = blanks after.blank;
      })
  where
    demanded : (o : Option Blk) (b : Blk) → demand vec_bounds o ≡ ok b → o ≡ some b
    demanded (some x) b k = ap some (ok-injective k)
    demanded none b k = absurd cc
