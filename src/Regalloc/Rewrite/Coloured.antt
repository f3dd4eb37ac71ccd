-- ===== src/Regalloc/Rewrite/Coloured.antt =====
-- src/regalloc.c: a rewritten block has no temporary (`do_rewrites`).
use qbt.Prelude.{
  ℕ, ◌≡◌, refl, ap, sym, ◌∙◌, List, [], ◌∷◌, map, true, false, Result, ok, traverse, All,
}
use qbt.Nodes.{Val, reg, tmp, noclass, is_tmp, Insn, Blk}
use qbt.Rules.{rewrite_tmp}
use qbt.Rules.Laws.{rule, rewrite_tmp-ok}
use qbt.Regalloc.Rewrite.{rewrite_val, rewrite_insn, do_rewrites}

-- The value with its register for a temporary.
abbrev pub colour : List Val → Val → Val
colour rmap (tmp t) = rule rmap t
colour rmap v = v

abbrev pub colour_insn : List Val → Insn → Insn
colour_insn rmap i = record i {
  out = colour rmap i.out;
  in0 = colour rmap i.in0;
  in1 = colour rmap i.in1;
}

-- A temporary has a register in the table; a parameter or an argument is a temporary.
abbrev pub HasColour : List Val → Val → Type 0
HasColour rmap (tmp t) = (r : ℕ) × (rule rmap t ≡ reg r)
HasColour rmap v = Unit

abbrev pub IsColoured : List Val → Val → Type 0
IsColoured rmap v = (is_tmp v ≡ true) × HasColour rmap v

abbrev pub InsnHasColours : List Val → Insn → Type 0
InsnHasColours rmap i = HasColour rmap i.in0 × HasColour rmap i.in1 × HasColour rmap i.out

abbrev pub NoTmp : Val → Type 0
NoTmp v = is_tmp v ≡ false

abbrev pub InsnNoTmp : Insn → Type 0
InsnNoTmp i = NoTmp i.in0 × NoTmp i.in1 × NoTmp i.out

rewrite_val-colour :
    (rmap : List Val) (v : Val) → HasColour rmap v → rewrite_val rmap v ≡ ok (colour rmap v)
unfolding rewrite_val
rewrite_val-colour rmap (tmp t) (r, e) = rewrite_tmp-ok rmap t e ∙ ap ok (sym e)
rewrite_val-colour rmap (reg r) h = refl
rewrite_val-colour rmap (Val.imm v t) h = refl
rewrite_val-colour rmap (Val.mem b o) h = refl
rewrite_val-colour rmap (Val.ref s) h = refl
rewrite_val-colour rmap noclass h = refl

colour-NoTmp : (rmap : List Val) (v : Val) → HasColour rmap v → NoTmp (colour rmap v)
colour-NoTmp rmap (tmp t) (r, e) = ap is_tmp e
colour-NoTmp rmap (reg r) h = refl
colour-NoTmp rmap (Val.imm v t) h = refl
colour-NoTmp rmap (Val.mem b o) h = refl
colour-NoTmp rmap (Val.ref s) h = refl
colour-NoTmp rmap noclass h = refl

rewrite_tmp-colour :
    (rmap : List Val) (v : Val) → IsColoured rmap v → rewrite_tmp rmap v ≡ ok (colour rmap v)
rewrite_tmp-colour rmap (tmp t) (is, (r, e)) = rewrite_tmp-ok rmap t e ∙ ap ok (sym e)
rewrite_tmp-colour rmap (reg r) (is, h) = absurd cc
rewrite_tmp-colour rmap (Val.imm v t) (is, h) = absurd cc
rewrite_tmp-colour rmap (Val.mem b o) (is, h) = absurd cc
rewrite_tmp-colour rmap (Val.ref s) (is, h) = absurd cc
rewrite_tmp-colour rmap noclass (is, h) = absurd cc

rewrite_insn-colour :
    (rmap : List Val) (i : Insn)
    → InsnHasColours rmap i
    → rewrite_insn rmap i ≡ ok (colour_insn rmap i)
unfolding rewrite_insn
rewrite_insn-colour rmap i (h0, h1, ho) =
    rw
      (
        rewrite_val-colour rmap i.in0 h0,
        rewrite_val-colour rmap i.in1 h1,
        rewrite_val-colour rmap i.out ho,
      )
      refl

module _ {A : Type 0} (P Q : A → Type 0) (f : A → Result A) (g : A → A) where
  traverse-map :
      ((a : A) → P a → f a ≡ ok (g a)) → (xs : List A) → All P xs → traverse f xs ≡ ok (map g xs)
  traverse-map step [] h = refl
  traverse-map step (x ∷ xs) (hx, h) = rw (step x hx, traverse-map step xs h) refl

  All-map : ((a : A) → P a → Q (g a)) → (xs : List A) → All P xs → All Q (map g xs)
  All-map step [] h = tt
  All-map step (x ∷ xs) (hx, h) = (step x hx, All-map step xs h)

pub record BlkHasColours (rmap : List Val) (b : Blk) : Type 0 where
  pub params : All (IsColoured rmap) b.params
  pub insns : All (InsnHasColours rmap) b.insns
  pub cmp0 : HasColour rmap b.cmp0
  pub cmp1 : HasColour rmap b.cmp1
  pub args1 : All (IsColoured rmap) b.args1
  pub args2 : All (IsColoured rmap) b.args2

pub record BlkNoTmp (b : Blk) : Type 0 where
  pub params : All NoTmp b.params
  pub insns : All InsnNoTmp b.insns
  pub cmp0 : NoTmp b.cmp0
  pub cmp1 : NoTmp b.cmp1
  pub args1 : All NoTmp b.args1
  pub args2 : All NoTmp b.args2

abbrev pub colour_blk : List Val → Blk → Blk
colour_blk rmap b = record b {
  cmp0 = colour rmap b.cmp0;
  cmp1 = colour rmap b.cmp1;
  insns = map (colour_insn rmap) b.insns;
  params = map (colour rmap) b.params;
  args1 = map (colour rmap) b.args1;
  args2 = map (colour rmap) b.args2;
}

-- Where every temporary of a block has a register, and its parameters and arguments are
-- temporaries, the rewrite succeeds with the registers in the temporaries' places, and none is left.
pub do_rewrites-colour :
    (b : Blk) (rmap : List Val)
    → BlkHasColours rmap b
    → (do_rewrites b rmap ≡ ok (colour_blk rmap b)) × BlkNoTmp (colour_blk rmap b)
unfolding do_rewrites
do_rewrites-colour b rmap h =
    let vals : (xs : List Val)
        → All (IsColoured rmap) xs
        → traverse (rewrite_tmp rmap) xs ≡ ok (map (colour rmap) xs) =
      traverse-map (IsColoured rmap) NoTmp (rewrite_tmp rmap) (colour rmap)
        (rewrite_tmp-colour rmap) in
    let none_left : (xs : List Val) → All (IsColoured rmap) xs → All NoTmp (map (colour rmap) xs) =
      All-map (IsColoured rmap) NoTmp (rewrite_tmp rmap) (colour rmap)
        (λ v c. colour-NoTmp rmap v c.1) in
    (
      rw
          (
            vals b.params h.params,
            traverse-map (InsnHasColours rmap) InsnNoTmp (rewrite_insn rmap) (colour_insn rmap)
                (rewrite_insn-colour rmap) b.insns h.insns,
            rewrite_val-colour rmap b.cmp0 h.cmp0,
            rewrite_val-colour rmap b.cmp1 h.cmp1,
            vals b.args1 h.args1,
            vals b.args2 h.args2,
          )
          refl,
      record {
        params = none_left b.params h.params;
        insns =
            All-map (InsnHasColours rmap) InsnNoTmp (rewrite_insn rmap) (colour_insn rmap)
              (λ i c. (
                colour-NoTmp rmap i.in0 c.0,
                colour-NoTmp rmap i.in1 c.1,
                colour-NoTmp rmap i.out c.2,
              ))
              b.insns h.insns;
        cmp0 = colour-NoTmp rmap b.cmp0 h.cmp0;
        cmp1 = colour-NoTmp rmap b.cmp1 h.cmp1;
        args1 = none_left b.args1 h.args1;
        args2 = none_left b.args2 h.args2;
      },
    )
