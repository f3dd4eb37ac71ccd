-- ===== src/Regalloc/Scan/Reserved.antt =====
-- The registers of the active lifetimes (`build_reserved`).
use qbt.Prelude.{
  ℕ, ◌<◌, ◌≡◌, refl, ap, sym, ◌∙◌, inl, inr, List, [], ◌∷◌, true, false, some, ok, arith, ◌==◌,
  get_elem?, Bool-cases, All, Has,
}
use qbt.Nodes.{Val, tmp, reg, noclass, hasclass, r_of}
use qbt.Abi.Regs.{tr_map}
use qbt.Rules.{has_rewrite_rule, rewrite_tmp}
use qbt.Rules.Laws.{rule, has_rewrite_rule-eq, rewrite_tmp-ok}
use qbt.Regalloc.Lifetimes.{Lifetime}
use qbt.Regalloc.Scan.{build_reserved}
use qbt.Regalloc.Scan.Active.{key}
use qbt.Regalloc.Scan.Free.{Below}

-- A register of the first `c` places of the array.
pub record Placed (c n : ℕ) : Type 0 where
  pub place : ℕ
  pub at : get_elem? tr_map place ≡ some n
  pub below : place < c

-- The temporary of a lifetime has no rule, or one of the first `c` registers.
pub data RuleFits (rmap : List Val) (c : ℕ) (l : Lifetime) : Type 0 where
  bare : (t : ℕ) → l.v ≡ tmp t → rule rmap t ≡ noclass → RuleFits rmap c l
  ruled : (t n : ℕ) → l.v ≡ tmp t → rule rmap t ≡ reg n → Placed c n → RuleFits rmap c l

pub record Reserves (act : List Lifetime) (rmap : List Val) (c : ℕ) : Type 0 where
  pub reserved : List Val
  pub built : build_reserved act rmap ≡ ok reserved
  pub below : Below c reserved
  pub holds :
      (k : Lifetime) (n : ℕ)
      → Has k act
      → 0 < k.used
      → rule rmap (key k) ≡ reg n
      → Has (reg n) reserved

noclass≢reg : {n : ℕ} → noclass ≡ reg n → ⊥
noclass≢reg e = cc

module _ (rmap : List Val) (c : ℕ) where
  pub build_reserved-ok : (act : List Lifetime) → All (RuleFits rmap c) act → Reserves act rmap c
  unfolding build_reserved
  build_reserved-ok [] h = record {
    reserved = [];
    built = refl;
    below = tt;
    holds = λ k n m _ _. m;
  }
  build_reserved-ok (l ∷ act) (fits, h) =
      let rest = build_reserved-ok act h in
      elim (Bool-cases (l.used == 0)) [
        | inl unused ↦ record {
          reserved = rest.reserved;
          built = rw unused rest.built;
          below = rest.below;
          holds = λ k n m used e. elim m [
            | inl p ↦ absurd (used_not p used unused)
            | inr m' ↦ rest.holds k n m' used e
          ];
        }
        | inr used ↦ with_rule fits rest used
      ]
    where
      used_not : {k : Lifetime} → k ≡ l → 0 < k.used → (l.used == 0) ≡ true → ⊥
      used_not p used e = let same = ap (λ (x : Lifetime). x.used) p in ground arith

      with_rule :
          RuleFits rmap c l
          → Reserves act rmap c
          → (l.used == 0) ≡ false
          → Reserves (l ∷ act) rmap c
      with_rule (bare t v none) rest used =
          let no_rule : has_rewrite_rule rmap l.v ≡ false =
            has_rewrite_rule-eq rmap l.v
            ∙ ap (λ x. hasclass (rule rmap (r_of x))) v
            ∙ ap hasclass none in
          record {
            reserved = rest.reserved;
            built = rw (used, no_rule) rest.built;
            below = rest.below;
            holds = λ k n m u e. elim m [
              | inl p ↦ absurd (
                  noclass≢reg (
                    sym none
                    ∙ ap (λ x. rule rmap (r_of x)) (sym v)
                    ∙ ap (λ (x : Lifetime). rule rmap (key x)) (sym p)
                    ∙ e))
              | inr m' ↦ rest.holds k n m' u e
            ];
          }
      with_rule (ruled t n v is placed) rest used =
          let has : has_rewrite_rule rmap l.v ≡ true =
            has_rewrite_rule-eq rmap l.v
            ∙ ap (λ x. hasclass (rule rmap (r_of x))) v
            ∙ ap hasclass is in
          let found : rewrite_tmp rmap l.v ≡ ok (reg n) =
            ap (rewrite_tmp rmap) v ∙ rewrite_tmp-ok rmap t is in
          record {
            reserved = reg n ∷ rest.reserved;
            built = rw (used, has, found, rest.built);
            below = ((n, placed.place, refl, placed.at, placed.below), rest.below);
            holds = λ k n' m u e. elim m [
              | inl p ↦ inl (
                  sym e
                  ∙ ap (λ (x : Lifetime). rule rmap (key x)) p
                  ∙ ap (λ x. rule rmap (r_of x)) v
                  ∙ is)
              | inr m' ↦ inr (rest.holds k n' m' u e)
            ];
          }
