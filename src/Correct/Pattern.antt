-- ===== src/Correct/Pattern.antt =====
-- src/correct.c: the operands that instructions and branches are left with, in code that takes no
-- address.
use mathlib.Core.Path.{subst}
use qbt.Prelude.{
  true_or_false, ℕ, zero, suc, ◌≤◌, ◌≡◌, refl, ap, sym, ◌∙◌, ◌⊎◌, inl, inr, List, [], ◌∷◌, Bool,
  true, false, Bool-cases, ◌&&◌, not, Option, none, some, arith, All, All-append,
}
use qbt.Nodes.{Val, tmp, noclass, is_imm, is_ref, InsnType, same_type, Insn}
use qbt.Correct.{
  Operand, operand, put_operand, Kind, arith_insn, positional_insn, branch_insn, relation_insn,
  store_insn, addr_insn, other_insn, kind_of,
}
use qbt.Correct.Expand.{
  imm_left, imm_right, next_spill, settle, spilled, expand_in, expand, expand_all,
}
use qbt.Correct.Loop.{imm_left-imm, weight-le, weights, spill_cases, Lighter, next_spill-Lighter}

-- An addition or multiplication of an immediate has it last.
abbrev ImmLast : Kind → Insn → Type 0
ImmLast arith_insn i = is_imm i.in0 ≡ true → is_imm i.in1 ≡ true
ImmLast _ i = Unit

-- The target of a call, or the instruction that loads a reference.
abbrev MayName : Insn → Type 0
MayName i = (same_type i.type InsnType.call ≡ true) ⊎ ((i.type ≡ InsnType.addr) × (i.in1 ≡ noclass))

-- The pattern that every instruction follows behind the pass: a reference only as the target of a
-- call or in the instruction that loads it, no immediate where the kind of the instruction forbids
-- one, and an immediate first in an addition or multiplication only in front of another one.
pub record Patterned (i : Insn) : Type 0 where
  pub left_ref : is_ref i.in0 ≡ true → MayName i
  pub right_ref : is_ref i.in1 ≡ false
  pub left_imm : imm_left (kind_of i.type) i.in0 ≡ false
  pub right_imm : imm_right (kind_of i.type) i.in1 ≡ false
  pub imm_last : ImmLast (kind_of i.type) i

record Needless (i : Insn) : Type 0 where
  left_ref : (not (same_type i.type InsnType.call) && is_ref i.in0) ≡ false
  right_ref : is_ref i.in1 ≡ false
  left_imm : imm_left (kind_of i.type) i.in0 ≡ false
  right_imm : imm_right (kind_of i.type) i.in1 ≡ false

none_some : {A : Type 0} {p : InsnType × Operand} → none ≡ some p → A
none_some e = absurd cc

next_spill-Needless : (i : Insn) → next_spill i ≡ none → Needless i
next_spill-Needless i e = elim (Bool-cases (not (same_type i.type InsnType.call) && is_ref i.in0)) [
  | inl a ↦ none_some (sym (rw a at e))
  | inr a ↦ elim (Bool-cases (is_ref i.in1)) [
    | inl b ↦ none_some (sym (rw (a, b) at e))
    | inr b ↦ elim (Bool-cases (imm_left (kind_of i.type) i.in0)) [
      | inl c ↦ none_some (sym (rw (a, b, c) at e))
      | inr c ↦ elim (Bool-cases (imm_right (kind_of i.type) i.in1)) [
        | inl d ↦ none_some (sym (rw (a, b, c, d) at e))
        | inr d ↦ record { left_ref = a; right_ref = b; left_imm = c; right_imm = d }
      ]
    ]
  ]
]

pub imm_no_ref : (v : Val) → is_imm v ≡ true → is_ref v ≡ false
imm_no_ref (Val.imm n t) e = refl
imm_no_ref (Val.ref n) e = absurd cc
imm_no_ref (Val.reg r) e = refl
imm_no_ref (Val.tmp r) e = refl
imm_no_ref (Val.mem r n) e = refl
imm_no_ref noclass e = refl

kept-Patterned : (i : Insn) → Needless i → ImmLast (kind_of i.type) i → Patterned i
kept-Patterned i h l = record {
  left_ref = λ e. inl (
      call_of (same_type i.type InsnType.call)
        (ap (λ x. not (same_type i.type InsnType.call) && x) (sym e) ∙ h.left_ref));
  right_ref = h.right_ref;
  left_imm = h.left_imm;
  right_imm = h.right_imm;
  imm_last = l;
}
  where
    call_of : (c : Bool) → (not c && true) ≡ false → c ≡ true
    call_of true e = refl
    call_of false e = absurd cc

swapped-Patterned :
    (i : Insn)
    → kind_of i.type ≡ arith_insn
    → Needless i
    → is_imm i.in0 ≡ true
    → Patterned (record i { in0 = i.in1; in1 = i.in0 })
swapped-Patterned i e h m = record {
  left_ref = λ r. true_or_false r h.right_ref;
  right_ref = imm_no_ref i.in0 m;
  left_imm = ap (λ k. imm_left k i.in1) e;
  right_imm = ap (λ k. imm_right k i.in0) e;
  imm_last = subst (λ k. ImmLast k (record i { in0 = i.in1; in1 = i.in0 })) (sym e) (λ _. m);
}

settle-Patterned : (k : Kind) (i : Insn) → kind_of i.type ≡ k → Needless i → Patterned (settle k i)
settle-Patterned arith_insn i e h = elim (Bool-cases (is_imm i.in0)) [
  | inl m ↦ rw m (swapped-Patterned i e h m)
  | inr m ↦ rw m (kept-Patterned i h (subst (λ k. ImmLast k i) (sym e) (λ x. true_or_false x m)))
]
settle-Patterned positional_insn i e h = kept-Patterned i h (subst (λ k. ImmLast k i) (sym e) tt)
settle-Patterned branch_insn i e h = kept-Patterned i h (subst (λ k. ImmLast k i) (sym e) tt)
settle-Patterned relation_insn i e h = kept-Patterned i h (subst (λ k. ImmLast k i) (sym e) tt)
settle-Patterned store_insn i e h = kept-Patterned i h (subst (λ k. ImmLast k i) (sym e) tt)
settle-Patterned addr_insn i e h = kept-Patterned i h (subst (λ k. ImmLast k i) (sym e) tt)
settle-Patterned other_insn i e h = kept-Patterned i h (subst (λ k. ImmLast k i) (sym e) tt)

-- The instruction that gives a new temporary its value.
abbrev Spills : Insn → Option (InsnType × Operand) → Type 0
Spills i none = Unit
Spills i (some (o, idx)) = (ri : ℕ) → Patterned (spilled o ri (operand idx i))

addr-Patterned : (ri : ℕ) (v : Val) → is_ref v ≡ true → Patterned (spilled InsnType.addr ri v)
unfolding kind_of
addr-Patterned ri (Val.ref n) e = record {
  left_ref = λ _. inr (refl, refl);
  right_ref = refl;
  left_imm = refl;
  right_imm = refl;
  imm_last = tt;
}
addr-Patterned ri (Val.imm n t) e = absurd cc
addr-Patterned ri (Val.reg r) e = absurd cc
addr-Patterned ri (Val.tmp r) e = absurd cc
addr-Patterned ri (Val.mem r n) e = absurd cc
addr-Patterned ri noclass e = absurd cc

pub copy-Patterned : (ri : ℕ) (v : Val) → is_ref v ≡ false → Patterned (spilled InsnType.copy ri v)
unfolding kind_of
copy-Patterned ri v e = record {
  left_ref = λ r. true_or_false r e;
  right_ref = refl;
  left_imm = refl;
  right_imm = refl;
  imm_last = tt;
}

next_spill-Spills : (i : Insn) → Spills i (next_spill i)
next_spill-Spills i = elim (Bool-cases (not (same_type i.type InsnType.call) && is_ref i.in0)) [
  | inl a ↦ rw a (λ ri.
      addr-Patterned ri i.in0 (second_of (not (same_type i.type InsnType.call)) (is_ref i.in0) a))
  | inr a ↦ elim (Bool-cases (is_ref i.in1)) [
    | inl b ↦ rw (a, b) (λ ri. addr-Patterned ri i.in1 b)
    | inr b ↦ elim (Bool-cases (imm_left (kind_of i.type) i.in0)) [
      | inl c ↦
          rw (a, b, c)
            (λ ri.
              copy-Patterned ri i.in0 (imm_no_ref i.in0 (imm_left-imm (kind_of i.type) i.in0 c)))
      | inr c ↦ elim (Bool-cases (imm_right (kind_of i.type) i.in1)) [
        | inl d ↦ rw (a, b, c, d) (λ ri. copy-Patterned ri i.in1 b)
        | inr d ↦ rw (a, b, c, d) tt
      ]
    ]
  ]
]
  where
    second_of : (x y : Bool) → (x && y) ≡ true → y ≡ true
    second_of true y e = e
    second_of false y e = absurd cc

expand_in-Patterned :
    (n : ℕ) (i : Insn) (ri : ℕ) → weights i ≤ n → All Patterned (expand_in n i ri).0
expand_in-Patterned zero i ri le = elim (spill_cases (next_spill i)) [
  | inl e ↦ (settle-Patterned (kind_of i.type) i refl (next_spill-Needless i e), tt)
  | inr ((o, idx), e) ↦
      let lighter = subst (Lighter i) e (next_spill-Lighter i) ri in absurd (omega arith)
]
expand_in-Patterned (suc n) i ri le = elim (spill_cases (next_spill i)) [
  | inl e ↦ rw e (settle-Patterned (kind_of i.type) i refl (next_spill-Needless i e), tt)
  | inr ((o, idx), e) ↦
      let lighter = subst (Lighter i) e (next_spill-Lighter i) ri in
      rw e (
        subst (Spills i) e (next_spill-Spills i) ri,
        expand_in-Patterned n (put_operand idx (tmp ri) i) (suc ri) (omega arith),
      )
]

pub expand_all-Patterned : (is : List Insn) (ri : ℕ) → All Patterned (expand_all is ri).0
expand_all-Patterned [] ri = tt
expand_all-Patterned (i ∷ is) ri =
    let light : weights i ≤ 2 = omega (arith, weight-le i.in0, weight-le i.in1) in
    All-append Patterned (expand i ri).0 (expand_all is (expand i ri).1).0
      (expand_in-Patterned 2 i ri light) (expand_all-Patterned is (expand i ri).1)
