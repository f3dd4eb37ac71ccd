-- ===== src/Correct/Expand.antt =====
-- The corrections of one instruction, as the instructions that take its place, for code that takes no
-- address.
use qbt.Prelude.{
  ℕ, zero, suc, ◌≡◌, refl, ◌∙◌, inl, inr, List, [], ◌∷◌, ◌++◌, Bool, true, false, Bool-cases, ◌&&◌,
  not, Option, none, some, ok, arith, ltb, leb, length, length-append, set-mid, if◌then◌else◌,
}
use qbt.Prelude.Int.{pos}
use qbt.Seq.{vec_put, vec_insert}
use qbt.Nodes.{
  Val, tmp, noclass, is_tmp, is_imm, is_ref, InsnType, same_type, ValType, Insn, insn_create,
}
use qbt.Rules.{has_rewrite_rule}
use qbt.Regalloc.Calls.Place.{insert_at-append}
use qbt.Correct.{
  Operand, left, right, operand, put_operand, Correcting, spill, correct_arith, correct_left,
  correct_store, correct_branch, Kind, arith_insn, positional_insn, branch_insn, relation_insn,
  store_insn, addr_insn, other_insn, kind_of, correct_kind, correct_rest, correct_insn,
}

-- An immediate is not allowed there.
abbrev pub imm_left : Kind → Val → Bool
imm_left positional_insn v = is_imm v
imm_left branch_insn v = is_imm v
imm_left relation_insn v = is_imm v
imm_left _ v = false

abbrev pub imm_right : Kind → Val → Bool
imm_right branch_insn v = is_imm v
imm_right store_insn v = is_imm v
imm_right _ v = false

-- What has to be put in a temporary first, and by which instruction.
abbrev pub next_spill : Insn → Option (InsnType × Operand)
next_spill i =
    if not (same_type i.type InsnType.call) && is_ref i.in0
    then some (InsnType.addr, left)
    else if is_ref i.in1
    then some (InsnType.addr, right)
    else if imm_left (kind_of i.type) i.in0
    then some (InsnType.copy, left)
    else if imm_right (kind_of i.type) i.in1
    then some (InsnType.copy, right)
    else none

-- What is left of the instruction: an immediate of an addition or multiplication comes last.
abbrev pub settle : Kind → Insn → Insn
settle arith_insn i = if is_imm i.in0 then record i { in0 = i.in1; in1 = i.in0 } else i
settle _ i = i

abbrev pub spilled : InsnType → ℕ → Val → Insn
spilled o ri v = insn_create o ValType.i27 (tmp ri) v noclass (pos 0)

-- `next` expands what is left of the instruction.
abbrev pub expand_as :
    (Insn → ℕ → List Insn × ℕ) → Insn → ℕ → Option (InsnType × Operand) → List Insn × ℕ
expand_as next i ri none = (settle (kind_of i.type) i ∷ [], ri)
expand_as next i ri (some (o, idx)) =
    let (is, last) = next (put_operand idx (tmp ri) i) (suc ri) in
    (spilled o ri (operand idx i) ∷ is, last)

-- An instruction has two operands, so that two rounds are enough.
abbrev pub expand_in : ℕ → Insn → ℕ → List Insn × ℕ
expand_in zero i ri = (settle (kind_of i.type) i ∷ [], ri)
expand_in (suc n) i ri = expand_as (expand_in n) i ri (next_spill i)

abbrev pub expand : Insn → ℕ → List Insn × ℕ
expand i ri = expand_in 2 i ri

abbrev pub expand_all : List Insn → ℕ → List Insn × ℕ
expand_all [] ri = ([], ri)
expand_all (i ∷ is) ri =
    let (js, r1) = expand i ri in let (ks, r2) = expand_all is r1 in (js ++ ks, r2)

abbrev pub NotAddr : Kind → Type 0
NotAddr addr_insn = ⊥
NotAddr _ = Unit

-- The instruction takes no address.
abbrev pub NoAddr : Insn → Type 0
NoAddr i = NotAddr (kind_of i.type)

-- The list in which the loop stands at `x`.
abbrev pub at : List Insn → Insn → List Insn → ℕ → Correcting
at pre x post ri = record { insns = pre ++ x ∷ post; addrs = []; ri = ri }

module _ (pre : List Insn) (i : Insn) (post : List Insn) where
  pub inside : ltb (length pre) (length (pre ++ i ∷ post)) ≡ true
  inside = ground (arith, length-append pre (i ∷ post))

  put_here : (x : Insn) → vec_put (pre ++ i ∷ post) (length pre) x ≡ ok (pre ++ x ∷ post)
  put_here x = rw (inside, set-mid pre i post x) refl

  insert_here : (x : Insn) → vec_insert (pre ++ i ∷ post) x (length pre) ≡ ok (pre ++ x ∷ i ∷ post)
  insert_here x =
      let fits : leb (length pre) (length (pre ++ i ∷ post)) ≡ true =
        ground (arith, length-append pre (i ∷ post)) in
      rw (fits, insert_at-append pre (i ∷ post) x) refl

spill-here :
    (pre : List Insn) (i : Insn) (post : List Insn) (o : InsnType) (v : Val) (idx : Operand)
    (ri : ℕ)
    → spill o v (length pre) i idx (at pre i post ri)
      ≡ ok (record {
        insns = pre ++ spilled o ri v ∷ put_operand idx (tmp ri) i ∷ post;
        addrs = [];
        ri = suc ri;
      })
unfolding spill
spill-here pre i post o v idx ri =
    rw
      (
        put_here pre i post (put_operand idx (tmp ri) i),
        insert_here pre (put_operand idx (tmp ri) i) post (spilled o ri v),
      )
      refl

-- A round that changes no operand.
settled :
    (k : Kind) (pre : List Insn) (i : Insn) (post : List Insn) (ri : ℕ)
    → NotAddr k
    → imm_left k i.in0 ≡ false
    → imm_right k i.in1 ≡ false
    → correct_kind k (length pre) i (at pre i post ri) ≡ ok (at pre (settle k i) post ri)
unfolding correct_kind correct_arith correct_left correct_branch correct_store
settled arith_insn pre i post ri h e1 e2 = elim (Bool-cases (is_imm i.in0)) [
  | inl e ↦ rw (e, put_here pre i post (record i { in0 = i.in1; in1 = i.in0 })) refl
  | inr e ↦ rw e refl
]
settled positional_insn pre i post ri h e1 e2 = rw e1 refl
settled branch_insn pre i post ri h e1 e2 = rw (e1, e2) refl
settled relation_insn pre i post ri h e1 e2 = rw e1 refl
settled store_insn pre i post ri h e1 e2 = rw e2 refl
settled addr_insn pre i post ri h e1 e2 = absurd h
settled other_insn pre i post ri h e1 e2 = refl

left_imm :
    (k : Kind) (ii : ℕ) (i : Insn) (s : Correcting)
    → imm_left k i.in0 ≡ true
    → correct_kind k ii i s ≡ spill InsnType.copy i.in0 ii i left s
unfolding correct_kind correct_left correct_branch
left_imm positional_insn ii i s e = rw e refl
left_imm branch_insn ii i s e = rw e refl
left_imm relation_insn ii i s e = rw e refl
left_imm arith_insn ii i s e = absurd cc
left_imm store_insn ii i s e = absurd cc
left_imm addr_insn ii i s e = absurd cc
left_imm other_insn ii i s e = absurd cc

right_imm :
    (k : Kind) (ii : ℕ) (i : Insn) (s : Correcting)
    → imm_left k i.in0 ≡ false
    → imm_right k i.in1 ≡ true
    → correct_kind k ii i s ≡ spill InsnType.copy i.in1 ii i right s
unfolding correct_kind correct_branch correct_store
right_imm branch_insn ii i s e1 e2 = rw (e1, e2) refl
right_imm store_insn ii i s e1 e2 = rw e2 refl
right_imm arith_insn ii i s e1 e2 = absurd cc
right_imm positional_insn ii i s e1 e2 = absurd cc
right_imm relation_insn ii i s e1 e2 = absurd cc
right_imm addr_insn ii i s e1 e2 = absurd cc
right_imm other_insn ii i s e1 e2 = absurd cc

no_rule : (v : Val) → (is_tmp v && has_rewrite_rule [] v) ≡ false
unfolding has_rewrite_rule
no_rule v = ground arith

-- What a round of the loop does, by what has to be put in a temporary.
abbrev pub Rounds : List Insn → Insn → List Insn → ℕ → Option (InsnType × Operand) → Type 0
Rounds pre i post ri none =
    correct_insn (length pre) i (at pre i post ri) ≡ ok (at pre (settle (kind_of i.type) i) post ri)
Rounds pre i post ri (some (o, idx)) =
    correct_insn (length pre) i (at pre i post ri)
    ≡ ok (record {
      insns = pre ++ spilled o ri (operand idx i) ∷ put_operand idx (tmp ri) i ∷ post;
      addrs = [];
      ri = suc ri;
    })

no_addrs :
    (ii : ℕ) (i : Insn) (s : Correcting) → s.addrs ≡ [] → correct_insn ii i s ≡ correct_rest ii i s
unfolding correct_insn
no_addrs ii i s e = rw (e, no_rule i.in0, no_rule i.in1, no_rule i.out) refl

pub correct_insn-Rounds :
    (pre : List Insn) (i : Insn) (post : List Insn) (ri : ℕ)
    → NoAddr i
    → Rounds pre i post ri (next_spill i)
unfolding correct_rest
correct_insn-Rounds pre i post ri h =
    let start = no_addrs (length pre) i (at pre i post ri) refl in
    elim (Bool-cases (not (same_type i.type InsnType.call) && is_ref i.in0)) [
      | inl a ↦ rw a (start ∙ rw a (spill-here pre i post InsnType.addr i.in0 left ri))
      | inr a ↦ elim (Bool-cases (is_ref i.in1)) [
        | inl b ↦ rw (a, b) (start ∙ rw (a, b) (spill-here pre i post InsnType.addr i.in1 right ri))
        | inr b ↦ elim (Bool-cases (imm_left (kind_of i.type) i.in0)) [
          | inl c ↦
              rw (a, b, c)
                (start
                  ∙ rw (a, b)
                      (left_imm (kind_of i.type) (length pre) i (at pre i post ri) c
                        ∙ spill-here pre i post InsnType.copy i.in0 left ri))
          | inr c ↦ elim (Bool-cases (imm_right (kind_of i.type) i.in1)) [
            | inl d ↦
                rw (a, b, c, d)
                  (start
                    ∙ rw (a, b)
                        (right_imm (kind_of i.type) (length pre) i (at pre i post ri) c d
                          ∙ spill-here pre i post InsnType.copy i.in1 right ri))
            | inr d ↦
                rw (a, b, c, d) (start ∙ rw (a, b) (settled (kind_of i.type) pre i post ri h c d))
          ]
        ]
      ]
    ]
