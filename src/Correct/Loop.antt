-- ===== src/Correct/Loop.antt =====
-- The loop over the growing list puts in the place of each instruction what it expands to.
use mathlib.Core.Path.{subst, ap₂}
use mathlib.Core.List.{append_assoc}
use qbt.Prelude.{
  ℕ, zero, suc, ◌+◌, ◌*◌, ◌-◌, ◌<◌, ◌≤◌, ◌≡◌, refl, ap, sym, ◌∙◌, ◌⊎◌, inl, inr, List, [], ◌∷◌,
  ◌++◌, true, false, Bool-cases, ◌&&◌, not, Option, none, some, ok, arith, ltb, length,
  length-append, get_elem?-mid, if◌then◌else◌, All,
}
use qbt.Nodes.{Val, tmp, is_imm, is_ref, InsnType, same_type, Insn}
use qbt.Correct.{
  Operand, left, right, operand, put_operand, Correcting, Kind, arith_insn, positional_insn,
  branch_insn, relation_insn, store_insn, addr_insn, other_insn, kind_of, correct_insn,
  correct_insns,
}
use qbt.Correct.Expand.{
  imm_left, imm_right, next_spill, settle, spilled, expand_in, expand, expand_all, NoAddr, NotAddr,
  at, inside, Rounds, correct_insn-Rounds,
}

-- 1 for an operand that may have to be put in a temporary.
abbrev pub weight : Val → ℕ
weight v = if is_ref v then 1 else if is_imm v then 1 else 0

abbrev pub weights : Insn → ℕ
weights i = weight i.in0 + weight i.in1

pub weight-le : (v : Val) → weight v ≤ 1
weight-le v = ground arith

pub imm_left-imm : (k : Kind) (v : Val) → imm_left k v ≡ true → is_imm v ≡ true
imm_left-imm positional_insn v e = e
imm_left-imm branch_insn v e = e
imm_left-imm relation_insn v e = e
imm_left-imm arith_insn v e = absurd cc
imm_left-imm store_insn v e = absurd cc
imm_left-imm addr_insn v e = absurd cc
imm_left-imm other_insn v e = absurd cc

imm_right-imm : (k : Kind) (v : Val) → imm_right k v ≡ true → is_imm v ≡ true
imm_right-imm branch_insn v e = e
imm_right-imm store_insn v e = e
imm_right-imm arith_insn v e = absurd cc
imm_right-imm positional_insn v e = absurd cc
imm_right-imm relation_insn v e = absurd cc
imm_right-imm addr_insn v e = absurd cc
imm_right-imm other_insn v e = absurd cc

-- An operand that is put in a temporary had weight, and has none then.
abbrev pub Lighter : Insn → Option (InsnType × Operand) → Type 0
Lighter i none = Unit
Lighter i (some (o, idx)) = (ri : ℕ) → weights (put_operand idx (tmp ri) i) < weights i

pub next_spill-Lighter : (i : Insn) → Lighter i (next_spill i)
next_spill-Lighter i = elim (Bool-cases (not (same_type i.type InsnType.call) && is_ref i.in0)) [
  | inl a ↦ rw a (λ ri. ground arith)
  | inr a ↦ elim (Bool-cases (is_ref i.in1)) [
    | inl b ↦ rw (a, b) (λ ri. ground arith)
    | inr b ↦ elim (Bool-cases (imm_left (kind_of i.type) i.in0)) [
      | inl c ↦ rw (a, b, c) (λ ri. ground (arith, imm_left-imm (kind_of i.type) i.in0 c))
      | inr c ↦ elim (Bool-cases (imm_right (kind_of i.type) i.in1)) [
        | inl d ↦ rw (a, b, c, d) (λ ri. ground (arith, imm_right-imm (kind_of i.type) i.in1 d))
        | inr d ↦ rw (a, b, c, d) tt
      ]
    ]
  ]
]

put_operand-type : (idx : Operand) (v : Val) (i : Insn) → (put_operand idx v i).type ≡ i.type
put_operand-type left v i = refl
put_operand-type right v i = refl

-- The list behind the expansion of one instruction.
abbrev behind : List Insn → List Insn → List Insn → ℕ → Correcting
behind pre js post ri = record { insns = (pre ++ js) ++ post; addrs = []; ri = ri }

one_round :
    (m : ℕ) (pre : List Insn) (i : Insn) (post : List Insn) (ri : ℕ) (s : Correcting)
    → correct_insn (length pre) i (at pre i post ri) ≡ ok s
    → correct_insns (suc m) (length pre) (at pre i post ri) ≡ correct_insns m (suc (length pre)) s
unfolding correct_insns
one_round m pre i post ri s e = rw (inside pre i post, get_elem?-mid pre i post, e) refl

-- The instruction that was looked at is counted among those behind the loop.
moved :
    (m : ℕ) (pre : List Insn) (x : Insn) (post : List Insn) (ri : ℕ)
    → correct_insns m (suc (length pre)) (at pre x post ri)
      ≡ correct_insns m (length (pre ++ x ∷ [])) (behind pre (x ∷ []) post ri)
moved m pre x post ri =
    let count : suc (length pre) ≡ length (pre ++ x ∷ []) =
      omega (arith, length-append pre (x ∷ [])) in
    ap₂ (λ n l. correct_insns m n (record { insns = l; addrs = []; ri = ri })) count
      (sym (append_assoc pre (x ∷ []) post))

pub spill_cases :
    (o : Option (InsnType × Operand)) → (o ≡ none) ⊎ ((p : InsnType × Operand) × (o ≡ some p))
spill_cases none = inl refl
spill_cases (some p) = inr (p, refl)

last_round :
    (m : ℕ) (pre : List Insn) (i : Insn) (post : List Insn) (ri : ℕ)
    → NoAddr i
    → next_spill i ≡ none
    → correct_insns (suc m) (length pre) (at pre i post ri)
      ≡ correct_insns m
          (length (pre ++ settle (kind_of i.type) i ∷ []))
          (behind pre (settle (kind_of i.type) i ∷ []) post ri)
last_round m pre i post ri h e =
    one_round m pre i post ri (at pre (settle (kind_of i.type) i) post ri)
      (subst (Rounds pre i post ri) e (correct_insn-Rounds pre i post ri h))
    ∙ moved m pre (settle (kind_of i.type) i) post ri

-- As many rounds as the instruction expands to instructions.
expand_in-run :
    (n m : ℕ) (pre : List Insn) (i : Insn) (post : List Insn) (ri : ℕ)
    → NoAddr i
    → weights i ≤ n
    → correct_insns (length (expand_in n i ri).0 + m) (length pre) (at pre i post ri)
      ≡ correct_insns m
          (length (pre ++ (expand_in n i ri).0))
          (behind pre (expand_in n i ri).0 post (expand_in n i ri).1)
expand_in-run zero m pre i post ri h le = elim (spill_cases (next_spill i)) [
  | inl e ↦
      let count : 1 + m ≡ suc m = omega arith in
      ap (λ k. correct_insns k (length pre) (at pre i post ri)) count
      ∙ last_round m pre i post ri h e
  | inr ((o, idx), e) ↦
      let lighter = subst (Lighter i) e (next_spill-Lighter i) ri in absurd (omega arith)
]
expand_in-run (suc n) m pre i post ri h le = elim (spill_cases (next_spill i)) [
  | inl e ↦
      let count : 1 + m ≡ suc m = omega arith in
      rw e (
        ap (λ k. correct_insns k (length pre) (at pre i post ri)) count
        ∙ last_round m pre i post ri h e)
  | inr ((o, idx), e) ↦
      let lighter = subst (Lighter i) e (next_spill-Lighter i) ri in
      let rest = put_operand idx (tmp ri) i in
      let new = spilled o ri (operand idx i) in
      let js = (expand_in n rest (suc ri)).0 in
      let count : suc (length js) + m ≡ suc (length js + m) = omega arith in
      let same : NoAddr rest =
        subst (λ t. NotAddr (kind_of t)) (sym (put_operand-type idx (tmp ri) i)) h in
      rw e (
        ap (λ k. correct_insns k (length pre) (at pre i post ri)) count
        ∙ one_round (length js + m) pre i post ri
            (record { insns = pre ++ new ∷ rest ∷ post; addrs = []; ri = suc ri })
            (subst (Rounds pre i post ri) e (correct_insn-Rounds pre i post ri h))
        ∙ moved (length js + m) pre new (rest ∷ post) (suc ri)
        ∙ expand_in-run n m (pre ++ new ∷ []) rest post (suc ri) same (omega arith)
        ∙ ap
            (λ l.
              correct_insns m (length l)
                (record { insns = l ++ post; addrs = []; ri = (expand_in n rest (suc ri)).1 }))
            (append_assoc pre (new ∷ []) js))
]

stop :
    (m : ℕ) (pre : List Insn) (ri : ℕ)
    → correct_insns m (length pre) (record { insns = pre ++ []; addrs = []; ri = ri })
      ≡ ok (record { insns = pre ++ []; addrs = []; ri = ri })
unfolding correct_insns
stop zero pre ri =
    let past : ltb (length pre) (length (pre ++ [])) ≡ false =
      ground (arith, length-append pre []) in
    rw past refl
stop (suc m) pre ri =
    let past : ltb (length pre) (length (pre ++ [])) ≡ false =
      ground (arith, length-append pre []) in
    rw past refl

-- The whole list, with rounds left.
expand_all-run :
    (is : List Insn) (m : ℕ) (pre : List Insn) (ri : ℕ)
    → All NoAddr is
    → correct_insns
        (length (expand_all is ri).0 + m)
        (length pre)
        (record { insns = pre ++ is; addrs = []; ri = ri })
      ≡ ok (record { insns = pre ++ (expand_all is ri).0; addrs = []; ri = (expand_all is ri).1 })
expand_all-run [] m pre ri h =
    let count : 0 + m ≡ m = omega arith in
    ap (λ k. correct_insns k (length pre) (record { insns = pre ++ []; addrs = []; ri = ri })) count
    ∙ stop m pre ri
expand_all-run (i ∷ is) m pre ri (hi, h) =
    let js = (expand i ri).0 in
    let r1 = (expand i ri).1 in
    let ks = (expand_all is r1).0 in
    let light : weights i ≤ 2 = omega (arith, weight-le i.in0, weight-le i.in1) in
    let count : length (js ++ ks) + m ≡ length js + (length ks + m) =
      omega (arith, length-append js ks) in
    ap (λ k. correct_insns k (length pre) (at pre i is ri)) count
    ∙ expand_in-run 2 (length ks + m) pre i is ri hi light
    ∙ expand_all-run is m (pre ++ js) r1 h
    ∙ ap (λ l. ok (record { insns = l; addrs = []; ri = (expand_all is r1).1 }))
        (append_assoc pre js ks)

length-expand_in : (n : ℕ) (i : Insn) (ri : ℕ) → length (expand_in n i ri).0 ≤ suc n
length-expand_in zero i ri = omega arith
length-expand_in (suc n) i ri = elim (spill_cases (next_spill i)) [
  | inl e ↦ rw e (omega arith)
  | inr ((o, idx), e) ↦
      let rest = length-expand_in n (put_operand idx (tmp ri) i) (suc ri) in
      rw e (omega (arith, rest))
]

length-expand_all : (is : List Insn) (ri : ℕ) → length (expand_all is ri).0 ≤ 3 * length is
length-expand_all [] ri = omega arith
length-expand_all (i ∷ is) ri =
    let js = (expand i ri).0 in
    let ks = (expand_all is (expand i ri).1).0 in
    let one : length js ≤ 3 = omega (arith, length-expand_in 2 i ri) in
    omega (arith, one, length-expand_all is (expand i ri).1, length-append js ks)

-- If no instruction takes an address, the loop ends, within the fuel that it is given and although
-- the list grows under it, with each instruction replaced by its expansion.
pub correct_insns-expand_all :
    (is : List Insn) (ri : ℕ)
    → All NoAddr is
    → correct_insns (16 * length is) 0 (record { insns = is; addrs = []; ri = ri })
      ≡ ok (record { insns = (expand_all is ri).0; addrs = []; ri = (expand_all is ri).1 })
correct_insns-expand_all is ri h =
    let js = (expand_all is ri).0 in
    let extra = 16 * length is - length js in
    let count : 16 * length is ≡ length js + extra = omega (arith, length-expand_all is ri) in
    ap (λ k. correct_insns k 0 (record { insns = is; addrs = []; ri = ri })) count
    ∙ expand_all-run is extra [] ri h
