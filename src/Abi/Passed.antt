-- ===== src/Abi/Passed.antt =====
-- The index, the register and the value of an argument or result in the rewrites of `abi0`.
use qbt.Prelude.{
  ℕ, ◌<◌, ◌≤◌, ◌≡◌, refl, ap, sym, ◌∙◌, inl, inr, true, Result, ok, ok-injective, fault, bind-ok,
  array_bounds, assert_failed, arith, ltb, Bool-cases, ◌>>=◌,
}
use qbt.Prelude.Int.{ℤ, pos, negsuc}
use qbt.Nodes.{InsnType, ValType, Val, reg, tmp, imm, mem, ref, noclass, Insn, insn_create}
use qbt.Abi.Regs.{arg_reg, get_elem?-ar_map, get_elem?-ar_map_end}
use qbt.Abi.{nth_ar, stated_index, pass_value}

-- A value that has a register or a temporary, a constant or a symbol.
abbrev pub Passable : Val → Type 0
Passable (mem _ _) = ⊥
Passable noclass = ⊥
Passable _ = Unit

-- The index of an argument or result has a register.
abbrev pub Indexed : Val → Type 0
Indexed (imm (pos k) _) = k < 24
Indexed _ = ⊥

abbrev pub LowerableAs : InsnType → Val → Val → Type 0
LowerableAs InsnType.param a i = Indexed i
LowerableAs InsnType.retval a i = Indexed i
LowerableAs InsnType.arg a i = Passable a × Indexed i
LowerableAs InsnType.retarg a i = Passable a × Indexed i
LowerableAs _ a i = Unit

abbrev pub Lowerable : Insn → Type 0
Lowerable n = LowerableAs n.type n.in0 n.in1

pub nth_ar-inside : (k : ℕ) → k < 24 → nth_ar (pos k) ≡ ok (reg (arg_reg k))
unfolding nth_ar
nth_ar-inside k h = rw (get_elem?-ar_map k h)

pub nth_ar-outside : (k : ℕ) → 24 ≤ k → nth_ar (pos k) ≡ fault array_bounds
unfolding nth_ar
nth_ar-outside k h = rw (get_elem?-ar_map_end k h)

-- The four kinds of instruction that `abi0` replaces.
pub data IsPseudo : InsnType → Type 0 where
  param : IsPseudo InsnType.param
  retval : IsPseudo InsnType.retval
  arg : IsPseudo InsnType.arg
  retarg : IsPseudo InsnType.retarg

-- The index that an operand states.
abbrev pub index_of : Val → ℕ
index_of (imm (pos k) _) = k
index_of _ = 0

-- An accepted index operand states an index below 25.
pub stated_index-eq :
    (i : Val) {n : ℤ} → stated_index i ≡ ok n → (n ≡ pos (index_of i)) × (index_of i < 25)
unfolding stated_index
stated_index-eq (imm (pos k) t) {n} h = elim (Bool-cases (ltb k 25)) [
  | inl below ↦ (sym (ok-injective (rw below at h)), ground arith)
  | inr past ↦ absurd (no_index (rw past at h))
]
  where
    no_index : Result.fault assert_failed ≡ ok n → ⊥
    no_index e = cc
stated_index-eq (imm (negsuc k) t) h = absurd cc
stated_index-eq (reg _) h = absurd cc
stated_index-eq (tmp _) h = absurd cc
stated_index-eq (mem _ _) h = absurd cc
stated_index-eq (ref _) h = absurd cc
stated_index-eq noclass h = absurd cc

pub stated_index-ok : (i : Val) → Indexed i → stated_index i ≡ ok (pos (index_of i))
unfolding stated_index
stated_index-ok (imm (pos k) t) h = let below : ltb k 25 ≡ true = ground arith in rw below refl
stated_index-ok (imm (negsuc k) t) h = absurd h
stated_index-ok (reg _) h = absurd h
stated_index-ok (tmp _) h = absurd h
stated_index-ok (mem _ _) h = absurd h
stated_index-ok (ref _) h = absurd h
stated_index-ok noclass h = absurd h

pub Indexed-below : (i : Val) → Indexed i → index_of i < 24
Indexed-below (imm (pos k) t) h = h
Indexed-below (imm (negsuc k) t) h = absurd h
Indexed-below (reg _) h = absurd h
Indexed-below (tmp _) h = absurd h
Indexed-below (mem _ _) h = absurd h
Indexed-below (ref _) h = absurd h
Indexed-below noclass h = absurd h

Indexed-from : (i : Val) {n : ℤ} → stated_index i ≡ ok n → index_of i < 24 → Indexed i
unfolding stated_index
Indexed-from (imm (pos k) t) h lt = lt
Indexed-from (imm (negsuc k) t) h lt = absurd cc
Indexed-from (reg _) h lt = absurd cc
Indexed-from (tmp _) h lt = absurd cc
Indexed-from (mem _ _) h lt = absurd cc
Indexed-from (ref _) h lt = absurd cc
Indexed-from noclass h lt = absurd cc

-- An accepted index that has a register is below 24, and has the register of its place.
pub read-eq :
    (i : Val) {n : ℤ} {r : Val}
    → stated_index i ≡ ok n
    → nth_ar n ≡ ok r
    → Indexed i × (r ≡ reg (arg_reg (index_of i)))
read-eq i {n} {r} h e =
    let (same, below) = stated_index-eq i {n = n} h in
    let at : nth_ar (pos (index_of i)) ≡ ok r = ap nth_ar (sym same) ∙ e in
    elim (Bool-cases (ltb (index_of i) 24)) [
      | inl inside ↦
          let lt : index_of i < 24 = ground arith in
          (Indexed-from i {n = n} h lt, ok-injective (sym at ∙ nth_ar-inside (index_of i) lt))
      | inr outside ↦ absurd (no_read (sym (nth_ar-outside (index_of i) (ground arith)) ∙ at))
    ]
  where
    no_read : Result.fault array_bounds ≡ ok r → ⊥
    no_read k = cc

-- The instruction that brings a value into the `k`-th argument register.
abbrev pub carry : ℕ → Val → Insn
carry k (imm v t) =
    insn_create InsnType.copy ValType.i27 (reg (arg_reg k)) (imm v t) noclass (pos 0)
carry k (ref s) = insn_create InsnType.copy ValType.i27 (reg (arg_reg k)) (ref s) noclass (pos 0)
carry k v = insn_create InsnType.move ValType.i27 (reg (arg_reg k)) v noclass (pos 0)

abbrev pub receive : ℕ → Val → Insn
receive k out = insn_create InsnType.move ValType.i27 out (reg (arg_reg k)) noclass (pos 0)

pub pass_value-carry :
    (k : ℕ) (a : Val) → Passable a → k < 24 → pass_value (pos k) a ≡ ok (carry k a)
unfolding pass_value
pass_value-carry k (reg _) p h = rw (nth_ar-inside k h) refl
pass_value-carry k (tmp _) p h = rw (nth_ar-inside k h) refl
pass_value-carry k (imm _ _) p h = rw (nth_ar-inside k h) refl
pass_value-carry k (ref _) p h = rw (nth_ar-inside k h) refl
pass_value-carry k (mem _ _) p h = absurd p
pass_value-carry k noclass p h = absurd p

-- A value that was passed went through a register.
abbrev pub Through : ℤ → Val → Insn → Type 0
Through n a m = Passable a × ((r : Val) × (nth_ar n ≡ ok r) × (m.out ≡ r))

made-Through :
    (n : ℤ) (a : Val) (f : Val → Insn) {m : Insn}
    → Passable a
    → ((r : Val) → (f r).out ≡ r)
    → (do r ← nth_ar n; ok (f r)) ≡ ok m
    → Through n a m
made-Through n a f {m} p out h =
    let (r, e, same) = bind-ok (nth_ar n) _ h in
    (p, (r, e, ap (λ (t : Insn). t.out) (sym (ok-injective same)) ∙ out r))

pub pass_value-Through : (n : ℤ) (a : Val) {m : Insn} → pass_value n a ≡ ok m → Through n a m
unfolding pass_value
pass_value-Through n (reg v) {m} h =
    made-Through n (reg v) (λ r. insn_create InsnType.move ValType.i27 r (reg v) noclass (pos 0))
      {m = m} tt (λ r. refl) h
pass_value-Through n (tmp v) {m} h =
    made-Through n (tmp v) (λ r. insn_create InsnType.move ValType.i27 r (tmp v) noclass (pos 0))
      {m = m} tt (λ r. refl) h
pass_value-Through n (imm v t) {m} h =
    made-Through n (imm v t)
      (λ r. insn_create InsnType.copy ValType.i27 r (imm v t) noclass (pos 0)) {m = m} tt
      (λ r. refl) h
pass_value-Through n (ref s) {m} h =
    made-Through n (ref s) (λ r. insn_create InsnType.copy ValType.i27 r (ref s) noclass (pos 0))
      {m = m} tt (λ r. refl) h
pass_value-Through n (mem _ _) h = absurd cc
pass_value-Through n noclass h = absurd cc
