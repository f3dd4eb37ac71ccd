-- ===== src/Abi/Range.antt =====
-- Which instructions `abi0` accepts.
use qbt.Prelude.{
  ℕ, ◌≡◌, refl, ap, ◌↔◌, Bool, true, false, Result, ok, fault, bind-ok, then-ok, array_bounds,
  aborted, arith, if◌then◌else◌, ◌>>=◌,
}
use qbt.Prelude.Int.{pos}
use qbt.Nodes.{
  InsnType, same_type, ValType, Val, reg, tmp, imm, mem, ref, noclass, Insn, set_insn_flags,
  setup_flag, teardown_flag, both_flags,
}
use qbt.Abi.{
  nth_ar, stated_index, rewrite_param, rewrite_retval, rewrite_arg, rewrite_retarg, pass_value,
  lower_as, lower,
}
use qbt.Abi.Passed.{
  LowerableAs, Lowerable, nth_ar-inside, nth_ar-outside, IsPseudo, index_of, stated_index-ok,
  Indexed-below, read-eq, carry, receive, pass_value-carry, pass_value-Through,
}

-- Whether the rewrite gets to the register array, by the kind of the instruction and its value.
abbrev passable : Val → Bool
passable (mem _ _) = false
passable noclass = false
passable _ = true

abbrev pub looks_up : InsnType → Val → Bool
looks_up InsnType.arg a = passable a
looks_up InsnType.retarg a = passable a
looks_up _ a = true

none_left : nth_ar (pos 24) ≡ fault array_bounds
none_left = nth_ar-outside 24 (omega arith)

pass_value-24 :
    (a : Val) → pass_value (pos 24) a ≡ fault (if passable a then array_bounds else aborted)
unfolding pass_value
pass_value-24 (reg _) = rw none_left refl
pass_value-24 (tmp _) = rw none_left refl
pass_value-24 (imm _ _) = rw none_left refl
pass_value-24 (ref _) = rw none_left refl
pass_value-24 (mem _ _) = refl
pass_value-24 noclass = refl

-- The assertion on the index lets 24 pass, and the register array has no element 24. An argument or
-- result instruction with index 24 then reads past the end of the array, but where it sends a value
-- of a class that cannot be passed: there the program aborts, as it does for such a value anyway.
pub lower-index_24 :
    (n : Insn) (t : ValType)
    → IsPseudo n.type
    → n.in1 ≡ imm (pos 24) t
    → lower n ≡ fault (if looks_up n.type n.in0 then array_bounds else aborted)
unfolding lower lower_as rewrite_param rewrite_retval rewrite_arg rewrite_retarg stated_index
    same_type
lower-index_24 n t p e = kinds p refl
  where
    kinds :
        {ty : InsnType}
        → IsPseudo ty
        → n.type ≡ ty
        → lower n ≡ fault (if looks_up n.type n.in0 then array_bounds else aborted)
    kinds IsPseudo.param q = rw (q, e, none_left) refl
    kinds IsPseudo.retval q = rw (q, e, none_left) refl
    kinds IsPseudo.arg q =
        rw (q, e)
          (ap (λ (m : Result Insn). do i ← m; ok (set_insn_flags i setup_flag))
            (pass_value-24 n.in0))
    kinds IsPseudo.retarg q = rw (q, e) (pass_value-24 n.in0)

abbrev pub is_pseudo : InsnType → Bool
is_pseudo InsnType.param = true
is_pseudo InsnType.retval = true
is_pseudo InsnType.arg = true
is_pseudo InsnType.retarg = true
is_pseudo _ = false

-- What comes in the place of an accepted instruction.
abbrev pub lowered_as : InsnType → Insn → Insn
lowered_as InsnType.param n = receive (index_of n.in1) n.out
lowered_as InsnType.retval n = set_insn_flags (receive (index_of n.in1) n.out) teardown_flag
lowered_as InsnType.arg n = set_insn_flags (carry (index_of n.in1) n.in0) setup_flag
lowered_as InsnType.retarg n = carry (index_of n.in1) n.in0
lowered_as InsnType.call n = set_insn_flags n both_flags
lowered_as _ n = n

abbrev pub lowered : Insn → Insn
lowered n = lowered_as n.type n

carry-real : (k : ℕ) (a : Val) → is_pseudo (carry k a).type ≡ false
carry-real k (reg _) = refl
carry-real k (tmp _) = refl
carry-real k (imm _ _) = refl
carry-real k (ref _) = refl
carry-real k (mem _ _) = refl
carry-real k noclass = refl

lowered_as-real :
    (ty : InsnType) (n : Insn) → n.type ≡ ty → is_pseudo (lowered_as ty n).type ≡ false
lowered_as-real InsnType.param n q = refl
lowered_as-real InsnType.retval n q = refl
lowered_as-real InsnType.arg n q = carry-real (index_of n.in1) n.in0
lowered_as-real InsnType.retarg n q = carry-real (index_of n.in1) n.in0
lowered_as-real InsnType.call n q = rw q refl
lowered_as-real _ n q = rw q refl

pub lowered-real : (n : Insn) → is_pseudo (lowered n).type ≡ false
lowered-real n = lowered_as-real n.type n refl

lower_as-lowered :
    (ty : InsnType) (n : Insn)
    → n.type ≡ ty
    → LowerableAs ty n.in0 n.in1
    → lower_as ty n ≡ ok (lowered_as ty n)
unfolding lower_as rewrite_param rewrite_retval rewrite_arg rewrite_retarg same_type
lower_as-lowered InsnType.param n q h =
    rw (q, stated_index-ok n.in1 h, nth_ar-inside (index_of n.in1) (Indexed-below n.in1 h)) refl
lower_as-lowered InsnType.retval n q h =
    rw (q, stated_index-ok n.in1 h, nth_ar-inside (index_of n.in1) (Indexed-below n.in1 h)) refl
lower_as-lowered InsnType.arg n q (pa, h) =
    rw
      (
        q,
        stated_index-ok n.in1 h,
        pass_value-carry (index_of n.in1) n.in0 pa (Indexed-below n.in1 h),
      )
      refl
lower_as-lowered InsnType.retarg n q (pa, h) =
    rw
      (
        q,
        stated_index-ok n.in1 h,
        pass_value-carry (index_of n.in1) n.in0 pa (Indexed-below n.in1 h),
      )
      refl
lower_as-lowered InsnType.call n q h = refl
lower_as-lowered _ n q h = refl

-- An accepted instruction is replaced by the one described.
pub lower-lowered : (n : Insn) → Lowerable n → lower n ≡ ok (lowered n)
unfolding lower
lower-lowered n h = lower_as-lowered n.type n refl h

lower_as-Lowerable :
    (ty : InsnType) (n : Insn) {m : Insn} → lower_as ty n ≡ ok m → LowerableAs ty n.in0 n.in1
unfolding lower_as rewrite_param rewrite_retval rewrite_arg rewrite_retarg
lower_as-Lowerable InsnType.param n h =
    let (k, e1, h1) = bind-ok (stated_index n.in1) _ (then-ok _ _ h) in
    let (r, e2, h2) = bind-ok (nth_ar k) _ h1 in (read-eq n.in1 {n = k} {r = r} e1 e2).0
lower_as-Lowerable InsnType.retval n h =
    let (k, e1, h1) = bind-ok (stated_index n.in1) _ (then-ok _ _ h) in
    let (r, e2, h2) = bind-ok (nth_ar k) _ h1 in (read-eq n.in1 {n = k} {r = r} e1 e2).0
lower_as-Lowerable InsnType.arg n h =
    let (k, e1, h1) = bind-ok (stated_index n.in1) _ (then-ok _ _ h) in
    let (i, made, h2) = bind-ok (pass_value k n.in0) _ h1 in
    let (p, (r, e2, _)) = pass_value-Through k n.in0 {m = i} made in
    (p, (read-eq n.in1 {n = k} {r = r} e1 e2).0)
lower_as-Lowerable InsnType.retarg n {m} h =
    let (k, e1, made) = bind-ok (stated_index n.in1) _ (then-ok _ _ h) in
    let (p, (r, e2, _)) = pass_value-Through k n.in0 {m = m} made in
    (p, (read-eq n.in1 {n = k} {r = r} e1 e2).0)
lower_as-Lowerable _ n h = tt

-- An instruction is accepted exactly when it is none of the four kinds, or its index is at most 23
-- and the value that it passes, if it passes one, is a register, a temporary, a constant or a
-- symbol; and the instruction in its place is none of the four kinds.
pub lower-ok_iff :
    (n : Insn) → ((m : Insn) × (lower n ≡ ok m) × (is_pseudo m.type ≡ false)) ↔ Lowerable n
unfolding lower
lower-ok_iff n = (
  λ p. lower_as-Lowerable n.type n p.1,
  λ h. (lowered n, lower_as-lowered n.type n refl h, lowered-real n),
)
