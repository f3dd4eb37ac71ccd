-- ===== src/Asm/Select/Subtract.antt =====
-- src/asm.c: subtraction of a constant, as the addition of a constant.
use qbt.Prelude.{ℕ, suc, ◌≤◌, ◌≡◌, ◌↔◌, refl, [], ◌∷◌, ok, true, leb, arith}
use qbt.Prelude.Int.{ℤ, pos, negsuc, neg}
use qbt.Nodes.{InsnType, reg, imm, ValType, Insn, Fn}
use qbt.Asm.Syntax.{x, addi, rname}
use qbt.Asm.Select.{output_insn, output_sub, sub_immediate}

abbrev pub subtraction : Insn → ℕ → ℕ → ℤ → ValType → Insn
subtraction n d a v t = record n { type = InsnType.sub; out = reg d; in0 = reg a; in1 = imm v t }

abbrev pub minus : ℤ → ℤ
minus (pos v) = neg v
minus (negsuc v) = pos (suc v)

abbrev pub IsNonneg : ℤ → Type 0
IsNonneg (pos v) = Unit
IsNonneg (negsuc v) = ⊥

sub_immediate-minus : (v : ℤ) → (sub_immediate v ≡ minus v) ↔ IsNonneg v
sub_immediate-minus (pos v) = (λ e. tt, λ h. refl)
sub_immediate-minus (negsuc v) = (λ e. absurd cc, λ h. absurd h)

-- Between registers, the subtraction of a constant is the addition of one, which is the negative
-- of the first exactly when that is not negative.
pub output_insn-sub_iff :
    (f : Fn) (n : Insn) (d a : ℕ) (v : ℤ) (t : ValType)
    → d ≤ 80
    → a ≤ 80
    → (k : ℤ) × (output_insn f (subtraction n d a v t) ≡ ok (addi (x d) (x a) k ∷ []))
      × ((k ≡ minus v) ↔ IsNonneg v)
unfolding output_insn output_sub rname
output_insn-sub_iff f n d a v t ld la =
    let dt : leb d 80 ≡ true = ground arith in
    let at : leb a 80 ≡ true = ground arith in
    (sub_immediate v, rw (dt, at) refl, sub_immediate-minus v)
