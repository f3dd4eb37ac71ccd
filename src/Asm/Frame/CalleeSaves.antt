-- ===== src/Asm/Frame/CalleeSaves.antt =====
-- src/asm.c: the loops of `save_state` and `restore_state` over the callee-save registers.
use qbt.Prelude.{
  ℕ, zero, suc, ◌+◌, ◌-◌, ◌*◌, ◌<◌, ◌≤◌, ◌≡◌, ◌≢◌, refl, ap, sym, ◌∙◌, inl, inr, Bool-cases,
  write_self, write-ne, arith, ◌==◌,
}
use qbt.Prelude.Int.{neg}
use qbt.Abi.Regs.{rfp, save_reg}
use qbt.Asm.Syntax.{Name, Width, st, ld}
use qbt.Asm.Frame.{callee_save_fploc, callee_saves}
use qbt.Asm.Frame.Machine.{Machine, displace, step, run}

pub displace-neg : (a n : ℕ) → displace a (neg n) ≡ a - n
displace-neg a zero = omega arith
displace-neg a (suc n) = refl

-- The address of the `i`th callee-save register below `top`.
abbrev pub place : ℕ → ℕ → ℕ
place top i = top - (9 + 3 * i)

place-callee : (top i : ℕ) → displace top (neg (callee_save_fploc i)) ≡ place top i
unfolding callee_save_fploc
place-callee top i = displace-neg top (callee_save_fploc i) ∙ omega arith

pub stores-regs : (i k : ℕ) (m : Machine) → (run (callee_saves st i k) m).regs ≡ m.regs
unfolding callee_saves
stores-regs i zero m = refl
stores-regs i (suc k) m =
    stores-regs (suc i) k (step (st Width.w (Name.s i) (neg (callee_save_fploc i)) Name.fp) m)

-- Words above the first place are kept.
pub stores-above :
    (i k : ℕ) (m : Machine) (a : ℕ)
    → 9 + 3 * (i + k) ≤ m.regs rfp + 3
    → m.regs rfp < a + (9 + 3 * i)
    → (run (callee_saves st i k) m).words a ≡ m.words a
unfolding callee_saves
stores-above i zero m a fits above = refl
stores-above i (suc k) m a fits above =
    let next = step (st Width.w (Name.s i) (neg (callee_save_fploc i)) Name.fp) m in
    let other : a ≢ displace (m.regs rfp) (neg (callee_save_fploc i)) =
      λ e. ground (arith, e ∙ place-callee (m.regs rfp) i) in
    stores-above (suc i) k next a (omega arith) (omega arith)
    ∙ write-ne m.words (displace (m.regs rfp) (neg (callee_save_fploc i))) a (m.regs (save_reg i))
        other

pub stores-words :
    (i k j : ℕ) (m : Machine)
    → 9 + 3 * (i + k) ≤ m.regs rfp + 3
    → i ≤ j
    → j < i + k
    → (run (callee_saves st i k) m).words (place (m.regs rfp) j) ≡ m.regs (save_reg j)
unfolding callee_saves
stores-words i (suc k) j m fits le lt =
    let next = step (st Width.w (Name.s i) (neg (callee_save_fploc i)) Name.fp) m in
    elim (Bool-cases (i == j)) [
      | inl e ↦
          let same : i ≡ j = ground arith in
          ap (λ t. (run (callee_saves st (suc i) k) next).words (place (m.regs rfp) t)) (sym same)
          ∙ stores-above (suc i) k next (place (m.regs rfp) i) (omega arith) (omega arith)
          ∙ ap (λ a. next.words a) (sym (place-callee (m.regs rfp) i))
          ∙ write_self m.words (displace (m.regs rfp) (neg (callee_save_fploc i)))
              (m.regs (save_reg i))
          ∙ ap (λ t. m.regs (save_reg t)) same
      | inr e ↦ stores-words (suc i) k j next (omega arith) (ground arith) (omega arith)
    ]
stores-words i zero j m fits le lt = absurd (omega arith)

save_reg-injective : (i j : ℕ) → save_reg i ≡ save_reg j → i ≡ j
save_reg-injective i j e = ground arith

pub loads-words : (i k : ℕ) (m : Machine) → (run (callee_saves ld i k) m).words ≡ m.words
unfolding callee_saves
loads-words i zero m = refl
loads-words i (suc k) m =
    loads-words (suc i) k (step (ld Width.w (Name.s i) (neg (callee_save_fploc i)) Name.fp) m)

pub loads-other :
    (i k n : ℕ) (m : Machine)
    → ((j : ℕ) → i ≤ j → n ≢ save_reg j)
    → (run (callee_saves ld i k) m).regs n ≡ m.regs n
unfolding callee_saves
loads-other i zero n m h = refl
loads-other i (suc k) n m h =
    let a = displace (m.regs rfp) (neg (callee_save_fploc i)) in
    loads-other (suc i) k n (step (ld Width.w (Name.s i) (neg (callee_save_fploc i)) Name.fp) m)
      (λ j le. h j (omega arith))
    ∙ write-ne m.regs (save_reg i) n (m.words a) (h i (omega arith))

pub rfp-save_reg : (j : ℕ) → rfp ≢ save_reg j
rfp-save_reg j e = ground arith

pub loads-regs :
    (i k j : ℕ) (m : Machine)
    → i ≤ j
    → j < i + k
    → (run (callee_saves ld i k) m).regs (save_reg j) ≡ m.words (place (m.regs rfp) j)
unfolding callee_saves
loads-regs i (suc k) j m le lt =
    let a = displace (m.regs rfp) (neg (callee_save_fploc i)) in
    let next = step (ld Width.w (Name.s i) (neg (callee_save_fploc i)) Name.fp) m in
    elim (Bool-cases (i == j)) [
      | inl e ↦
          let same : i ≡ j = ground arith in
          ap (λ t. (run (callee_saves ld (suc i) k) next).regs (save_reg t)) (sym same)
          ∙ loads-other (suc i) k (save_reg i) next
              (λ t above clash. absurd (omega (arith, save_reg-injective i t clash)))
          ∙ write_self m.regs (save_reg i) (m.words a)
          ∙ ap m.words (place-callee (m.regs rfp) i)
          ∙ ap (λ t. m.words (place (m.regs rfp) t)) same
      | inr e ↦
          loads-regs (suc i) k j next (ground arith) (omega arith)
          ∙ ap (λ top. m.words (place top j))
              (write-ne m.regs (save_reg i) rfp (m.words a) (rfp-save_reg i))
    ]
loads-regs i zero j m le lt = absurd (omega arith)
