-- ===== src/Correct/Blocks.antt =====
-- src/correct.c: the blocks of a function that has no `addr` instruction.
use qbt.Prelude.{
  ℕ, ◌≡◌, refl, ap, sym, ◌∙◌, inl, inr, List, [], ◌∷◌, false, Bool-cases, ok, ok-injective, bind-ok,
  ◌*◌, length, All, All-append,
}
use qbt.Prelude.Int.{ℤ}
use qbt.Nodes.{Val, noclass, is_imm, is_ref, InsnType, ValType, Blk, Fn}
use qbt.Correct.{Correcting, correct_insns, correct_cmp, correct_blk, correct_blks, correct}
use qbt.Correct.Expand.{spilled, expand_all, NoAddr}
use qbt.Correct.Loop.{correct_insns-expand_all}
use qbt.Correct.Pattern.{Patterned, copy-Patterned, expand_all-Patterned}

-- No instruction takes an address, and the branch has no reference first.
pub record Addressless (b : Blk) : Type 0 where
  pub insns : All NoAddr b.insns
  pub cmp0 : is_ref b.cmp0 ≡ false

pub record Corrected (b : Blk) : Type 0 where
  pub insns : All Patterned b.insns
  pub cmp0 : is_imm b.cmp0 ≡ false
  pub cmp1 : is_imm b.cmp1 ≡ false

correct_cmp-ok :
    (c v : Val) (s : Correcting)
    → is_ref v ≡ false
    → All Patterned s.insns
    → All Patterned (correct_cmp c v s).1.insns
      × ((is_imm (correct_cmp c v s).0 ≡ false)
          × ((correct_cmp c v s).1.addrs ≡ s.addrs)
          × (is_ref c ≡ false → is_ref (correct_cmp c v s).0 ≡ false))
unfolding correct_cmp
correct_cmp-ok c v s e h = elim (Bool-cases (is_imm c)) [
  | inl m ↦ rw m (
    All-append Patterned s.insns (spilled InsnType.copy s.ri v ∷ []) h
        (copy-Patterned s.ri v e, tt),
    (refl, refl, λ _. refl),
  )
  | inr m ↦ rw m (h, (m, refl, λ r. r))
]

correct_blk-ok :
    (b : Blk) (ri : ℕ)
    → Addressless b
    → (c : Blk) × (last : ℕ) × (correct_blk b [] ri ≡ ok (c, [], last)) × Corrected c
unfolding correct_blk
correct_blk-ok b ri h =
    let run = correct_insns-expand_all b.insns ri h.insns in
    let s : Correcting = record {
      insns = (expand_all b.insns ri).0;
      addrs = [];
      ri = (expand_all b.insns ri).1;
    } in
    let first = correct_cmp b.cmp0 b.cmp0 s in
    let second = correct_cmp b.cmp1 first.0 first.1 in
    let (h1, (m1, a1, r1)) =
      correct_cmp-ok b.cmp0 b.cmp0 s h.cmp0 (expand_all-Patterned b.insns ri) in
    let (h2, (m2, a2, r2)) = correct_cmp-ok b.cmp1 first.0 first.1 (r1 h.cmp0) h1 in
    (
      record b { insns = second.1.insns; cmp0 = first.0; cmp1 = second.0 },
      second.1.ri,
      rw run (
          ap
            (λ l. ok (
              record b { insns = second.1.insns; cmp0 = first.0; cmp1 = second.0 },
              l,
              second.1.ri,
            ))
            (a2 ∙ a1)),
      record { insns = h2; cmp0 = m1; cmp1 = m2 },
    )

-- The same but for the code.
abbrev pub Alike : Blk → Blk → Type 0
Alike b c =
    record c { insns = []; cmp0 = noclass; cmp1 = noclass }
    ≡ record b { insns = []; cmp0 = noclass; cmp1 = noclass }

abbrev pub Alikes : List Blk → List Blk → Type 0
Alikes [] [] = Unit
Alikes (b ∷ bs) (c ∷ cs) = Alike b c × Alikes bs cs
Alikes _ _ = ⊥

correct_blk-Alike :
    (b c : Blk) (ri last : ℕ) (addrs : List Val)
    → correct_blk b [] ri ≡ ok (c, addrs, last)
    → Alike b c
unfolding correct_blk
correct_blk-Alike b c ri last addrs e =
    let (s, e1, r1) =
      bind-ok
        (correct_insns (16 * length b.insns) 0 (record { insns = b.insns; addrs = []; ri = ri })) _
        e in
    ap (λ t. record t.0 { insns = []; cmp0 = noclass; cmp1 = noclass }) (sym (ok-injective r1))

correct_blks-ok :
    (bs : List Blk) (ri : ℕ)
    → All Addressless bs
    → (cs : List Blk) × (last : ℕ) × (correct_blks bs [] ri ≡ ok (cs, last))
      × All Corrected cs
      × Alikes bs cs
unfolding correct_blks
correct_blks-ok [] ri h = ([], ri, refl, tt, tt)
correct_blks-ok (b ∷ bs) ri (hb, h) =
    let (c, r1, e1, hc) = correct_blk-ok b ri hb in
    let (cs, r2, e2, hcs, h2) = correct_blks-ok bs r1 h in
    (c ∷ cs, r2, rw (e1, e2) refl, (hc, hcs), (correct_blk-Alike b c ri r1 [] e1, h2))

-- If a function has no `addr` instruction and no branch with a reference first, `correct` ends and
-- succeeds. Every instruction follows the pattern, no branch has an immediate, and the blocks are
-- those of the function, in order, with nothing changed but instructions and branch operands.
pub correct-ok :
    (f : Fn) (ri : ℕ)
    → All Addressless f.blks
    → (bs : List Blk) × (last : ℕ) × (correct f ri ≡ ok (record f { blks = bs }, last))
      × All Corrected bs
      × Alikes f.blks bs
unfolding correct
correct-ok f ri h =
    let (bs, last, e, corrected, alike) = correct_blks-ok f.blks ri h in
    (bs, last, rw e refl, corrected, alike)

-- In a block with no `addr` instruction and no reference first in the branch, an immediate that the
-- branch has second is lost: the pass succeeds, and whatever the immediate is, the result is the same.
pub correct_blk-cmp1_lost :
    (b : Blk) (ri : ℕ) (v w : ℤ) (t u : ValType)
    → Addressless b
    → (c : Blk) × (last : ℕ) × (correct_blk (record b { cmp1 = Val.imm v t }) [] ri
        ≡ ok (c, [], last))
      × (correct_blk (record b { cmp1 = Val.imm w u }) [] ri ≡ ok (c, [], last))
unfolding correct_blk correct_cmp
correct_blk-cmp1_lost b ri v w t u h =
    let (c, last, e, _) =
      correct_blk-ok (record b { cmp1 = Val.imm v t }) ri
        (record { insns = h.insns; cmp0 = h.cmp0 }) in
    (c, last, e, e)
