-- ===== src/Regalloc/Calls/Group.antt =====
-- The saves in front of a call and the restores behind it, and the two loops that write them.
use native.Mathlib.Nat.{add-zero}
use mathlib.Core.List.{append_assoc}
use qbt.Prelude.{
  ℕ, suc, ◌+◌, ◌-◌, ◌≡◌, refl, List, [], ◌∷◌, ◌++◌, Bool, true, Bool-cases, ◌&&◌, ◌||◌, inl, inr,
  Result, ok, arith, leb, length, length-append, if◌then◌else◌, All,
}
use qbt.Nodes.{Val, is_reg, r_of, Insn}
use qbt.Regalloc.Calls.{
  callee_save, save_insn, restore_insn, Saving, save_one, save_all, restore_one, restore_all,
}
use qbt.Regalloc.Calls.Place.{
  IsSetup, IsTeardown, IsCall, EndsPlain, ends, StartsPlain, insn_insert_before_call-place,
  insn_insert_after_call-place,
}

abbrev pub IsReg : Val → Type 0
IsReg r = is_reg r ≡ true

-- The callee restores the register.
abbrev pub preserved : Val → Bool
preserved r = (leb 18 (r_of r) && leb (r_of r) 24) || (leb 63 (r_of r) && leb (r_of r) 79)

-- The saves, in the order of the registers, with slots from `c` on.
unfoldable pub saves : ℕ → List Val → List Insn
saves c [] = []
saves c (r ∷ rs) = if preserved r then saves c rs else save_insn r c ∷ saves (suc c) rs

-- The restores in front of what follows, in the opposite order.
unfoldable pub restores : ℕ → List Val → List Insn → List Insn
restores c [] post = post
restores c (r ∷ rs) post =
    if preserved r then restores c rs post else restores (suc c) rs (restore_insn r c ∷ post)

callee_save-preserved : (r : Val) → IsReg r → callee_save r ≡ ok (preserved r)
unfolding callee_save
callee_save-preserved r h = rw h

-- The state with `k` more instructions written.
abbrev pub written : List Insn → ℕ → ℕ → ℕ → Saving
written insns k offset counter = record {
  insns = insns;
  offset = offset + k;
  counter = counter + k;
}

written-suc :
    {xs ys : List Insn}
    → xs ≡ ys
    → (k offset counter : ℕ)
    → Result.ok (written xs k (suc offset) (suc counter)) ≡ ok (written ys (suc k) offset counter)
written-suc {ys} e k offset counter =
    let move : (n : ℕ) → suc n + k ≡ n + suc k = λ n. omega arith in
    rw (e, move offset, move counter)

save_one-place :
    (pre setup : List Insn) (call : Insn) (rest : List Insn) (r : Val) (call_pos offset counter : ℕ)
    → EndsPlain pre
    → All IsSetup setup
    → IsSetup call
    → IsCall call
    → call_pos + offset ≡ suc (length pre + length setup)
    → save_one r call_pos
        (record { insns = pre ++ (setup ++ call ∷ rest); offset = offset; counter = counter })
      ≡ ok (record {
        insns = (pre ++ save_insn r counter ∷ []) ++ (setup ++ call ∷ rest);
        offset = suc offset;
        counter = suc counter;
      })
unfolding save_one
save_one-place pre setup call rest r call_pos offset counter plain h c t e =
    let p : call_pos + offset - 1 ≡ length pre + length setup = omega arith in
    rw (
      p,
      insn_insert_before_call-place pre setup call rest (save_insn r counter) plain h c t,
      append_assoc pre (save_insn r counter ∷ []) (setup ++ call ∷ rest),
    )

pub save_all-saves :
    (rs : List Val) (pre setup : List Insn) (call : Insn) (rest : List Insn)
    (call_pos offset counter : ℕ)
    → All IsReg rs
    → EndsPlain pre
    → All IsSetup setup
    → IsSetup call
    → IsCall call
    → call_pos + offset ≡ suc (length pre + length setup)
    → save_all rs call_pos
        (record { insns = pre ++ (setup ++ call ∷ rest); offset = offset; counter = counter })
      ≡ ok (
          written
            (pre ++ (saves counter rs ++ (setup ++ call ∷ rest)))
            (length (saves counter rs))
            offset
            counter)
unfolding save_all saves
save_all-saves [] pre setup call rest call_pos offset counter hr plain h c t e =
    rw (add-zero offset, add-zero counter)
save_all-saves (r ∷ rs) pre setup call rest call_pos offset counter (hr, hs) plain h c t e =
    elim (Bool-cases (preserved r)) [
      | inl k ↦
          rw (callee_save-preserved r hr, k)
            (save_all-saves rs pre setup call rest call_pos offset counter hs plain h c t e)
      | inr k ↦
          let next = pre ++ save_insn r counter ∷ [] in
          let long : length next ≡ suc (length pre) =
            omega (arith, length-append pre (save_insn r counter ∷ [])) in
          rw
            (
              callee_save-preserved r hr,
              k,
              save_one-place pre setup call rest r call_pos offset counter plain h c t e,
              save_all-saves rs next setup call rest call_pos (suc offset) (suc counter) hs
                  (ends pre (save_insn r counter) refl) h c t (omega arith),
            )
            (written-suc
              (append_assoc pre (save_insn r counter ∷ [])
                (saves (suc counter) rs ++ (setup ++ call ∷ rest)))
              (length (saves (suc counter) rs)) offset counter)
    ]

restore_one-place :
    (front teardown post : List Insn) (call : Insn) (r : Val) (call_pos offset counter : ℕ)
    → All IsTeardown teardown
    → IsTeardown call
    → IsCall call
    → StartsPlain post
    → call_pos ≡ suc (length front)
    → restore_one r call_pos
        (record { insns = front ++ call ∷ (teardown ++ post); offset = offset; counter = counter })
      ≡ ok (record {
        insns = front ++ call ∷ (teardown ++ restore_insn r counter ∷ post);
        offset = suc offset;
        counter = suc counter;
      })
unfolding restore_one
restore_one-place front teardown post call r call_pos offset counter h c t plain e =
    let p : call_pos - 1 ≡ length front = omega arith in
    rw (
      p,
      insn_insert_after_call-place front teardown post call (restore_insn r counter) h c t plain,
    )

pub restore_all-restores :
    (rs : List Val) (front teardown post : List Insn) (call : Insn) (call_pos offset counter : ℕ)
    → All IsReg rs
    → All IsTeardown teardown
    → IsTeardown call
    → IsCall call
    → StartsPlain post
    → call_pos ≡ suc (length front)
    → restore_all rs call_pos
        (record { insns = front ++ call ∷ (teardown ++ post); offset = offset; counter = counter })
      ≡ ok (
          written
            (front ++ call ∷ (teardown ++ restores counter rs post))
            (length (saves counter rs))
            offset
            counter)
unfolding restore_all restores saves
restore_all-restores [] front teardown post call call_pos offset counter hr h c t plain e =
    rw (add-zero offset, add-zero counter)
restore_all-restores (r ∷ rs) front teardown post call call_pos offset counter (hr, hs) h c t plain
      e =
    elim (Bool-cases (preserved r)) [
      | inl k ↦
          rw (callee_save-preserved r hr, k)
            (restore_all-restores rs front teardown post call call_pos offset counter hs h c t plain
              e)
      | inr k ↦
          rw
            (
              callee_save-preserved r hr,
              k,
              restore_one-place front teardown post call r call_pos offset counter h c t plain e,
              restore_all-restores rs front teardown (restore_insn r counter ∷ post) call call_pos
                  (suc offset) (suc counter) hs h c t refl e,
            )
            (written-suc refl (length (saves (suc counter) rs)) offset counter)
    ]
