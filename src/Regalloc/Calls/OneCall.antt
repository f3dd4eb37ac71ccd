-- ===== src/Regalloc/Calls/OneCall.antt =====
-- One call of a block: what `do_call_saves` makes of the instructions around it.
use native.Mathlib.Nat.{zero-add}
use mathlib.Core.List.{append_assoc}
use qbt.Prelude.{
  ℕ, suc, ◌+◌, ◌≡◌, refl, ap, sym, ◌∙◌, List, [], ◌∷◌, ◌++◌, ok, arith, ltb, length, length-append,
  if◌then◌else◌, All,
}
use qbt.Nodes.{Val, Insn, Blk}
use qbt.Regalloc.Lifetimes.{Lifetime}
use qbt.Regalloc.Scan.{build_active_between, build_reserved}
use qbt.Regalloc.Calls.{save_call, save_calls, do_call_saves}
use qbt.Regalloc.Calls.Place.{IsSetup, IsTeardown, IsCall, EndsPlain, StartsPlain}
use qbt.Regalloc.Calls.Group.{IsReg, saves, restores, save_all-saves, restore_all-restores}

positive : (n : ℕ) → (if ltb 0 n then n else 0) ≡ n
positive n = ground arith

module _ (b : Blk) (lifetimes : List Lifetime) (rmap reserved : List Val) (pre setup : List Insn)
    (call : Insn) (teardown post : List Insn) where
  -- In a block with one call, set up and taken down by the flagged instructions around it, the
  -- caller-save registers that are reserved over the call are saved in front of the setup, each in
  -- a slot of its own, and restored behind the takedown; the count is the number of slots.
  pub do_call_saves-one_call :
      b.insns ≡ pre ++ (setup ++ call ∷ (teardown ++ post))
      → EndsPlain pre
      → All IsSetup setup
      → IsSetup call
      → IsCall call
      → IsTeardown call
      → All IsTeardown teardown
      → StartsPlain post
      → All IsReg reserved
      → build_reserved
          (build_active_between [] lifetimes
            (suc (length pre + length setup))
            (suc (length pre + length setup)))
          rmap
        ≡ ok reserved
      → do_call_saves b lifetimes rmap (suc (length pre + length setup) ∷ [])
        ≡ ok (
          record b {
            insns =
                pre
                ++ (saves 0 reserved ++ (setup ++ call ∷ (teardown ++ restores 0 reserved post)));
          },
          length (saves 0 reserved),
        )
  unfolding do_call_saves save_calls save_call
  do_call_saves-one_call whole plain hs cs c ct ht starts regs active =
      let place = suc (length pre + length setup) in
      let front = pre ++ (saves 0 reserved ++ setup) in
      let regroup : (ys : List Insn) → pre ++ (saves 0 reserved ++ (setup ++ ys)) ≡ front ++ ys =
        λ ys.
          ap (λ t. pre ++ t) (sym (append_assoc (saves 0 reserved) setup ys))
          ∙ sym (append_assoc pre (saves 0 reserved ++ setup) ys) in
      let long : place + length (saves 0 reserved) ≡ suc (length front) = omega (
        arith,
        length-append pre (saves 0 reserved ++ setup),
        length-append (saves 0 reserved) setup,
      ) in
      rw
        (
          whole,
          active,
          save_all-saves reserved pre setup call (teardown ++ post) place 0 0 regs plain hs cs c
              (omega arith),
          regroup (call ∷ (teardown ++ post)),
        )
        (rw (
          zero-add (length (saves 0 reserved)),
          long,
          restore_all-restores reserved front teardown post call (suc (length front))
              (length (saves 0 reserved)) 0 regs ht ct c starts refl,
          zero-add (length (saves 0 reserved)),
          positive (length (saves 0 reserved)),
          regroup (call ∷ (teardown ++ restores 0 reserved post)),
        ))
