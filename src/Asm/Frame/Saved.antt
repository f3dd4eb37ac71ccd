-- ===== src/Asm/Frame/Saved.antt =====
-- src/asm.c: the prologue and the epilogue keep the caller's registers (`save_state`,
-- `restore_state`).
use qbt.Prelude.{
  ℕ, ◌+◌, ◌-◌, ◌*◌, ◌<◌, ◌≤◌, ◌≡◌, refl, ap, sym, ◌∙◌, Bool, true, false, List, [], ◌∷◌, ◌++◌,
  write, write_self, write-ne, arith, if◌then◌else◌, ◌==◌,
}
use qbt.Prelude.Int.{neg}
use qbt.Nodes.{Fn}
use qbt.Abi.Regs.{rsp, rfp, rra, save_reg}
use qbt.Asm.Syntax.{Name, Width, Line, st, ld, mv, addi}
use qbt.Asm.Frame.{frame_size, callee_saves, save_state, restore_state}
use qbt.Asm.Frame.Machine.{Machine, run, run-append}
use qbt.Asm.Frame.CalleeSaves.{
  place, stores-regs, stores-above, stores-words, loads-words, loads-other, loads-regs,
  rfp-save_reg,
}

-- The lines before and behind the loops over the callee-save registers.
abbrev opening : Bool → ℕ → List Line
opening calls size =
    st Width.w Name.fp (neg 3) Name.sp
    ∷ mv Name.fp Name.sp
    ∷ ((if calls then st Width.w Name.ra (neg 6) Name.fp ∷ [] else [])
        ++ addi Name.sp Name.sp (neg size) ∷ [])

abbrev closing : Bool → List Line
closing calls =
    (if calls then ld Width.w Name.ra (neg 6) Name.fp ∷ [] else [])
    ++ mv Name.sp Name.fp ∷ ld Width.w Name.fp (neg 3) Name.fp ∷ []

save_state-parts :
    (f : Fn) (m : Machine)
    → run (save_state f) m
      ≡ run (callee_saves st 0 f.max_callee_save) (run (opening f.has_calls (frame_size f)) m)
unfolding save_state
save_state-parts f m = parts f.has_calls (frame_size f) (callee_saves st 0 f.max_callee_save)
  where
    parts :
        (calls : Bool) (size : ℕ) (loop : List Line)
        → run
            (st Width.w Name.fp (neg 3) Name.sp
              ∷ mv Name.fp Name.sp
              ∷ ((if calls then st Width.w Name.ra (neg 6) Name.fp ∷ [] else [])
                  ++ addi Name.sp Name.sp (neg size) ∷ loop))
            m
          ≡ run loop (run (opening calls size) m)
    parts true size loop = refl
    parts false size loop = refl

restore_state-parts :
    (f : Fn) (m : Machine)
    → run (restore_state f) m
      ≡ run (closing f.has_calls) (run (callee_saves ld 0 f.max_callee_save) m)
unfolding restore_state
restore_state-parts f m = run-append (callee_saves ld 0 f.max_callee_save) (closing f.has_calls) m

-- The callee-save registers are none of the three that the frame is made with.
save_reg-rsp : (j : ℕ) → (save_reg j == rsp) ≡ false
save_reg-rsp j = ground arith

save_reg-rfp : (j : ℕ) → (save_reg j == rfp) ≡ false
save_reg-rfp j = ground arith

save_reg-rra : (j : ℕ) → (save_reg j == rra) ≡ false
save_reg-rra j = ground arith

opening-regs :
    (calls : Bool) (size j : ℕ) (m : Machine)
    → (run (opening calls size) m).regs (save_reg j) ≡ m.regs (save_reg j)
opening-regs true size j m = rw (save_reg-rsp j, save_reg-rfp j) refl
opening-regs false size j m = rw (save_reg-rsp j, save_reg-rfp j) refl

opening-fp :
    (calls : Bool) (size : ℕ) (m : Machine) → (run (opening calls size) m).regs rfp ≡ m.regs rsp
opening-fp true size m = refl
opening-fp false size m = refl

opening-word_fp :
    (calls : Bool) (size : ℕ) (m : Machine)
    → 6 ≤ m.regs rsp
    → (run (opening calls size) m).words (m.regs rsp - 3) ≡ m.regs rfp
opening-word_fp true size m fits =
    write-ne (write m.words (m.regs rsp - 3) (m.regs rfp)) (m.regs rsp - 6) (m.regs rsp - 3)
      (m.regs rra) (λ e. omega arith)
    ∙ write_self m.words (m.regs rsp - 3) (m.regs rfp)
opening-word_fp false size m fits = write_self m.words (m.regs rsp - 3) (m.regs rfp)

opening-word_ra :
    (size : ℕ) (m : Machine) → (run (opening true size) m).words (m.regs rsp - 6) ≡ m.regs rra
opening-word_ra size m =
    write_self (write m.words (m.regs rsp - 3) (m.regs rfp)) (m.regs rsp - 6) (m.regs rra)

closing-sp : (calls : Bool) (m : Machine) → (run (closing calls) m).regs rsp ≡ m.regs rfp
closing-sp true m = refl
closing-sp false m = refl

closing-fp :
    (calls : Bool) (m : Machine) → (run (closing calls) m).regs rfp ≡ m.words (m.regs rfp - 3)
closing-fp true m = refl
closing-fp false m = refl

closing-ra : (m : Machine) → (run (closing true) m).regs rra ≡ m.words (m.regs rfp - 6)
closing-ra m = refl

closing-regs :
    (calls : Bool) (j : ℕ) (m : Machine)
    → (run (closing calls) m).regs (save_reg j) ≡ m.regs (save_reg j)
closing-regs true j m = rw (save_reg-rfp j, save_reg-rsp j, save_reg-rra j) refl
closing-regs false j m = rw (save_reg-rfp j, save_reg-rsp j) refl

-- The body leaves the frame pointer and the words in which the registers are saved.
abbrev pub Keeps : Fn → Machine → Machine → Type 0
Keeps f before after =
    (after.regs rfp ≡ before.regs rfp)
    × ((a : ℕ)
        → a < before.regs rfp
        → before.regs rfp ≤ a + (6 + 3 * f.max_callee_save)
        → after.words a ≡ before.words a)

module _ (f : Fn) (m : Machine) where
  saved-fp : (run (save_state f) m).regs rfp ≡ m.regs rsp
  saved-fp =
      let opened = run (opening f.has_calls (frame_size f)) m in
      ap (λ t. t.regs rfp) (save_state-parts f m)
      ∙ ap (λ r. r rfp) (stores-regs 0 f.max_callee_save opened)
      ∙ opening-fp f.has_calls (frame_size f) m

  saved-above :
      (a : ℕ)
      → frame_size f ≤ m.regs rsp
      → m.regs rsp < a + 9
      → (run (save_state f) m).words a ≡ (run (opening f.has_calls (frame_size f)) m).words a
  unfolding frame_size
  saved-above a room above =
      let opened = run (opening f.has_calls (frame_size f)) m in
      let fp = opening-fp f.has_calls (frame_size f) m in
      ap (λ t. t.words a) (save_state-parts f m)
      ∙ stores-above 0 f.max_callee_save opened a (omega (arith, fp)) (omega (arith, fp))

  saved-callee :
      (j : ℕ)
      → frame_size f ≤ m.regs rsp
      → j < f.max_callee_save
      → (run (save_state f) m).words (place (m.regs rsp) j) ≡ m.regs (save_reg j)
  unfolding frame_size
  saved-callee j room lt =
      let opened = run (opening f.has_calls (frame_size f)) m in
      let fp = opening-fp f.has_calls (frame_size f) m in
      ap (λ t. t.words (place (m.regs rsp) j)) (save_state-parts f m)
      ∙ ap (λ top. (run (callee_saves st 0 f.max_callee_save) opened).words (place top j)) (sym fp)
      ∙ stores-words 0 f.max_callee_save j opened (omega (arith, fp)) (omega arith) (omega arith)
      ∙ opening-regs f.has_calls (frame_size f) j m

module _ (f : Fn) (m after : Machine) where
  -- Where the stack has room for the frame, and the code between the prologue and the epilogue
  -- keeps the frame pointer and the saved words, the stack pointer, the frame pointer, the
  -- callee-save registers and, of a function with calls, the return address are the caller's again
  -- behind the epilogue.
  pub restore_state-save_state :
      frame_size f ≤ m.regs rsp
      → Keeps f (run (save_state f) m) after
      → ((run (restore_state f) after).regs rsp ≡ m.regs rsp)
        × ((run (restore_state f) after).regs rfp ≡ m.regs rfp)
        × (f.has_calls ≡ true → (run (restore_state f) after).regs rra ≡ m.regs rra)
        × ((j : ℕ)
            → j < f.max_callee_save
            → (run (restore_state f) after).regs (save_reg j) ≡ m.regs (save_reg j))
  unfolding frame_size
  restore_state-save_state room (keep_fp, keep_words) =
      let n = f.max_callee_save in
      let top = m.regs rsp in
      let calls = f.has_calls in
      let loaded = run (callee_saves ld 0 n) after in
      let at_end : (r : ℕ)
          → (run (restore_state f) after).regs r ≡ (run (closing calls) loaded).regs r =
        λ r. ap (λ t. t.regs r) (restore_state-parts f after) in
      let fp : after.regs rfp ≡ top = keep_fp ∙ saved-fp f m in
      let loaded_fp : loaded.regs rfp ≡ top =
        loads-other 0 n rfp after (λ j le. rfp-save_reg j) ∙ fp in
      let kept : (a : ℕ)
          → a < top
          → top ≤ a + (6 + 3 * n)
          → after.words a ≡ (run (save_state f) m).words a =
        λ a low high. keep_words a (omega (arith, saved-fp f m)) (omega (arith, saved-fp f m)) in
      let word : (k : ℕ)
          → 0 < k
          → k ≤ 6
          → loaded.words (loaded.regs rfp - k)
            ≡ (run (opening calls (frame_size f)) m).words (top - k) =
        λ k low high.
          ap (λ t. loaded.words (t - k)) loaded_fp
          ∙ ap (λ t. t (top - k)) (loads-words 0 n after)
          ∙ kept (top - k) (omega arith) (omega arith)
          ∙ saved-above f m (top - k) room (omega arith) in
      (
        at_end rsp ∙ closing-sp calls loaded ∙ loaded_fp,
        at_end rfp
            ∙ closing-fp calls loaded
            ∙ word 3 (omega arith) (omega arith)
            ∙ opening-word_fp calls (frame_size f) m (omega arith),
        λ c.
            at_end rra
            ∙ ap (λ b. (run (closing b) loaded).regs rra) c
            ∙ closing-ra loaded
            ∙ word 6 (omega arith) (omega arith)
            ∙ ap (λ b. (run (opening b (frame_size f)) m).words (top - 6)) c
            ∙ opening-word_ra (frame_size f) m,
        λ j lt.
            at_end (save_reg j)
            ∙ closing-regs calls j loaded
            ∙ loads-regs 0 n j after (omega arith) (omega arith)
            ∙ ap (λ t. after.words (place t j)) fp
            ∙ kept (place top j) (omega arith) (omega arith)
            ∙ saved-callee f m j room lt,
      )
