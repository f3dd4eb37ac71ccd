-- ===== src/Asm/Frame.antt =====
-- src/asm.c: the stack frame, its size and the places in it, counted downwards from the frame
-- pointer.
pub mod Slots
pub mod Machine
pub mod CalleeSaves
pub mod Saved
use qbt.Prelude.{ℕ, zero, suc, ◌+◌, ◌*◌, List, [], ◌∷◌, ◌++◌, Bool, if◌then◌else◌}
use qbt.Prelude.Int.{ℤ, pos, negsuc, neg, diff}
use qbt.Nodes.{Fn}
use qbt.Asm.Syntax.{Name, s, sp, fp, ra, Width, Line, st, ld, mv, addi}

unfoldable pub frame_size : Fn → ℕ
frame_size f = 3 * f.max_callee_save + 3 * f.max_call_save + 3 * 2

unfoldable pub callee_save_fploc : ℕ → ℕ
callee_save_fploc i = 3 * (i + 1) + 3 * 2

unfoldable pub call_save_fploc : Fn → ℕ → ℕ
call_save_fploc f i = 3 * (f.max_callee_save + 1) + 3 * i + 3 * 2

abbrev pub ra_fploc : ℕ
ra_fploc = 6

abbrev pub fp_fploc : ℕ
fp_fploc = 3

-- The offset that is printed for the 64-bit number in a save or restore.
unfoldable pub call_save_offset : Fn → ℤ → ℤ
call_save_offset f (pos i) = neg (call_save_fploc f i)
call_save_offset f (negsuc i) = diff (3 * suc i) (call_save_fploc f 0)

-- for (i; i < n; ++i), in `k` rounds
unfoldable pub callee_saves : (Width → Name → ℤ → Name → Line) → ℕ → ℕ → List Line
callee_saves op i zero = []
callee_saves op i (suc k) =
    op Width.w (s i) (neg (callee_save_fploc i)) fp ∷ callee_saves op (suc i) k

unfoldable pub save_state : Fn → List Line
save_state f =
    st Width.w fp (neg fp_fploc) sp
    ∷ mv fp sp
    ∷ ((if f.has_calls then st Width.w ra (neg ra_fploc) fp ∷ [] else [])
        ++ addi sp sp (neg (frame_size f)) ∷ callee_saves st 0 f.max_callee_save)

unfoldable pub restore_state : Fn → List Line
restore_state f =
    callee_saves ld 0 f.max_callee_save
    ++ ((if f.has_calls then ld Width.w ra (neg ra_fploc) fp ∷ [] else [])
        ++ mv sp fp ∷ ld Width.w fp (neg fp_fploc) fp ∷ [])
