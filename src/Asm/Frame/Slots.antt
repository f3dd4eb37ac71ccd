-- ===== src/Asm/Frame/Slots.antt =====
-- src/asm.c: the places of the stack frame do not overlap.
use qbt.Prelude.{ℕ, ◌+◌, ◌<◌, ◌≤◌, ◌≢◌, refl, ap, ◌⊎◌, inl, inr, arith}
use qbt.Nodes.{Fn}
use qbt.Asm.Frame.{frame_size, callee_save_fploc, call_save_fploc, ra_fploc, fp_fploc}

-- The places that the function of the frame uses.
pub data Slot : Type 0 where
  fp ra : Slot
  callee call : ℕ → Slot

abbrev pub fploc : Fn → Slot → ℕ
fploc f Slot.fp = fp_fploc
fploc f Slot.ra = ra_fploc
fploc f (Slot.callee i) = callee_save_fploc i
fploc f (Slot.call i) = call_save_fploc f i

abbrev pub IsUsed : Fn → Slot → Type 0
IsUsed f (Slot.callee i) = i < f.max_callee_save
IsUsed f (Slot.call i) = i < f.max_call_save
IsUsed f _ = Unit

distinct : {A : Type 0} (c : ℕ → A) {i j : ℕ} → c i ≢ c j → i ≢ j
distinct c ne e = ne (ap c e)

fploc-inside : (f : Fn) (a : Slot) → IsUsed f a → (3 ≤ fploc f a) × (fploc f a ≤ frame_size f)
unfolding frame_size callee_save_fploc call_save_fploc
fploc-inside f Slot.fp u = (omega arith, omega arith)
fploc-inside f Slot.ra u = (omega arith, omega arith)
fploc-inside f (Slot.callee i) u = (omega arith, omega arith)
fploc-inside f (Slot.call i) u = (omega arith, omega arith)

abbrev pub Apart : ℕ → ℕ → Type 0
Apart m n = (m + 3 ≤ n) ⊎ (n + 3 ≤ m)

callee-Apart : (i j : ℕ) → i ≢ j → Apart (callee_save_fploc i) (callee_save_fploc j)
unfolding callee_save_fploc
callee-Apart i j ne = ground arith

call-Apart : (f : Fn) (i j : ℕ) → i ≢ j → Apart (call_save_fploc f i) (call_save_fploc f j)
unfolding call_save_fploc
call-Apart f i j ne = ground arith

fploc-disjoint :
    (f : Fn) (a b : Slot) → IsUsed f a → IsUsed f b → a ≢ b → Apart (fploc f a) (fploc f b)
unfolding callee_save_fploc call_save_fploc
fploc-disjoint f Slot.fp Slot.fp ua ub ne = absurd (ne refl)
fploc-disjoint f Slot.ra Slot.ra ua ub ne = absurd (ne refl)
fploc-disjoint f Slot.fp Slot.ra ua ub ne = inl (omega arith)
fploc-disjoint f Slot.ra Slot.fp ua ub ne = inr (omega arith)
fploc-disjoint f Slot.fp (Slot.callee i) ua ub ne = inl (omega arith)
fploc-disjoint f Slot.ra (Slot.callee i) ua ub ne = inl (omega arith)
fploc-disjoint f Slot.fp (Slot.call i) ua ub ne = inl (omega arith)
fploc-disjoint f Slot.ra (Slot.call i) ua ub ne = inl (omega arith)
fploc-disjoint f (Slot.callee i) Slot.fp ua ub ne = inr (omega arith)
fploc-disjoint f (Slot.callee i) Slot.ra ua ub ne = inr (omega arith)
fploc-disjoint f (Slot.call i) Slot.fp ua ub ne = inr (omega arith)
fploc-disjoint f (Slot.call i) Slot.ra ua ub ne = inr (omega arith)
fploc-disjoint f (Slot.callee i) (Slot.call j) ua ub ne = inl (omega arith)
fploc-disjoint f (Slot.call i) (Slot.callee j) ua ub ne = inr (omega arith)
fploc-disjoint f (Slot.callee i) (Slot.callee j) ua ub ne =
    callee-Apart i j (distinct Slot.callee ne)
fploc-disjoint f (Slot.call i) (Slot.call j) ua ub ne = call-Apart f i j (distinct Slot.call ne)

-- A word is three trytes. A place that the function uses is inside the frame, and the words at two
-- different places do not overlap.
pub fploc-Apart :
    (f : Fn) (a b : Slot)
    → IsUsed f a
    → IsUsed f b
    → a ≢ b
    → (3 ≤ fploc f a) × (fploc f a ≤ frame_size f) × Apart (fploc f a) (fploc f b)
fploc-Apart f a b ua ub ne =
    let (low, high) = fploc-inside f a ua in (low, high, fploc-disjoint f a b ua ub ne)
