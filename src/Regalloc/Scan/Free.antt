-- ===== src/Regalloc/Scan/Free.antt =====
-- The search for a free register (`reg_free`, `find_free_reg`).
use qbt.Prelude.{
  ℕ, zero, suc, ◌<◌, ◌≤◌, ◌≡◌, refl, ap, ◌≢◌, inl, inr, List, [], ◌∷◌, Bool, true, false, not, ◌&&◌,
  some, ok, arith, ◌==◌, length, get_elem?, Bool-cases, Has,
}
use qbt.Nodes.{Val, reg, same_val}
use qbt.Abi.Regs.{tr_map}
use qbt.Regalloc.Scan.{clashes, reg_free, first_free, find_free_reg}

-- A register that does not clash is not among the reserved ones.
pub not-Has_of_clashes :
    (res : List Val) (r : ℕ) → clashes res (reg r) ≡ false → Has (reg r) res → ⊥
unfolding clashes same_val
not-Has_of_clashes (v ∷ res) r h (inl e) = ground arith
not-Has_of_clashes (v ∷ res) r h (inr m) = elim (Bool-cases (same_val v (reg r))) [
  | inl same ↦ absurd (ground arith)
  | inr other ↦ not-Has_of_clashes res r (ground arith) m
]
not-Has_of_clashes [] r h m = m

-- Registers that are all different from `r`.
abbrev pub Avoids : ℕ → List Val → Type 0
Avoids r [] = Unit
Avoids r (v ∷ vs) = ((n : ℕ) × (v ≡ reg n) × (n ≢ r)) × Avoids r vs

clashes-false : (res : List Val) (r : ℕ) → Avoids r res → clashes res (reg r) ≡ false
unfolding clashes same_val
clashes-false [] r h = refl
clashes-false (v ∷ res) r ((n, e, ne), h) =
    let differs : (n == r) ≡ false = ground arith in rw (e, differs) (clashes-false res r h)

-- The search takes the first register that is free: one at place `c` at the latest, if that is free.
pub first_free-ok :
    (regs : List ℕ) (res : List Val) (c r : ℕ)
    → get_elem? regs c ≡ some r
    → Avoids r res
    → (f p : ℕ) × (first_free regs res ≡ ok (reg f))
      × (get_elem? regs p ≡ some f)
      × (p ≤ c)
      × (clashes res (reg f) ≡ false)
unfolding first_free reg_free
first_free-ok [] res c r at free = absurd (ground arith)
first_free-ok (x ∷ regs) res zero r at free =
    let works : clashes res (reg x) ≡ false =
      let same : x ≡ r = ground arith in rw same (clashes-false res r free) in
    (x, 0, rw works, refl, omega arith, works)
first_free-ok (x ∷ regs) res (suc c) r at free = elim (Bool-cases (clashes res (reg x))) [
  | inr works ↦ (x, 0, rw works, refl, omega arith, works)
  | inl taken ↦
      let (f, p, found, place, early, works) = first_free-ok regs res c r at free in
      (f, suc p, rw taken found, place, omega arith, works)
]

-- No register stands twice in `tr_map`.
differs_from : ℕ → List ℕ → Bool
differs_from r [] = true
differs_from r (x ∷ xs) = not (x == r) && differs_from r xs

distinct : List ℕ → Bool
unfolding differs_from
distinct [] = true
distinct (x ∷ xs) = differs_from x xs && distinct xs

differs_from-ne :
    (r : ℕ) (xs : List ℕ) (p : ℕ) → differs_from r xs ≡ true → get_elem? xs p ≡ some r → ⊥
unfolding differs_from
differs_from-ne r (x ∷ xs) zero d at = ground arith
differs_from-ne r (x ∷ xs) (suc p) d at = differs_from-ne r xs p (ground arith) at
differs_from-ne r [] p d at = cc

distinct-place :
    (xs : List ℕ) (p q : ℕ) {r : ℕ}
    → distinct xs ≡ true
    → get_elem? xs p ≡ some r
    → get_elem? xs q ≡ some r
    → p ≡ q
unfolding distinct
distinct-place (x ∷ xs) zero zero d hp hq = refl
distinct-place (x ∷ xs) zero (suc q) {r} d hp hq =
    absurd (differs_from-ne x xs q (ground arith) (ground arith))
distinct-place (x ∷ xs) (suc p) zero d hp hq =
    absurd (differs_from-ne x xs p (ground arith) (ground arith))
distinct-place (x ∷ xs) (suc p) (suc q) d hp hq =
    ap suc (distinct-place xs p q (ground arith) hp hq)
distinct-place [] p q d hp hq = cc

tr_map-distinct : distinct tr_map ≡ true
unfolding distinct tr_map
tr_map-distinct = refl

pub tr_map-place :
    (p q : ℕ) {r : ℕ} → get_elem? tr_map p ≡ some r → get_elem? tr_map q ≡ some r → p ≡ q
tr_map-place p q hp hq = distinct-place tr_map p q tr_map-distinct hp hq

in_range : (xs : List ℕ) (c : ℕ) → c < length xs → (r : ℕ) × (get_elem? xs c ≡ some r)
in_range (x ∷ xs) zero h = (x, refl)
in_range (x ∷ xs) (suc c) h = in_range xs c (omega arith)
in_range [] c h = absurd (omega arith)

length-tr_map : length tr_map ≡ 72
unfolding tr_map
length-tr_map = refl

-- Every reserved value is a register of the first `c` places.
abbrev pub Below : ℕ → List Val → Type 0
Below c [] = Unit
Below c (v ∷ vs) = ((n p : ℕ) × (v ≡ reg n) × (get_elem? tr_map p ≡ some n) × (p < c)) × Below c vs

Avoids-of_Below :
    (c r : ℕ) (res : List Val) → get_elem? tr_map c ≡ some r → Below c res → Avoids r res
Avoids-of_Below c r [] at h = tt
Avoids-of_Below c r (v ∷ vs) at ((n, p, e, place, lt), h) =
    ((n, e, λ same. not_same same), Avoids-of_Below c r vs at h)
  where
    not_same : n ≡ r → ⊥
    not_same same = let q : p ≡ c = tr_map-place p c {r = n} place (rw same at) in omega arith

-- While the reserved registers are among the first `c` of the array and the array is longer, the
-- search finds a register among the first `c + 1` that is not reserved.
pub find_free_reg-ok :
    (res : List Val) (c : ℕ)
    → c < 72
    → Below c res
    → (f p : ℕ) × (find_free_reg res ≡ ok (reg f))
      × (get_elem? tr_map p ≡ some f)
      × (p ≤ c)
      × (clashes res (reg f) ≡ false)
unfolding find_free_reg
find_free_reg-ok res c h below =
    let (r, at) = in_range tr_map c (rw length-tr_map h) in
    first_free-ok tr_map res c r at (Avoids-of_Below c r res at below)
