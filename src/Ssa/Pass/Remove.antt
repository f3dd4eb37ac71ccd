-- ===== src/Ssa/Pass/Remove.antt =====
-- `remove_unvisited` keeps the blocks that have at least a given mark.
use qbt.Prelude.{
  ℕ, ◌≡◌, ap, sym, inl, inr, List, [], ◌∷◌, true, false, Bool-cases, ok, ok-injective, arith, leb,
  ltb, ◌==◌, Has,
}
use mathlib.Core.Path.{subst}
use qbt.Nodes.{Blk}
use qbt.Nodes.Blocks.{blk_of}
use qbt.Nodes.Blocks.Laws.{ids, Apart, blk_of-Has-ids}
use qbt.Ssa.Pass.{remove_unvisited}

pub remove_unvisited-Has :
    (s : List Blk) (m p : ℕ) → Has p (ids (remove_unvisited s m)) → Has p (ids s)
unfolding remove_unvisited
remove_unvisited-Has (b ∷ bs) m p h = elim (Bool-cases (ltb b.visited m)) [
  | inl gone ↦ inr (remove_unvisited-Has bs m p (rw gone at h))
  | inr stays ↦ elim (rw stays at h) [ inl e ↦ inl e | inr k ↦ inr (remove_unvisited-Has bs m p k) ]
]
remove_unvisited-Has [] m p h = absurd h

pub remove_unvisited-Apart :
    (s : List Blk) (m : ℕ) → Apart (ids s) → Apart (ids (remove_unvisited s m))
unfolding remove_unvisited
remove_unvisited-Apart [] m h = tt
remove_unvisited-Apart (b ∷ bs) m (off, h) = elim (Bool-cases (ltb b.visited m)) [
  | inl gone ↦ rw gone (remove_unvisited-Apart bs m h)
  | inr stays ↦
      rw stays ((λ k. off (remove_unvisited-Has bs m b.id k)), remove_unvisited-Apart bs m h)
]

-- A block with the mark stays.
pub remove_unvisited-keeps :
    (s : List Blk) (m p : ℕ) (b : Blk)
    → blk_of s p ≡ ok b
    → leb m b.visited ≡ true
    → blk_of (remove_unvisited s m) p ≡ ok b
unfolding remove_unvisited blk_of
remove_unvisited-keeps (c ∷ bs) m p b e seen = elim (Bool-cases (c.id == p)) [
  | inl at ↦
      let same : c ≡ b = ok-injective (rw at at e) in
      let stays : ltb c.visited m ≡ false = rw same (ground arith) in rw (stays, at) (ap ok same)
  | inr other ↦ elim (Bool-cases (ltb c.visited m)) [
    | inl gone ↦ rw gone (remove_unvisited-keeps bs m p b (rw other at e) seen)
    | inr stays ↦ rw (stays, other) (remove_unvisited-keeps bs m p b (rw other at e) seen)
  ]
]
remove_unvisited-keeps [] m p b e seen = absurd cc

-- A block that stays was there, with the mark.
pub remove_unvisited-only :
    (s : List Blk) (m p : ℕ) (b : Blk)
    → Apart (ids s)
    → blk_of (remove_unvisited s m) p ≡ ok b
    → (blk_of s p ≡ ok b) × (leb m b.visited ≡ true)
unfolding remove_unvisited blk_of
remove_unvisited-only (c ∷ bs) m p b (off, h) e = elim (Bool-cases (ltb c.visited m)) [
  | inl gone ↦
      let (found, seen) = remove_unvisited-only bs m p b h (rw gone at e) in
      elim (Bool-cases (c.id == p)) [
        | inl at ↦
            let same : p ≡ c.id = ground arith in
            absurd (off (subst (λ i. Has i (ids bs)) same (blk_of-Has-ids bs p b found)))
        | inr other ↦ (rw other found, seen)
      ]
  | inr stays ↦
      let e1 = rw stays at e in
      elim (Bool-cases (c.id == p)) [
        | inl at ↦
            let same : c ≡ b = ok-injective (rw at at e1) in
            (rw at (ap ok same), rw (sym same) (ground arith))
        | inr other ↦
            let (found, seen) = remove_unvisited-only bs m p b h (rw other at e1) in
            (rw other found, seen)
      ]
]
remove_unvisited-only [] m p b h e = absurd cc
