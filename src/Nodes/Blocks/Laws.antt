-- ===== src/Nodes/Blocks/Laws.antt =====
-- Reads and writes of blocks.
use mathlib.Core.Path.{subst}
use qbt.Prelude.{
  ℕ, ◌≡◌, refl, ap, sym, ◌∙◌, inl, inr, List, [], ◌∷◌, true, false, Bool-cases, ok, ok-injective,
  arith, ◌==◌, if◌then◌else◌, Has,
}
use qbt.Nodes.{Blk}
use qbt.Nodes.Blocks.{blk_of, put_blk}

-- The identifiers in the order of the blocks.
abbrev pub ids : List Blk → List ℕ
ids [] = []
ids (b ∷ bs) = b.id ∷ ids bs

-- No two blocks have the same identifier.
abbrev pub Apart : List ℕ → Type 0
Apart [] = Unit
Apart (p ∷ ps) = (Has p ps → ⊥) × Apart ps

abbrev pub Stored : List Blk → ℕ → Type 0
Stored bs p = (b : Blk) × (blk_of bs p ≡ ok b)

pub blk_of-id : (bs : List Blk) (p : ℕ) (b : Blk) → blk_of bs p ≡ ok b → b.id ≡ p
unfolding blk_of
blk_of-id [] p b e = absurd cc
blk_of-id (c ∷ bs) p b e = elim (Bool-cases (c.id == p)) [
  | inl h ↦
      let same : c ≡ b = ok-injective (sym (ap (λ t. if t then ok c else blk_of bs p) h) ∙ e) in
      let at : c.id ≡ p = ground arith in ap (λ (t : Blk). t.id) (sym same) ∙ at
  | inr h ↦ blk_of-id bs p b (sym (ap (λ t. if t then ok c else blk_of bs p) h) ∙ e)
]

pub blk_of-Has : (bs : List Blk) (p : ℕ) (b : Blk) → blk_of bs p ≡ ok b → Has b bs
unfolding blk_of
blk_of-Has [] p b e = absurd cc
blk_of-Has (c ∷ bs) p b e = elim (Bool-cases (c.id == p)) [
  | inl h ↦ inl (sym (ok-injective (sym (ap (λ t. if t then ok c else blk_of bs p) h) ∙ e)))
  | inr h ↦ inr (blk_of-Has bs p b (sym (ap (λ t. if t then ok c else blk_of bs p) h) ∙ e))
]

-- A write is read back, and other blocks stay.
pub blk_of-put_blk :
    (bs : List Blk) (c : Blk) (p : ℕ)
    → Stored bs c.id
    → blk_of (put_blk bs c) p ≡ (if c.id == p then ok c else blk_of bs p)
unfolding blk_of put_blk
blk_of-put_blk [] c p (b, e) = absurd cc
blk_of-put_blk (d ∷ bs) c p (b, e) = elim (Bool-cases (d.id == c.id)) [
  | inl h ↦
      let at : d.id ≡ c.id = ground arith in
      rw (h, at) (elim (Bool-cases (c.id == p)) [ inl t ↦ rw t refl | inr t ↦ rw t refl ])
  | inr h ↦
      let rest =
        blk_of-put_blk bs c p (b, sym (ap (λ t. if t then ok d else blk_of bs c.id) h) ∙ e) in
      rw (h, rest)
        (elim (Bool-cases (d.id == p)) [
          | inl t ↦ let other : (c.id == p) ≡ false = ground arith in rw (t, other) refl
          | inr t ↦ rw t refl
        ])
]

pub ids-put_blk : (bs : List Blk) (c : Blk) → ids (put_blk bs c) ≡ ids bs
unfolding put_blk
ids-put_blk [] c = refl
ids-put_blk (d ∷ bs) c = elim (Bool-cases (d.id == c.id)) [
  | inl h ↦ let at : c.id ≡ d.id = ground arith in rw h (ap (λ i. i ∷ ids bs) at)
  | inr h ↦ rw h (ap (λ t. d.id ∷ t) (ids-put_blk bs c))
]

-- An address is that of a block exactly when it is an identifier.
pub Has-ids-Stored : (bs : List Blk) (p : ℕ) → Has p (ids bs) → Stored bs p
unfolding blk_of
Has-ids-Stored (b ∷ bs) p (inl e) = let at : (b.id == p) ≡ true = ground arith in (b, rw at refl)
Has-ids-Stored (b ∷ bs) p (inr h) = elim (Bool-cases (b.id == p)) [
  | inl at ↦ (b, rw at refl)
  | inr other ↦ let (c, e) = Has-ids-Stored bs p h in (c, rw other e)
]
Has-ids-Stored [] p h = absurd h

pub blk_of-Has-ids : (bs : List Blk) (p : ℕ) (b : Blk) → blk_of bs p ≡ ok b → Has p (ids bs)
unfolding blk_of
blk_of-Has-ids (c ∷ bs) p b e = elim (Bool-cases (c.id == p)) [
  | inl h ↦ let at : p ≡ c.id = ground arith in inl at
  | inr h ↦ inr (blk_of-Has-ids bs p b (sym (ap (λ t. if t then ok c else blk_of bs p) h) ∙ e))
]
blk_of-Has-ids [] p b e = absurd cc

-- Where the identifiers are apart, a block of the store is found.
pub Has-blk_of : (bs : List Blk) (b : Blk) → Apart (ids bs) → Has b bs → blk_of bs b.id ≡ ok b
unfolding blk_of
Has-blk_of (c ∷ bs) b h (inl e) =
    let at : (c.id == b.id) ≡ true = ground (arith, ap (λ (t : Blk). t.id) e) in
    rw at (ap ok (sym e))
Has-blk_of (c ∷ bs) b (off, h) (inr has) = elim (Bool-cases (c.id == b.id)) [
  | inl at ↦
      let same : b.id ≡ c.id = ground arith in
      absurd
        (off (subst (λ i. Has i (ids bs)) same (blk_of-Has-ids bs b.id b (Has-blk_of bs b h has))))
  | inr other ↦ rw other (Has-blk_of bs b h has)
]
Has-blk_of [] b h has = absurd has
