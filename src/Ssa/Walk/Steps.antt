-- ===== src/Ssa/Walk/Steps.antt =====
-- The rounds of a traversal as a step relation, and the rule for the loop.
use qbt.Prelude.{
  ℕ, zero, suc, ◌<◌, ◌≤◌, ◌≡◌, ◌≢◌, refl, ap, ◌∙◌, ◌⊎◌, inl, inr, List, [], ◌∷◌, true, false,
  Bool-cases, some, Result, ok, arith, ◌==◌, if◌then◌else◌,
}
use qbt.Nodes.{Blk}
use qbt.Nodes.Blocks.{blk_of, put_blk}
use qbt.Nodes.Blocks.Laws.{blk_of-id, blk_of-put_blk}
use qbt.Ssa.Params.{other_target}
use qbt.Ssa.Walk.{entered, done, mark, Walking, push, visit, resume, round, walk}

-- A block that may be jumped to.
abbrev pub Edge : Blk → ℕ → Type 0
Edge b q = (b.s1 ≡ some q) ⊎ (b.s2 ≡ some q)

-- The same block for the traversal, but for its mark.
pub record SameShape (c b : Blk) : Type 0 where
  pub id : c.id ≡ b.id
  pub btype : c.btype ≡ b.btype
  pub s1 : c.s1 ≡ b.s1
  pub s2 : c.s2 ≡ b.s2

module _ (prepare : Blk → Blk) (work : List Blk → Blk → Result Blk) (base : ℕ) where
  -- One round with `p` on top: the block is done, is met first, or is met again.
  pub data Round (p : ℕ) (rest : List ℕ) (s : List Blk) : Walking → Type 0 where
    skip :
        (b : Blk)
        → blk_of s p ≡ ok b
        → done b base ≡ true
        → Round p rest s (record { blks = s; stack = rest })
    first :
        (b : Blk)
        → blk_of s p ≡ ok b
        → entered b base ≡ false
        → Round p rest s (record {
          blks = put_blk (put_blk s (prepare b)) (mark (prepare b));
          stack = push (other_target (prepare b)) (push (prepare b).s1 (p ∷ rest));
        })
    second :
        (b c : Blk)
        → blk_of s p ≡ ok b
        → entered b base ≡ true
        → done b base ≡ false
        → work (put_blk s (prepare b)) (prepare b) ≡ ok c
        → Round p rest s (record { blks = put_blk (put_blk s (prepare b)) (mark c); stack = rest })

  -- The loop ends where every round can be made, keeps an invariant and lowers a measure; the
  -- invariant then holds with nothing on the stack.
  pub walk_rule :
      (P : List ℕ → List Blk → Type 0) (measure : List ℕ → List Blk → ℕ)
      → ((p : ℕ) (rest : List ℕ) (s : List Blk)
          → P (p ∷ rest) s
          → (w : Walking) × (round prepare work base p rest s ≡ ok w)
            × P w.stack w.blks
            × (measure w.stack w.blks < measure (p ∷ rest) s))
      → (fuel : ℕ) (stack : List ℕ) (s : List Blk) → P stack s
      → measure stack s ≤ fuel
      → (t : List Blk) × (walk prepare work base fuel stack s ≡ ok t) × P [] t
  unfolding walk
  walk_rule P measure step fuel [] s h le = (s, refl, h)
  walk_rule P measure step zero (p ∷ rest) s h le =
      let (w, e, hw, less) = step p rest s h in absurd (omega arith)
  walk_rule P measure step (suc fuel) (p ∷ rest) s h le =
      let (w, e, hw, less) = step p rest s h in
      let (t, et, ht) = walk_rule P measure step fuel w.stack w.blks hw (omega arith) in
      (t, rw e et, ht)

  module _ (prepare_id : (b : Blk) → (prepare b).id ≡ b.id)
      (prepare_visited : (b : Blk) → (prepare b).visited ≡ b.visited) where
    -- A round is made where the block is stored and the work can be done.
    pub Round-round :
        (p : ℕ) (rest : List ℕ) (s : List Blk) (w : Walking)
        → Round p rest s w
        → round prepare work base p rest s ≡ ok w
    unfolding round resume visit
    Round-round p rest s _ (skip b e d) = rw (e, d) refl
    Round-round p rest s _ (first b e d) =
        let at : (prepare b).id ≡ p = prepare_id b ∙ blk_of-id s p b e in
        let open_block : done b base ≡ false = ground arith in
        let new : entered (prepare b) base ≡ false = ground (arith, prepare_visited b) in
        rw (e, open_block, new, at) refl
    Round-round p rest s _ (second b c e d open_block did) =
        let old : entered (prepare b) base ≡ true = ground (arith, prepare_visited b) in
        rw (e, open_block, old, did) refl

    -- What is stored behind a write of a block with the address of a stored one.
    pub lookup :
        (s : List Blk) (p q : ℕ) (b c : Blk)
        → blk_of s p ≡ ok b
        → c.id ≡ b.id
        → blk_of (put_blk (put_blk s (prepare b)) c) q ≡ (if p == q then ok c else blk_of s q)
    lookup s p q b c e same =
        let pid : (prepare b).id ≡ p = prepare_id b ∙ blk_of-id s p b e in
        let cid : c.id ≡ p = same ∙ blk_of-id s p b e in
        let inner : (r : ℕ)
            → blk_of (put_blk s (prepare b)) r ≡ (if p == r then ok (prepare b) else blk_of s r) =
          λ r.
            blk_of-put_blk s (prepare b) r (b, ap (blk_of s) pid ∙ e)
            ∙ ap (λ i. if i == r then ok (prepare b) else blk_of s r) pid in
        let self : (p == p) ≡ true = ground arith in
        let stored : blk_of (put_blk s (prepare b)) c.id ≡ ok (prepare b) =
          ap (blk_of (put_blk s (prepare b))) cid
          ∙ inner p
          ∙ ap (λ t. if t then ok (prepare b) else blk_of s p) self in
        let outer =
          blk_of-put_blk (put_blk s (prepare b)) c q (prepare b, stored)
          ∙ ap (λ i. if i == q then ok c else blk_of (put_blk s (prepare b)) q) cid in
        outer ∙ elim (Bool-cases (p == q)) [
          | inl at ↦ rw at refl
          | inr other ↦
              rw other (inner q ∙ ap (λ t. if t then ok (prepare b) else blk_of s q) other)
        ]

    pub lookup_self :
        (s : List Blk) (p : ℕ) (b c : Blk)
        → blk_of s p ≡ ok b
        → c.id ≡ b.id
        → blk_of (put_blk (put_blk s (prepare b)) c) p ≡ ok c
    lookup_self s p b c e same =
        let self : (p == p) ≡ true = ground arith in
        lookup s p p b c e same ∙ ap (λ t. if t then ok c else blk_of s p) self

    pub lookup-ne :
        (s : List Blk) (p q : ℕ) (b c : Blk)
        → blk_of s p ≡ ok b
        → c.id ≡ b.id
        → p ≢ q
        → blk_of (put_blk (put_blk s (prepare b)) c) q ≡ blk_of s q
    lookup-ne s p q b c e same ne =
        let other : (p == q) ≡ false = ground arith in
        lookup s p q b c e same ∙ ap (λ t. if t then ok c else blk_of s q) other
