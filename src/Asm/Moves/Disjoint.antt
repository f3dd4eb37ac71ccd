-- ===== src/Asm/Moves/Disjoint.antt =====
-- src/asm.c: arguments none of whose registers is a parameter's need no order and no spare
-- register.
use qbt.Prelude.{
  ℕ, zero, suc, ◌≡◌, ◌≢◌, refl, ap, sym, ◌∙◌, List, [], ◌∷◌, ok, true, arith, length, get_elem?,
  length-map, some, All, All-Has, map, ◌==◌, write, write_self, write-ne, get_elem?-Has,
}
use qbt.Nodes.{Val, reg}
use qbt.Asm.Syntax.{Line}
use qbt.Asm.Moves.{output_moves}
use qbt.Asm.Moves.Run.{run_moves}
use qbt.Asm.Moves.Direct.{direct, Avoids, IsName, move_all-direct}

abbrev pub Distinct : List ℕ → Type 0
Distinct [] = Unit
Distinct (p ∷ ps) = Avoids p ps × Distinct ps

module _ {A : Type 0} where
  run_moves-other :
      (ps from : List ℕ) (regs : ℕ → A) (q : ℕ)
      → Avoids q ps
      → run_moves (direct ps from) regs q ≡ regs q
  run_moves-other [] from regs q h = refl
  run_moves-other (p ∷ ps) [] regs q h = refl
  run_moves-other (p ∷ ps) (a ∷ from) regs q (ne, h) =
      run_moves-other ps from (write regs p (regs a)) q h
      ∙ write-ne regs p q (regs a) (λ e. ne (sym e))

  run_moves-direct :
      (ps from : List ℕ) (regs : ℕ → A) (i p a : ℕ)
      → Distinct ps
      → All (λ p. Avoids p from) ps
      → get_elem? ps i ≡ some p
      → get_elem? from i ≡ some a
      → run_moves (direct ps from) regs p ≡ regs a
  run_moves-direct (q ∷ ps) (b ∷ from) regs zero p a (away, d) h ep ea =
      let pq : q ≡ p = cc in
      let ab : b ≡ a = cc in
      ap (run_moves (direct ps from) (write regs q (regs b))) (sym pq)
      ∙ run_moves-other ps from (write regs q (regs b)) q away
      ∙ write_self regs q (regs b)
      ∙ ap regs ab
  run_moves-direct (q ∷ ps) (b ∷ from) regs (suc i) p a (away, d) ((hb, hq), h) ep ea =
      run_moves-direct ps from (write regs q (regs b)) i p a d (avoid_tail ps h) ep ea
      ∙ write-ne regs q a (regs b) (All-Has (λ t. t ≢ q) from hq (get_elem?-Has from i ea))
    where
      avoid_tail : (ps : List ℕ) → All (λ p. Avoids p (b ∷ from)) ps → All (λ p. Avoids p from) ps
      avoid_tail [] h = tt
      avoid_tail (p ∷ ps) ((first, others), h) = (others, avoid_tail ps h)
  run_moves-direct [] from regs i p a d h ep ea = absurd cc
  run_moves-direct (q ∷ ps) [] regs i p a d h ep ea = absurd cc

  -- Parameters in different registers, none of which an argument is in: each parameter has its
  -- argument's value behind the moves, and the registers of no parameter are unchanged.
  pub output_moves-direct :
      (ps from : List ℕ) (regs : ℕ → A)
      → length ps ≡ length from
      → All IsName ps
      → All IsName from
      → Distinct ps
      → All (λ p. Avoids p from) ps
      → (ls : List Line) × (output_moves (map reg ps) (map reg from) ≡ ok ls)
        × ((i p a : ℕ)
            → get_elem? ps i ≡ some p
            → get_elem? from i ≡ some a
            → run_moves ls regs p ≡ regs a)
        × ((q : ℕ) → Avoids q ps → run_moves ls regs q ≡ regs q)
  unfolding output_moves
  output_moves-direct ps from regs e hp ha d h =
      let same : (length (map {B = Val} reg ps) == length (map {B = Val} reg from)) ≡ true =
        ground (arith, length-map ps (λ t. reg t), length-map from (λ t. reg t)) in
      let count : length (map {B = Val} reg ps) ≡ length ps = length-map ps (λ t. reg t) in
      (
        direct ps from,
        rw (same, count)
            (move_all-direct (length ps) 0 (map reg ps) from [] ps [] from [] refl refl refl refl e
              hp ha h),
        λ i p a ep ea. run_moves-direct ps from regs i p a d h ep ea,
        λ q hq. run_moves-other ps from regs q hq,
      )
