-- ===== src/Ssa/Walk.antt =====
-- src/ssa.c: the two depth-first traversals of the blocks. Both are this loop; `prepare` is what
-- they do to a block before they look at its mark, and `work` what they do on the second visit.
-- The marks are counted in `visited`, from the value that it has when the traversal starts.
pub mod Steps
pub mod Visits
pub mod Kept
pub mod Reaches
pub mod Ends
pub mod Order
pub mod Acyclic
use qbt.Prelude.{
  ℕ, zero, suc, ◌+◌, List, [], ◌∷◌, Bool, Option, none, some, Result, ok, fault, out_of_fuel, ◌>>=◌,
  leb, if◌then◌else◌,
}
use qbt.Nodes.{Blk}
use qbt.Nodes.Blocks.{blk_of, put_blk}
use qbt.Ssa.Params.{other_target}

abbrev pub entered : Blk → ℕ → Bool
entered b base = leb (base + 1) b.visited

abbrev pub done : Blk → ℕ → Bool
done b base = leb (base + 2) b.visited

-- `enter` and `leave`
abbrev pub mark : Blk → Blk
mark b = record b { visited = suc b.visited }

-- The blocks and the stack, whose first element is the top.
pub record Walking : Type 0 where
  pub blks : List Blk
  pub stack : List ℕ

abbrev pub push : Option ℕ → List ℕ → List ℕ
push none stack = stack
push (some p) stack = p ∷ stack

module _ (prepare : Blk → Blk) (work : List Blk → Blk → Result Blk) (base : ℕ) where
  -- The first visit, or the second.
  unfoldable pub visit : Blk → List Blk → List ℕ → Result Walking
  visit b blks rest =
      if entered b base
      then (do c ← work blks b; ok (record { blks = put_blk blks (mark c); stack = rest }))
      else ok (record {
        blks = put_blk blks (mark b);
        stack = push (other_target b) (push b.s1 (b.id ∷ rest));
      })

  unfoldable pub resume : Blk → List Blk → List ℕ → Result Walking
  resume b blks rest =
      if done b base
      then ok (record { blks = blks; stack = rest })
      else visit (prepare b) (put_blk blks (prepare b)) rest

  -- From `top` on, with `p` popped.
  unfoldable pub round : ℕ → List ℕ → List Blk → Result Walking
  round p rest blks = do b ← blk_of blks p; resume b blks rest

  unfoldable pub walk : ℕ → List ℕ → List Blk → Result (List Blk)
  walk fuel [] blks = ok blks
  walk zero (p ∷ rest) blks = fault out_of_fuel
  walk (suc fuel) (p ∷ rest) blks = do w ← round p rest blks; walk fuel w.stack w.blks
