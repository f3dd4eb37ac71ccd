-- ===== src/Nodes/Blocks.antt =====
-- The blocks of a function as a store: a block pointer is an identifier, followed by a search, and
-- a write through it replaces the block.
pub mod Laws
use qbt.Prelude.{
  ℕ, List, [], ◌∷◌, Bool, true, false, Option, none, some, Result, ok, fault, dangling, ◌==◌,
  if◌then◌else◌,
}
use qbt.Nodes.{Blk}

-- The comparison of two block pointers.
unfoldable pub same_target : Option ℕ → Option ℕ → Bool
same_target none none = true
same_target (some a) (some b) = a == b
same_target _ _ = false

-- The block that a pointer leads to.
unfoldable pub blk_of : List Blk → ℕ → Result Blk
blk_of [] p = fault dangling
blk_of (b ∷ bs) p = let rest = blk_of bs p in if b.id == p then ok b else rest

-- The store with a block in place of the one at its address.
unfoldable pub put_blk : List Blk → Blk → List Blk
put_blk [] c = []
put_blk (b ∷ bs) c = let rest = put_blk bs c in if b.id == c.id then c ∷ bs else b ∷ rest
