-- ===== src/Regalloc/Tests.antt =====
-- The theorems about regalloc.c at small blocks.
use qbt.Prelude.{ℕ, ◌≡◌, refl, inl, inr, List, [], ◌∷◌, ok, arith}
use qbt.Nodes.{Val, tmp, reg}
use qbt.Rules.Laws.{rule}
use qbt.Regalloc.Lifetimes.{Lifetime, get_hint}
use qbt.Regalloc.Scan.{build_rmap}
use qbt.Regalloc.Scan.Active.{key}
use qbt.Regalloc.Scan.Table.{Table, nil, entry, live}
use qbt.Regalloc.Scan.Apart.{Allocated, build_rmap-Allocated}
use qbt.Regalloc.Scan.HintShares.{build_rmap-hint_shares}

abbrev outer : Lifetime
outer = record { v = tmp 0; start = 1; end = 4; used = 2 }

abbrev inner : Lifetime
inner = record { v = tmp 1; start = 2; end = 3; used = 2 }

abbrev table : List Lifetime
table = outer ∷ inner ∷ []

table-Table : Table table
unfolding live
table-Table =
    entry refl (omega arith) (omega arith)
      (λ k h. elim h [ inl p ↦ rw p (omega arith) | inr n ↦ absurd n ])
      (entry refl (omega arith) (omega arith) (λ k h. absurd h) nil)

build_rmap-Allocated_example :
    (n : ℕ) × (rmap : List Val) × (build_rmap [] table [] ≡ ok (n, rmap))
    × Allocated (live table) n rmap
unfolding get_hint live
build_rmap-Allocated_example =
    build_rmap-Allocated [] table [] table-Table (λ k h. ground arith) (λ k h. refl) (omega arith)

-- `outer` came in x4, and `inner` is to go out in x4.
build_rmap-hint_shares_example :
    (n : ℕ) × (rmap : List Val) × (build_rmap (reg 4 ∷ reg 4 ∷ []) table (reg 4 ∷ [])
      ≡ ok (n, rmap))
    × (rule rmap (key outer) ≡ reg 4)
    × (rule rmap (key inner) ≡ reg 4)
unfolding get_hint
build_rmap-hint_shares_example =
    build_rmap-hint_shares (reg 4 ∷ reg 4 ∷ []) (reg 4 ∷ []) outer inner 4 (omega arith)
      (omega arith) refl (omega arith) (omega arith) refl refl refl
