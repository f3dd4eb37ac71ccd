-- ===== src/Ssa/Walk/Visits.antt =====
-- What a traversal keeps: the marks, and that a block that was met is on the stack until it is done
-- and its successors are met.
use qbt.Prelude.{
  ℕ, ◌+◌, ◌≤◌, ◌≡◌, ◌≢◌, ap, sym, ◌∙◌, ◌⊎◌, inl, inr, List, true, false, Bool-cases, Option, none,
  some, Result, ok, ok-injective, arith, ◌==◌, if◌then◌else◌, Has,
}
use qbt.Nodes.{Blk}
use qbt.Nodes.Blocks.{same_target, blk_of, put_blk}
use qbt.Nodes.Blocks.Laws.{ids}
use qbt.Ssa.Params.{other_target}
use qbt.Ssa.Walk.{entered, done, push}
use qbt.Ssa.Walk.Steps.{Edge, SameShape, lookup_self, lookup-ne}

pub Has-push :
    (q : ℕ) (o : Option ℕ) (stack : List ℕ) → Has q (push o stack) → (o ≡ some q) ⊎ Has q stack
Has-push q none stack h = inr h
Has-push q (some p) stack (inl e) = inl (ap some (sym e))
Has-push q (some p) stack (inr h) = inr h

pub push_under : (q : ℕ) (o : Option ℕ) (stack : List ℕ) → Has q stack → Has q (push o stack)
push_under q none stack h = h
push_under q (some p) stack h = inr h

push_top : (q : ℕ) (o : Option ℕ) (stack : List ℕ) → o ≡ some q → Has q (push o stack)
push_top q (some p) stack e = inl cc
push_top q none stack e = absurd cc

-- The second successor that is looked at is a successor, and the first is the same where it is not.
pub other_target-s2 : (b : Blk) (q : ℕ) → other_target b ≡ some q → b.s2 ≡ some q
unfolding other_target
other_target-s2 b q e = elim (Bool-cases (same_target b.s2 b.s1)) [
  | inl same ↦ absurd (no_some (sym (ap (λ t. if t then none else b.s2) same) ∙ e))
  | inr differ ↦ sym (ap (λ t. if t then none else b.s2) differ) ∙ e
]
  where
    no_some : none ≡ some q → ⊥
    no_some h = cc

s2-targets :
    (o r : Option ℕ) (q : ℕ)
    → r ≡ some q
    → ((if same_target r o then none else r) ≡ some q) ⊎ (o ≡ some q)
unfolding same_target
s2-targets none (some b) q e = inl e
s2-targets (some a) (some b) q e = elim (Bool-cases (b == a)) [
  | inl same ↦ let at : b ≡ a = ground arith in inr (ap some (sym at) ∙ e)
  | inr differ ↦ inl (rw differ e)
]
s2-targets o none q e = absurd cc

pub Edge-targets : (b : Blk) (q : ℕ) → Edge b q → (other_target b ≡ some q) ⊎ (b.s1 ≡ some q)
unfolding other_target
Edge-targets b q (inl e) = inr e
Edge-targets b q (inr e) = s2-targets b.s1 b.s2 q e

pub Edge-pushed :
    (b : Blk) (q : ℕ) (stack : List ℕ) → Edge b q → Has q (push (other_target b) (push b.s1 stack))
Edge-pushed b q stack edge = elim (Edge-targets b q edge) [
  | inl top ↦ push_top q (other_target b) (push b.s1 stack) top
  | inr under ↦ push_under q (other_target b) (push b.s1 stack) (push_top q b.s1 stack under)
]

-- A block that was met.
abbrev pub Met : ℕ → List Blk → ℕ → Type 0
Met base s q = (c : Blk) × (blk_of s q ≡ ok c) × (entered c base ≡ true)

-- A block that was met, or will be.
abbrev pub Reached : ℕ → List Blk → List ℕ → ℕ → Type 0
Reached base s stack q = Met base s q ⊎ Has q stack

-- What the theorems ask of a traversal.
pub record Traversal (prepare : Blk → Blk) (work : List Blk → Blk → Result Blk) : Type 0 where
  pub prepare_id : (b : Blk) → (prepare b).id ≡ b.id
  pub prepare_visited : (b : Blk) → (prepare b).visited ≡ b.visited
  pub stable :
      (b c : Blk) → SameShape c (prepare b) → (q : ℕ) → Edge (prepare c) q → Edge (prepare b) q
  pub kept :
      (b c : Blk) → SameShape c (prepare b) → (q : ℕ) → Edge (prepare b) q → Edge (prepare c) q
  pub work_shape : (s : List Blk) (b c : Blk) → work s b ≡ ok c → SameShape c b
  pub work_visited : (s : List Blk) (b c : Blk) → work s b ≡ ok c → c.visited ≡ b.visited

module _ (prepare : Blk → Blk) (work : List Blk → Blk → Result Blk) (base : ℕ)
    (t : Traversal prepare work) where
  pub record Visits (all stack : List ℕ) (s : List Blk) : Type 0 where
    pub same_ids : ids s ≡ all
    pub on_stack : (p : ℕ) → Has p stack → Has p all
    pub edges : (p q : ℕ) (b : Blk) → blk_of s p ≡ ok b → Edge (prepare b) q → Has q all
    pub marks : (p : ℕ) (b : Blk) → blk_of s p ≡ ok b → (base ≤ b.visited) × (b.visited ≤ base + 2)
    pub waiting :
        (p : ℕ) (b : Blk)
        → blk_of s p ≡ ok b
        → entered b base ≡ true
        → done b base ≡ false
        → Has p stack
    pub explored :
        (p q : ℕ) (b : Blk)
        → blk_of s p ≡ ok b
        → entered b base ≡ true
        → Edge (prepare b) q
        → Met base s q ⊎ Has q stack

  -- A write at `p` is seen there, and nowhere else.
  pub written :
      (s : List Blk) (p q : ℕ) (b c d : Blk)
      → blk_of s p ≡ ok b
      → c.id ≡ b.id
      → blk_of (put_blk (put_blk s (prepare b)) c) q ≡ ok d
      → ((p ≡ q) × (d ≡ c)) ⊎ ((p ≢ q) × (blk_of s q ≡ ok d))
  written s p q b c d e same h = elim (Bool-cases (p == q)) [
    | inl at ↦
        let equal : p ≡ q = ground arith in
        inl (
          equal,
          ok-injective (
              sym h
              ∙ ap (blk_of (put_blk (put_blk s (prepare b)) c)) (sym equal)
              ∙ lookup_self prepare work base t.prepare_id t.prepare_visited s p b c e same),
        )
    | inr other ↦
        let ne : p ≢ q = λ equal. ground arith in
        inr (
          ne,
          sym (lookup-ne prepare work base t.prepare_id t.prepare_visited s p q b c e same ne) ∙ h,
        )
  ]
