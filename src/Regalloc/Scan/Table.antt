-- ===== src/Regalloc/Scan/Table.antt =====
-- The table of lifetimes of a block (`lifetimes` in src/regalloc.c) as the scan finds it.
use qbt.Prelude.{
  ℕ, ◌<◌, ◌≤◌, ◌≡◌, refl, ap, sym, ◌∙◌, inl, inr, List, [], ◌∷◌, true, false, arith, ◌==◌,
  if◌then◌else◌, Has, Bool-cases,
}
use qbt.Nodes.{tmp}
use qbt.Regalloc.Lifetimes.{Lifetime}
use qbt.Regalloc.Scan.Active.{key, Sorted, Part, none_left, from}
use qbt.Regalloc.Scan.Step.{IsProper}

-- The entries of the table that belong to a temporary of the block.
unfoldable pub live : List Lifetime → List Lifetime
live [] = []
live (l ∷ ls) = if l.used == 0 then live ls else l ∷ live ls

-- A table as a block in SSA form gives it: indexed by the temporaries' numbers, definitions in
-- order, and a use behind every definition.
pub data Table : List Lifetime → Type 0 where
  nil : Table []
  gap : {l : Lifetime} {ls : List Lifetime} → l.used ≡ 0 → Table ls → Table (l ∷ ls)
  entry :
      {l : Lifetime} {ls : List Lifetime}
      → l.v ≡ tmp (key l)
      → 0 < l.used
      → l.start < l.end
      → ((k : Lifetime) → Has k (live ls) → (key l < key k) × (l.start ≤ k.start))
      → Table ls
      → Table (l ∷ ls)

pub live_gap : (l : Lifetime) (ls : List Lifetime) → l.used ≡ 0 → live (l ∷ ls) ≡ live ls
unfolding live
live_gap l ls e = let skipped : (l.used == 0) ≡ true = ground arith in rw skipped

pub live_entry : (l : Lifetime) (ls : List Lifetime) → 0 < l.used → live (l ∷ ls) ≡ l ∷ live ls
unfolding live
live_entry l ls h = let kept : (l.used == 0) ≡ false = ground arith in rw kept

-- What the scan needs of the live entries.
pub record Facts (L : List Lifetime) : Type 0 where
  pub sorted : Sorted L
  pub proper : (k : Lifetime) → Has k L → IsProper k

Facts-cons :
    (l : Lifetime) (L : List Lifetime)
    → l.v ≡ tmp (key l)
    → 0 < l.used
    → l.start < l.end
    → ((k : Lifetime) → Has k L → (key l < key k) × (l.start ≤ k.start))
    → Facts L
    → Facts (l ∷ L)
Facts-cons l L v u n later f = record {
  sorted = record { up = up; same = same; used = used };
  proper = proper;
}
  where
    start : Lifetime → ℕ
    start k = k.start

    up : (a b : Lifetime) → Has a (l ∷ L) → Has b (l ∷ L) → key a < key b → a.start ≤ b.start
    up a b (inl p) (inl q) lt = omega (arith, ap key p, ap key q)
    up a b (inl p) (inr h) lt = rw p (later b h).1
    up a b (inr h) (inl q) lt = absurd (omega (arith, ap key q, later a h))
    up a b (inr h) (inr k) lt = f.sorted.up a b h k lt

    same : (a b : Lifetime) → Has a (l ∷ L) → Has b (l ∷ L) → key a ≡ key b → a ≡ b
    same a b (inl p) (inl q) e = p ∙ sym q
    same a b (inl p) (inr h) e = absurd (omega (arith, ap key p, later b h))
    same a b (inr h) (inl q) e = absurd (omega (arith, ap key q, later a h))
    same a b (inr h) (inr k) e = f.sorted.same a b h k e

    used : (a : Lifetime) → Has a (l ∷ L) → 0 < a.used
    used a (inl p) = rw p u
    used a (inr h) = f.sorted.used a h

    proper : (k : Lifetime) → Has k (l ∷ L) → IsProper k
    proper k (inl p) = rw p (record { temp = v; nonempty = n })
    proper k (inr h) = f.proper k h

pub Table-Facts : {ls : List Lifetime} → Table ls → Facts (live ls)
unfolding live
Table-Facts nil = record {
  sorted = record {
    up = λ a b h _ _. absurd h;
    same = λ a b h _ _. absurd h;
    used = λ a h. absurd h;
  };
  proper = λ k h. absurd h;
}
Table-Facts (gap {l} {ls} e t) = rw (live_gap l ls e) (Table-Facts t)
Table-Facts (entry {l} {ls} v u n later t) =
    rw (live_entry l ls u) (Facts-cons l (live ls) v u n later (Table-Facts t))

-- The used entries of a suffix are live, and the other way round.
Has-live : (k : Lifetime) (ls : List Lifetime) → 0 < k.used → Has k ls → Has k (live ls)
unfolding live
Has-live k (l ∷ ls) u (inl p) =
    let kept : (l.used == 0) ≡ false = let same = ap (λ (x : Lifetime). x.used) p in ground arith in
    rw kept (inl p)
Has-live k (l ∷ ls) u (inr h) = elim (Bool-cases (l.used == 0)) [
  | inl skipped ↦ rw skipped (Has-live k ls u h)
  | inr kept ↦ rw kept (inr (Has-live k ls u h))
]
Has-live k [] u h = h

pub live-Has : (k : Lifetime) (ls : List Lifetime) → Has k (live ls) → Has k ls
unfolding live
live-Has k (l ∷ ls) h = elim (Bool-cases (l.used == 0)) [
  | inl skipped ↦ inr (live-Has k ls (rw skipped at h))
  | inr kept ↦ elim (with_head kept h) [ inl p ↦ inl p | inr m ↦ inr (live-Has k ls m) ]
]
  where
    with_head : (l.used == 0) ≡ false → Has k (live (l ∷ ls)) → Has k (l ∷ live ls)
    with_head kept m = rw kept at m
live-Has k [] h = h

pub Table-Part :
    (L : List Lifetime)
    → Sorted L
    → {ls : List Lifetime} → Table ls
    → ((k : Lifetime) → Has k (live ls) → Has k L)
    → Part L ls
Table-Part L sorted nil sub = none_left
Table-Part L sorted (gap {l} {ls} e t) sub =
    Part.unused e (Table-Part L sorted t λ k h. sub k (rw (live_gap l ls e) h))
Table-Part L sorted (entry {l} {ls} v u n later t) sub =
    let sub' = λ (k : Lifetime) (h : Has k (l ∷ live ls)). sub k (rw (live_entry l ls u) h) in
    from (sub' l (inl refl)) u (λ k hk h. (later k (Has-live k ls (sorted.used k hk) h)).0)
      (Table-Part L sorted t λ k h. sub' k (inr h))
