-- ===== src/Ssa/Walk/Ends.antt =====
-- A traversal ends: a round enters a block, and puts at most two more on the stack, or takes one
-- off it.
use qbt.Prelude.{
  ℕ, suc, ◌+◌, ◌*◌, ◌<◌, ◌≤◌, ◌≡◌, refl, ap, sym, ◌∙◌, ◌⊎◌, inl, inr, List, [], ◌∷◌, true, false,
  Bool-cases, Option, none, some, Result, ok, ok-injective, arith, ◌==◌, length, if◌then◌else◌, Has,
}
use mathlib.Core.Path.{subst}
use qbt.Nodes.{Blk}
use qbt.Nodes.Blocks.{blk_of, put_blk}
use qbt.Nodes.Blocks.Laws.{blk_of-id, blk_of-put_blk, Has-ids-Stored}
use qbt.Ssa.Params.{other_target}
use qbt.Ssa.Walk.{entered, done, mark, Walking, push, walk}
use qbt.Ssa.Walk.Steps.{Round, skip, first, second, walk_rule, Round-round}
use qbt.Ssa.Walk.Visits.{Met, Reached, Traversal, Visits}
use qbt.Ssa.Walk.Reaches.{Jump, From, root, Sound, Round-Sound, From-Met}
use qbt.Ssa.Walk.Kept.{Round-Visits, Round-Reached}

-- 1 for a block that was not met.
abbrev unmet : ℕ → Blk → ℕ
unmet base b = if entered b base then 0 else 1

abbrev pub unentered : ℕ → List Blk → ℕ
unentered base [] = 0
unentered base (b ∷ bs) = unmet base b + unentered base bs

pub unentered-le : (base : ℕ) (bs : List Blk) → unentered base bs ≤ length bs
unentered-le base [] = omega arith
unentered-le base (b ∷ bs) = ground (arith, unentered-le base bs)

unentered-put_blk :
    (base : ℕ) (bs : List Blk) (c d : Blk)
    → blk_of bs c.id ≡ ok d
    → unentered base (put_blk bs c) + unmet base d ≡ unentered base bs + unmet base c
unfolding blk_of put_blk
unentered-put_blk base [] c d e = absurd cc
unentered-put_blk base (b ∷ bs) c d e = elim (Bool-cases (b.id == c.id)) [
  | inl h ↦
      let same : b ≡ d = ok-injective (sym (ap (λ t. if t then ok b else blk_of bs c.id) h) ∙ e) in
      let equal : unmet base b ≡ unmet base d = ap (unmet base) same in rw h (omega (arith, equal))
  | inr h ↦
      let found : blk_of bs c.id ≡ ok d =
        sym (ap (λ t. if t then ok b else blk_of bs c.id) h) ∙ e in
      rw h (omega (arith, unentered-put_blk base bs c d found))
]

length-push : (o : Option ℕ) (stack : List ℕ) → length (push o stack) ≤ suc (length stack)
length-push none stack = omega arith
length-push (some p) stack = omega arith

module _ (prepare : Blk → Blk) (work : List Blk → Blk → Result Blk) (base : ℕ)
    (t : Traversal prepare work) where
  abbrev measure : List ℕ → List Blk → ℕ
  measure stack s = 3 * unentered base s + length stack

  -- Two writes at one address change the count by what the last one writes.
  unentered_twice :
      (s : List Blk) (p : ℕ) (b c : Blk)
      → blk_of s p ≡ ok b
      → c.id ≡ b.id
      → unentered base (put_blk (put_blk s (prepare b)) c) + unmet base b
        ≡ unentered base s + unmet base c
  unentered_twice s p b c at same =
      let pid : (prepare b).id ≡ p = t.prepare_id b ∙ blk_of-id s p b at in
      let cid : c.id ≡ (prepare b).id = same ∙ sym (t.prepare_id b) in
      let self : ((prepare b).id == (prepare b).id) ≡ true = ground arith in
      let stored : blk_of s (prepare b).id ≡ ok b = ap (blk_of s) pid ∙ at in
      let again : blk_of (put_blk s (prepare b)) c.id ≡ ok (prepare b) =
        ap (blk_of (put_blk s (prepare b))) cid
        ∙ blk_of-put_blk s (prepare b) (prepare b).id (b, stored)
        ∙ ap (λ x. if x then ok (prepare b) else blk_of s (prepare b).id) self in
      let one = unentered-put_blk base s (prepare b) b stored in
      let two = unentered-put_blk base (put_blk s (prepare b)) c (prepare b) again in
      omega (arith, one, two)

  Round-less :
      (all : List ℕ) (p : ℕ) (rest : List ℕ) (s : List Blk) (w : Walking)
      → Visits prepare work base t all (p ∷ rest) s
      → Round prepare work base p rest s w
      → measure w.stack w.blks < measure (p ∷ rest) s
  Round-less all p rest s _ v (skip b at over) = omega arith
  Round-less all p rest s _ v (first b at new) =
      let c = mark (prepare b) in
      let count = unentered_twice s p b c at (t.prepare_id b) in
      let was : unmet base b ≡ 1 = ground arith in
      let is : unmet base c ≡ 0 = ground (arith, t.prepare_visited b, v.marks p b at) in
      let one = length-push (prepare b).s1 (p ∷ rest) in
      let two = length-push (other_target (prepare b)) (push (prepare b).s1 (p ∷ rest)) in
      omega (arith, count, was, is, one, two)
  Round-less all p rest s _ v (second b c at old busy did) =
      let shape = t.work_shape (put_blk s (prepare b)) (prepare b) c did in
      let count = unentered_twice s p b (mark c) at (shape.id ∙ t.prepare_id b) in
      let seen : c.visited ≡ b.visited =
        t.work_visited (put_blk s (prepare b)) (prepare b) c did ∙ t.prepare_visited b in
      let was : unmet base b ≡ 0 = ground arith in
      let is : unmet base (mark c) ≡ 0 = ground (arith, seen) in omega (arith, count, was, is)

  -- Where each round can be made and keeps a further invariant, the traversal ends, with both
  -- invariants, nothing on the stack, the jumps that it started with, and the blocks met that these
  -- jumps lead to.
  pub walk_ends :
      (all : List ℕ) (k : List ℕ → List Blk → Type 0)
      → ((p : ℕ) (rest : List ℕ) (s : List Blk)
          → Visits prepare work base t all (p ∷ rest) s
          → k (p ∷ rest) s
          → (w : Walking) × Round prepare work base p rest s w × k w.stack w.blks)
      → (fuel : ℕ) (stack : List ℕ) (s : List Blk) → Visits prepare work base t all stack s
      → k stack s
      → 3 * length s + length stack ≤ fuel
      → (r : List Blk) × (walk prepare work base fuel stack s ≡ ok r)
        × Visits prepare work base t all [] r
        × k [] r
        × ((q : ℕ) → Met base r q → From prepare s (Reached base s stack) q)
        × ((q : ℕ) → From prepare s (Reached base s stack) q → Met base r q)
        × ((z q : ℕ) → Jump prepare r z q → Jump prepare s z q)
        × ((z q : ℕ) → Jump prepare s z q → Jump prepare r z q)
  walk_ends all k make fuel stack s v h enough =
      let roots = Reached base s stack in
      let (r, e, (vr, hr, sound, reached)) =
        walk_rule prepare work base
          (λ st bs.
            Visits prepare work base t all st bs
            × k st bs
            × Sound prepare work base t s roots st bs
            × ((q : ℕ) → roots q → Reached base bs st q))
          measure
          (λ p rest bs (vb, hb, sb, rb).
            let (w, move, hw) = make p rest bs vb hb in
            (
              w,
              Round-round prepare work base t.prepare_id t.prepare_visited p rest bs w move,
              (
                Round-Visits prepare work base t all p rest bs w vb move,
                hw,
                Round-Sound prepare work base t s roots p rest bs w sb move,
                λ q hq. Round-Reached prepare work base t all p rest bs w q vb move (rb q hq),
              ),
              Round-less all p rest bs w vb move,
            ))
          fuel stack s
          (
            v,
            h,
            record { back = λ z q n. n; forth = λ z q n. n; led = λ q hq. root q hq },
            λ q hq. hq,
          )
          (omega (arith, unentered-le base s)) in
      let met : (q : ℕ) → roots q → Met base r q =
        λ q hq. elim (reached q hq) [ inl m ↦ m | inr none_left ↦ absurd none_left ] in
      (
        r,
        e,
        vr,
        hr,
        (λ q m. sound.led q (inl m)),
        From-Met prepare work base t all s r roots vr sound met,
        sound.back,
        sound.forth,
      )

  -- The block on top, and which round it calls for.
  pub round_cases :
      (all : List ℕ) (p : ℕ) (rest : List ℕ) (s : List Blk)
      → Visits prepare work base t all (p ∷ rest) s
      → (b : Blk) × (blk_of s p ≡ ok b)
        × ((done b base ≡ true)
            ⊎ ((entered b base ≡ false) ⊎ ((entered b base ≡ true) × (done b base ≡ false))))
  round_cases all p rest s v =
      let (b, at) = Has-ids-Stored s p (ap_Has (sym v.same_ids) (v.on_stack p (inl refl))) in
      (
        b,
        at,
        elim (Bool-cases (done b base)) [
          | inl over ↦ inl over
          | inr busy ↦ elim (Bool-cases (entered b base)) [
            | inl old ↦ inr (inr (old, busy))
            | inr new ↦ inr (inl new)
          ]
        ],
      )
    where
      ap_Has : {xs ys : List ℕ} → xs ≡ ys → Has p xs → Has p ys
      ap_Has e h = subst (λ l. Has p l) e h

  -- With nothing on the stack, a block that was met is done, and so are its successors.
  pub met_done :
      (all : List ℕ) (s : List Blk) (p : ℕ) (b : Blk)
      → Visits prepare work base t all [] s
      → blk_of s p ≡ ok b
      → entered b base ≡ true
      → done b base ≡ true
  met_done all s p b v at met = elim (Bool-cases (done b base)) [
    | inl over ↦ over
    | inr busy ↦ absurd (v.waiting p b at met busy)
  ]
