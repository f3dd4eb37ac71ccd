-- ===== src/Regalloc/Calls/Place.antt =====
-- Where the saves and restores of a call go: in front of the instructions that set it up, and
-- behind those that take it down.
use native.Mathlib.Nat.{add-zero, add-suc}
use qbt.Prelude.{
  ℕ, zero, suc, ◌+◌, ◌<◌, ◌≤◌, ◌≡◌, refl, ap, sym, ◌∙◌, List, [], ◌∷◌, ◌++◌, true, false, some, ok,
  arith, leb, length, length-append, get_elem?, get_elem?-append, drop, All, All-append,
}
use mathlib.Core.Path.{ap₂}
use mathlib.Core.List.{append_assoc}
use qbt.Seq.{insert_at}
use qbt.Nodes.{InsnType, same_type, Insn}
use qbt.Regalloc.Calls.{seek_before, seek_after, insn_insert_before_call, insn_insert_after_call}

abbrev pub IsSetup : Insn → Type 0
IsSetup i = i.flags.call_setup ≡ true

abbrev pub IsTeardown : Insn → Type 0
IsTeardown i = i.flags.call_teardown ≡ true

abbrev pub IsCall : Insn → Type 0
IsCall i = same_type i.type InsnType.call ≡ true

-- No setup instruction stands at the end, no teardown instruction at the start.
pub data EndsPlain : List Insn → Type 0 where
  empty : EndsPlain []
  ends : (zs : List Insn) (z : Insn) → z.flags.call_setup ≡ false → EndsPlain (zs ++ z ∷ [])

abbrev pub StartsPlain : List Insn → Type 0
StartsPlain [] = Unit
StartsPlain (i ∷ is) = i.flags.call_teardown ≡ false

module _ {A : Type 0} where
  pub insert_at-append :
      (xs ys : List A) (x : A) → insert_at (xs ++ ys) x (length xs) ≡ xs ++ x ∷ ys
  insert_at-append [] ys x = refl
  insert_at-append (z ∷ xs) ys x = ap (λ t. z ∷ t) (insert_at-append xs ys x)

  drop-append : (xs ys : List A) → drop (length xs) (xs ++ ys) ≡ ys
  drop-append [] ys = refl
  drop-append (x ∷ xs) ys = drop-append xs ys

seek_before-suc :
    (insns : List Insn) (p : ℕ) (i : Insn)
    → get_elem? insns p ≡ some i
    → IsSetup i
    → seek_before insns (suc p) ≡ seek_before insns p
unfolding seek_before
seek_before-suc insns p i at flagged = rw (at, flagged)

-- The search passes over setup instructions.
seek_before-group :
    (pre group rest : List Insn) (k : ℕ)
    → All IsSetup group
    → k ≤ length group
    → seek_before (pre ++ (group ++ rest)) (length pre + k)
      ≡ seek_before (pre ++ (group ++ rest)) (length pre)
seek_before-group pre group rest zero h le =
    ap (seek_before (pre ++ (group ++ rest))) (add-zero (length pre))
seek_before-group pre group rest (suc k) h le =
    let (i, at, flagged) = member group k h le in
    ap (seek_before (pre ++ (group ++ rest))) (add-suc (length pre) k)
    ∙ seek_before-suc (pre ++ (group ++ rest)) (length pre + k) i
        (get_elem?-append pre (group ++ rest) k ∙ at) flagged
    ∙ seek_before-group pre group rest k h (omega arith)
  where
    member :
        (g : List Insn) (j : ℕ)
        → All IsSetup g
        → j < length g
        → (i : Insn) × (get_elem? (g ++ rest) j ≡ some i) × IsSetup i
    member (x ∷ g) zero (hx, hg) lt = (x, refl, hx)
    member (x ∷ g) (suc j) (hx, hg) lt = member g j hg (omega arith)
    member [] j hg lt = absurd (omega arith)

seek_before-stop :
    {pre : List Insn} (rest : List Insn)
    → EndsPlain pre
    → seek_before (pre ++ rest) (length pre) ≡ ok (length pre)
unfolding seek_before
seek_before-stop rest empty = refl
seek_before-stop rest (ends zs z plain) =
    let long : length (zs ++ z ∷ []) ≡ suc (length zs) = omega (arith, length-append zs (z ∷ [])) in
    let last : get_elem? ((zs ++ z ∷ []) ++ rest) (length zs) ≡ some z =
      ap₂ get_elem? (append_assoc zs (z ∷ []) rest) (sym (add-zero (length zs)))
      ∙ get_elem?-append zs (z ∷ rest) 0 in
    rw long (stop (length zs) last)
  where
    stop :
        (n : ℕ)
        → get_elem? ((zs ++ z ∷ []) ++ rest) n ≡ some z
        → seek_before ((zs ++ z ∷ []) ++ rest) (suc n) ≡ ok (suc n)
    stop n at = rw (at, plain)

call_place :
    (pre setup : List Insn) (call : Insn) (rest : List Insn)
    → get_elem? (pre ++ (setup ++ call ∷ rest)) (length pre + length setup) ≡ some call
call_place pre setup call rest =
    get_elem?-append pre (setup ++ call ∷ rest) (length setup)
    ∙ ap (get_elem? (setup ++ call ∷ rest)) (sym (add-zero (length setup)))
    ∙ get_elem?-append setup (call ∷ rest) 0

All-snoc :
    (setup : List Insn) (call : Insn)
    → All IsSetup setup
    → IsSetup call
    → All IsSetup (setup ++ call ∷ [])
All-snoc setup call h c = All-append IsSetup setup (call ∷ []) h (c, tt)

-- An instruction inserted before the call comes in front of the setup.
pub insn_insert_before_call-place :
    (pre setup : List Insn) (call : Insn) (rest : List Insn) (x : Insn)
    → EndsPlain pre
    → All IsSetup setup
    → IsSetup call
    → IsCall call
    → insn_insert_before_call (pre ++ (setup ++ call ∷ rest)) x (length pre + length setup)
      ≡ ok (pre ++ x ∷ (setup ++ call ∷ rest))
unfolding insn_insert_before_call
insn_insert_before_call-place pre setup call rest x plain h c t =
    let group = setup ++ call ∷ [] in
    let whole : pre ++ (setup ++ call ∷ rest) ≡ pre ++ (group ++ rest) =
      ap (λ r. pre ++ r) (sym (append_assoc setup (call ∷ []) rest)) in
    let count : suc (length pre + length setup) ≡ length pre + length group =
      omega (arith, length-append setup (call ∷ [])) in
    let place : seek_before (pre ++ (setup ++ call ∷ rest)) (suc (length pre + length setup))
        ≡ ok (length pre) =
      ap₂ seek_before whole count
      ∙ seek_before-group pre group rest (length group) (All-snoc setup call h c) (omega arith)
      ∙ seek_before-stop (group ++ rest) plain in
    let fits : leb (length pre) (length (pre ++ (setup ++ call ∷ rest))) ≡ true =
      ground (arith, length-append pre (setup ++ call ∷ rest)) in
    rw (
      call_place pre setup call rest,
      t,
      place,
      fits,
      insert_at-append pre (setup ++ call ∷ rest) x,
    )

seek_after-group :
    (group post : List Insn) (p : ℕ)
    → All IsTeardown group
    → StartsPlain post
    → seek_after (group ++ post) p ≡ p + length group
unfolding seek_after
seek_after-group [] [] p h plain = omega arith
seek_after-group [] (i ∷ post) p h plain = rw plain (omega arith)
seek_after-group (i ∷ group) post p (hi, h) plain =
    rw hi (seek_after-group group post (suc p) h plain ∙ omega arith)

-- An instruction inserted after the call comes behind the teardown.
pub insn_insert_after_call-place :
    (front teardown post : List Insn) (call : Insn) (x : Insn)
    → All IsTeardown teardown
    → IsTeardown call
    → IsCall call
    → StartsPlain post
    → insn_insert_after_call (front ++ call ∷ (teardown ++ post)) x (length front)
      ≡ ok (front ++ call ∷ (teardown ++ x ∷ post))
unfolding insn_insert_after_call
insn_insert_after_call-place front teardown post call x h c t plain =
    let at : get_elem? (front ++ call ∷ (teardown ++ post)) (length front) ≡ some call =
      ap (get_elem? (front ++ call ∷ (teardown ++ post))) (sym (add-zero (length front)))
      ∙ get_elem?-append front (call ∷ (teardown ++ post)) 0 in
    let group = front ++ call ∷ teardown in
    let regroup : (ys : List Insn) → front ++ call ∷ (teardown ++ ys) ≡ group ++ ys =
      λ ys. sym (append_assoc front (call ∷ teardown) ys) in
    let long : length front + suc (length teardown) ≡ length group =
      omega (arith, length-append front (call ∷ teardown)) in
    let place : seek_after (drop (length front) (front ++ call ∷ (teardown ++ post))) (length front)
        ≡ length group =
      ap (λ r. seek_after r (length front)) (drop-append front (call ∷ (teardown ++ post)))
      ∙ seek_after-group (call ∷ teardown) post (length front) (c, h) plain
      ∙ long in
    let fits : leb (length group) (length (front ++ call ∷ (teardown ++ post))) ≡ true =
      ground (arith, ap length (regroup post), length-append group post) in
    rw (at, t, place, fits)
      (ap ok (
        ap (λ r. insert_at r x (length group)) (regroup post)
        ∙ insert_at-append group post x
        ∙ sym (regroup (x ∷ post))))
