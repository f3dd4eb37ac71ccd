-- ===== src/Nodes/Names.antt =====
-- src/nodes.c: the numbers of named temporaries (`idalloc`, `idmatch`).
use Prim.Native.String.{String}
use text.Mathlib.Text.{◌==◌}
use text.Mathlib.TextPositions.{eq_refl}
use text.Mathlib.TextEquality.{eq_iff}
use qbt.Prelude.{
  ℕ, suc, ◌<◌, ◌≡◌, ◌≢◌, ◌⊎◌, refl, ap, sym, ◌∙◌, inl, inr, List, [], ◌∷◌, ◌++◌, Bool, Bool-cases,
  Option, some, none, Option-cases, arith, if◌then◌else◌,
}
use qbt.Prelude.Int.{ℤ, pos, negsuc}
use qbt.Nodes.{Fn}

-- `strcmp(a, b) == 0`
abbrev pub same_name : String → String → Bool
same_name a b = a == b

-- `foreach_tmp` with its early return
unfoldable pub find_tmp : List (String × ℕ) → String → Option ℕ
find_tmp [] id = none
find_tmp ((name, v) ∷ ts) id =
    let rest = find_tmp ts id in if same_name name id then some v else rest

-- -1 where there is none
abbrev pub number : Option ℕ → ℤ
number (some v) = pos v
number none = negsuc 0

unfoldable pub idmatch : Fn → String → ℤ
idmatch f id = number (find_tmp f.tmps id)

-- `if (t >= 0) return t;`, or a new number
abbrev pub alloc : Fn → String → ℤ → Fn × ℕ
alloc f id (pos t) = (f, t)
alloc f id (negsuc _) = (record f { ntmp = suc f.ntmp; tmps = f.tmps ++ (id, f.ntmp) ∷ [] }, f.ntmp)

unfoldable pub idalloc : Fn → String → Fn × ℕ
idalloc f id = alloc f id (idmatch f id)

-- The number of a name is one that was given out, and no other name has it.
pub record Named (ts : List (String × ℕ)) (n : ℕ) : Type 0 where
  pub below : (a : String) (t : ℕ) → find_tmp ts a ≡ some t → t < n
  pub apart : (a b : String) (t : ℕ) → find_tmp ts a ≡ some t → find_tmp ts b ≡ some t → a ≡ b

found-append :
    (ts : List (String × ℕ)) (id a : String) (n t : ℕ)
    → find_tmp ts a ≡ some t
    → find_tmp (ts ++ (id, n) ∷ []) a ≡ some t
unfolding find_tmp
found-append ((name, v) ∷ ts) id a n t e = elim (Bool-cases (same_name name a)) [
  | inl h ↦ rw h (sym (ap (λ b. if b then some v else find_tmp ts a) h) ∙ e)
  | inr h ↦
      rw h (found-append ts id a n t (sym (ap (λ b. if b then some v else find_tmp ts a) h) ∙ e))
]
found-append [] id a n t e = absurd cc

missing-append :
    (ts : List (String × ℕ)) (id a : String) (n : ℕ)
    → find_tmp ts a ≡ none
    → find_tmp (ts ++ (id, n) ∷ []) a ≡ (if same_name id a then some n else none)
unfolding find_tmp
missing-append ((name, v) ∷ ts) id a n e = elim (Bool-cases (same_name name a)) [
  | inl h ↦ absurd (is_some (sym (ap (λ b. if b then some v else find_tmp ts a) h) ∙ e))
  | inr h ↦
      rw h (missing-append ts id a n (sym (ap (λ b. if b then some v else find_tmp ts a) h) ∙ e))
]
  where
    is_some : some v ≡ none → ⊥
    is_some p = cc
missing-append [] id a n e = refl

found_new :
    (ts : List (String × ℕ)) (id a : String) (n t : ℕ)
    → find_tmp (ts ++ (id, n) ∷ []) a ≡ some t
    → (find_tmp ts a ≡ some t) ⊎ ((id ≡ a) × (t ≡ n))
found_new ts id a n t e = elim (Option-cases (find_tmp ts a)) [
  | inr (s, old) ↦ inl (old ∙ sym (found-append ts id a n s old) ∙ e)
  | inl none_there ↦ elim (Bool-cases (same_name id a)) [
    | inl same ↦
        let hit : some n ≡ some t =
          sym (missing-append ts id a n none_there ∙ ap (λ b. if b then some n else none) same)
          ∙ e in
        inr ((eq_iff id a).0 same, cc)
    | inr other ↦
        let miss : none ≡ some t =
          sym (missing-append ts id a n none_there ∙ ap (λ b. if b then some n else none) other)
          ∙ e in
        absurd cc
  ]
]

Named-append :
    (ts : List (String × ℕ)) (id : String) (n : ℕ)
    → Named ts n
    → find_tmp ts id ≡ none
    → Named (ts ++ (id, n) ∷ []) (suc n)
Named-append ts id n h new = record {
  below = λ a t e. elim (found_new ts id a n t e) [
    | inl old ↦ omega (arith, h.below a t old)
    | inr (same, last) ↦ omega arith
  ];
  apart = λ a b t ea eb. elim (found_new ts id a n t ea) [
    | inl olda ↦ elim (found_new ts id b n t eb) [
      | inl oldb ↦ h.apart a b t olda oldb
      | inr (sameb, lastb) ↦ absurd (omega (arith, h.below a t olda))
    ]
    | inr (samea, lasta) ↦ elim (found_new ts id b n t eb) [
      | inl oldb ↦ absurd (omega (arith, h.below b t oldb))
      | inr (sameb, lastb) ↦ sym samea ∙ sameb
    ]
  ];
}

-- Where the numbers of the names are below the next one and different names have different
-- numbers, that is so behind `idalloc`, which answers the number by which the name is found from
-- then on; every other name is found as before.
pub idalloc-Named :
    (f : Fn) (id : String)
    → Named f.tmps f.ntmp
    → Named (idalloc f id).0.tmps (idalloc f id).0.ntmp
      × (idmatch (idalloc f id).0 id ≡ pos (idalloc f id).1)
      × ((a : String) → a ≢ id → idmatch (idalloc f id).0 a ≡ idmatch f a)
unfolding idalloc idmatch
idalloc-Named f id h = elim (Option-cases (find_tmp f.tmps id)) [
  | inr (t, e) ↦ rw e (h, e_number t e, λ a ne. refl)
  | inl e ↦ rw e (Named-append f.tmps id f.ntmp h e, fresh e, λ a ne. other a ne)
]
  where
    e_number : (t : ℕ) → find_tmp f.tmps id ≡ some t → number (find_tmp f.tmps id) ≡ pos t
    e_number t e = ap number e

    fresh :
        find_tmp f.tmps id ≡ none → number (find_tmp (f.tmps ++ (id, f.ntmp) ∷ []) id) ≡ pos f.ntmp
    fresh e =
        ap number (missing-append f.tmps id id f.ntmp e)
        ∙ ap (λ b. number (if b then some f.ntmp else none)) (eq_refl id)

    other :
        (a : String)
        → a ≢ id
        → number (find_tmp (f.tmps ++ (id, f.ntmp) ∷ []) a) ≡ number (find_tmp f.tmps a)
    other a ne = elim (Option-cases (find_tmp f.tmps a)) [
      | inr (t, e) ↦ ap number (found-append f.tmps id a f.ntmp t e ∙ sym e)
      | inl e ↦ elim (Bool-cases (same_name id a)) [
        | inl same ↦ absurd (ne (sym ((eq_iff id a).0 same)))
        | inr differs ↦ ap number (
            missing-append f.tmps id a f.ntmp e
            ∙ ap (λ b. if b then some f.ntmp else none) differs
            ∙ sym e)
      ]
    ]
