-- ===== src/Ssa/Params/Tables.antt =====
-- The vectors of `build_params` as sets of temporaries: the slot of a temporary in the set holds
-- it, and any other slot is empty.
use native.Mathlib.Nat.{add-zero}
use qbt.Prelude.{
  ℕ, suc, ◌+◌, ◌-◌, ◌≤◌, ◌≡◌, refl, ap, sym, ◌∙◌, inl, inr, List, [], ◌∷◌, Bool, true, false,
  Bool-cases, not, ◌&&◌, ◌||◌, ok, arith, leb, ◌==◌, length, get_or, set, if◌then◌else◌, All,
}
use qbt.Nodes.{Val, reg, tmp, noclass}
use qbt.Rules.{grow}
use qbt.Rules.Laws.{rule, rule-set, get_or-set, get_or_past}
use qbt.Ssa.Scope.{IsTmp}
use qbt.Ssa.Params.{add_val, remove_val, has_val, add_all, require_all, present}

-- The value is the temporary.
abbrev pub reads : Val → ℕ → Bool
reads (tmp u) t = u == t
reads _ t = false

-- The temporary is among the values.
abbrev pub among : List Val → ℕ → Bool
among [] t = false
among (v ∷ vs) t = reads v t || among vs t

-- The vector stands for the set, from temporary `k` on.
abbrev pub TableFrom : ℕ → List Val → (ℕ → Bool) → Type 0
TableFrom k map set =
    (j : ℕ) → get_or map j noclass ≡ (if set (k + j) then tmp (k + j) else noclass)

abbrev pub Table : List Val → (ℕ → Bool) → Type 0
Table map set = (t : ℕ) → rule map t ≡ (if set t then tmp t else noclass)

pub Table-ext :
    (map : List Val) (x y : ℕ → Bool) → Table map x → ((t : ℕ) → x t ≡ y t) → Table map y
Table-ext map x y h e t = h t ∙ ap (λ b. if b then tmp t else noclass) (e t)

empty_slot : (b : Bool) (t : ℕ) → (if b then tmp t else noclass) ≡ noclass → b ≡ false
empty_slot true t e = absurd cc
empty_slot false t e = refl

-- Past the end of the vector nothing is in the set.
past_end : (map : List Val) (x : ℕ → Bool) (u : ℕ) → Table map x → length map ≤ u → x u ≡ false
past_end map x u h past = empty_slot (x u) u (sym (h u) ∙ get_or_past map u noclass past)

pub add_val-Table :
    (map : List Val) (x : ℕ → Bool) (u : ℕ)
    → Table map x
    → (m : List Val) × (add_val map (tmp u) ≡ ok m) × Table m (λ t. x t || u == t)
unfolding add_val
add_val-Table map x u h =
    (set (grow noclass map u) u (tmp u), refl, λ t. rule-set map u t (tmp u) ∙ slot t)
  where
    slot :
        (t : ℕ)
        → (if u == t then tmp u else rule map t) ≡ (if x t || u == t then tmp t else noclass)
    slot t = elim (Bool-cases (u == t)) [
      | inl e ↦ let same : u ≡ t = ground arith in ground (arith, h t)
      | inr e ↦ ground (arith, h t)
    ]

pub has_val-Table :
    (map : List Val) (x : ℕ → Bool) (u : ℕ) → Table map x → has_val map (tmp u) ≡ ok (x u)
unfolding has_val
has_val-Table map x u h = elim (Bool-cases (leb (length map) u)) [
  | inl past ↦ let none_there = past_end map x u h (ground arith) in rw (past, none_there) refl
  | inr inside ↦ rw inside (ground (arith, h u))
]

pub remove_val-Table :
    (map : List Val) (x : ℕ → Bool) (u : ℕ)
    → Table map x
    → (m : List Val) × (remove_val map (tmp u) ≡ ok m) × Table m (λ t. x t && not (u == t))
unfolding remove_val
remove_val-Table map x u h = elim (Bool-cases (leb (length map) u)) [
  | inl past ↦ (map, rw past refl, λ t. h t ∙ ap (λ b. if b then tmp t else noclass) (same past t))
  | inr inside ↦ (
    set map u noclass,
    rw inside refl,
    λ t. get_or-set map u t noclass noclass (ground arith) ∙ slot t,
  )
]
  where
    same : leb (length map) u ≡ true → (t : ℕ) → x t ≡ x t && not (u == t)
    same past t = elim (Bool-cases (u == t)) [
      | inl e ↦
          let at : u ≡ t = ground arith in
          let none_there : x t ≡ false = ap x (sym at) ∙ past_end map x u h (ground arith) in
          rw none_there refl
      | inr e ↦ ground arith
    ]

    slot :
        (t : ℕ)
        → (if u == t then noclass else rule map t)
          ≡ (if x t && not (u == t) then tmp t else noclass)
    slot t = elim (Bool-cases (u == t)) [ inl e ↦ ground arith | inr e ↦ ground (arith, h t) ]

pub add_all-Table :
    (map : List Val) (x : ℕ → Bool) (ps : List Val)
    → Table map x
    → All IsTmp ps
    → (m : List Val) × (add_all map ps ≡ ok m) × Table m (λ t. x t || among ps t)
unfolding add_all
add_all-Table map x [] h tmps =
    (map, refl, Table-ext map x (λ t. x t || false) h (λ t. ground arith))
add_all-Table map x (tmp u ∷ ps) h (hu, tmps) =
    let (m, e, hm) = add_val-Table map x u h in
    let (n, en, hn) = add_all-Table m (λ t. x t || u == t) ps hm tmps in
    (
      n,
      rw e en,
      Table-ext n (λ t. (x t || u == t) || among ps t) (λ t. x t || (u == t || among ps t)) hn
          (λ t. ground arith),
    )
add_all-Table map x (reg r ∷ ps) h (hu, tmps) = absurd cc
add_all-Table map x (Val.imm v t ∷ ps) h (hu, tmps) = absurd cc
add_all-Table map x (Val.mem b o ∷ ps) h (hu, tmps) = absurd cc
add_all-Table map x (Val.ref n ∷ ps) h (hu, tmps) = absurd cc
add_all-Table map x (noclass ∷ ps) h (hu, tmps) = absurd cc

abbrev slot_of : (ℕ → Bool) → ℕ → Val
slot_of x t = if x t then tmp t else noclass

pub Table-From : (map : List Val) (x : ℕ → Bool) → Table map x → TableFrom 0 map x
Table-From map x h j = let at : j ≡ 0 + j = omega arith in h j ∙ ap (slot_of x) at

TableFrom-nil : (k : ℕ) (x : ℕ → Bool) (t : ℕ) → TableFrom k [] x → leb k t && x t ≡ false
TableFrom-nil k x t h = elim (Bool-cases (leb k t)) [
  | inl le ↦
      let at : k + (t - k) ≡ t = ground arith in
      rw le (empty_slot (x t) t (ap (slot_of x) (sym at) ∙ sym (h (t - k))))
  | inr gt ↦ rw gt refl
]

TableFrom-head :
    (k : ℕ) (p : Val) (ps : List Val) (x : ℕ → Bool) → TableFrom k (p ∷ ps) x → p ≡ slot_of x k
TableFrom-head k p ps x h = h 0 ∙ ap (slot_of x) (add-zero k)

TableFrom-tail :
    (k : ℕ) (p : Val) (ps : List Val) (x : ℕ → Bool)
    → TableFrom k (p ∷ ps) x
    → TableFrom (suc k) ps x
TableFrom-tail k p ps x h j =
    let at : k + suc j ≡ suc k + j = omega arith in h (suc j) ∙ ap (slot_of x) at

-- The members from `k` on are `k`, if it is one, and those behind it.
members_split :
    (k : ℕ) (x : ℕ → Bool) (t : ℕ) → leb k t && x t ≡ (k == t && x k) || (leb (suc k) t && x t)
members_split k x t = elim (Bool-cases (k == t)) [
  | inl e ↦ let same : k ≡ t = ground arith in ground (arith, ap x same)
  | inr e ↦ ground arith
]

-- The members that `require_all` adds.
pub require_all-Table :
    (k : ℕ) (forward required : List Val) (f r : ℕ → Bool)
    → TableFrom k forward f
    → Table required r
    → (m : List Val) × (require_all forward required ≡ ok m)
      × Table m (λ t. r t || (leb k t && f t))
unfolding require_all
require_all-Table k [] required f r hf hr = (
  required,
  refl,
  Table-ext required r (λ t. r t || (leb k t && f t)) hr
      (λ t. ground (arith, TableFrom-nil k f t hf)),
)
require_all-Table k (p ∷ ps) required f r hf hr = elim (Bool-cases (f k)) [
  | inr absent ↦
      let empty : p ≡ noclass =
        TableFrom-head k p ps f hf ∙ ap (λ b. if b then tmp k else noclass) absent in
      let (m, e, hm) = require_all-Table (suc k) ps required f r tail hr in
      (
        m,
        rw empty e,
        Table-ext m (λ t. r t || (leb (suc k) t && f t)) (λ t. r t || (leb k t && f t)) hm
            (λ t. ground (arith, members_split k f t)),
      )
  | inl there ↦
      let full : p ≡ tmp k =
        TableFrom-head k p ps f hf ∙ ap (λ b. if b then tmp k else noclass) there in
      elim (Bool-cases (r k)) [
        | inl old ↦
            let (m, e, hm) = require_all-Table (suc k) ps required f r tail hr in
            (
              m,
              rw (full, has_val-Table required r k hr, old) e,
              Table-ext m (λ t. r t || (leb (suc k) t && f t)) (λ t. r t || (leb k t && f t)) hm
                  (kept old),
            )
        | inr new ↦
            let (n, en, hn) = add_val-Table required r k hr in
            let (m, e, hm) = require_all-Table (suc k) ps n f (λ t. r t || k == t) tail hn in
            (
              m,
              rw (full, has_val-Table required r k hr, new, en) e,
              Table-ext m (λ t. (r t || k == t) || (leb (suc k) t && f t))
                  (λ t. r t || (leb k t && f t)) hm (λ t. ground (arith, members_split k f t)),
            )
      ]
]
  where
    tail : TableFrom (suc k) ps f
    tail = TableFrom-tail k p ps f hf

    kept : r k ≡ true → (t : ℕ) → r t || (leb (suc k) t && f t) ≡ r t || (leb k t && f t)
    kept old t = elim (Bool-cases (k == t)) [
      | inl e ↦ let same : k ≡ t = ground arith in ground (arith, ap r same)
      | inr e ↦ ground (arith, members_split k f t)
    ]

pub present-IsTmp :
    (k : ℕ) (map : List Val) (x : ℕ → Bool) → TableFrom k map x → All IsTmp (present map)
unfolding present
present-IsTmp k [] x h = tt
present-IsTmp k (p ∷ ps) x h = elim (Bool-cases (x k)) [
  | inl there ↦
      let full : p ≡ tmp k =
        TableFrom-head k p ps x h ∙ ap (λ b. if b then tmp k else noclass) there in
      rw full (refl, present-IsTmp (suc k) ps x (TableFrom-tail k p ps x h))
  | inr absent ↦
      let empty : p ≡ noclass =
        TableFrom-head k p ps x h ∙ ap (λ b. if b then tmp k else noclass) absent in
      rw empty (present-IsTmp (suc k) ps x (TableFrom-tail k p ps x h))
]

pub among-present :
    (k : ℕ) (map : List Val) (x : ℕ → Bool) (t : ℕ)
    → TableFrom k map x
    → among (present map) t ≡ leb k t && x t
unfolding present
among-present k [] x t h = sym (TableFrom-nil k x t h)
among-present k (p ∷ ps) x t h = elim (Bool-cases (x k)) [
  | inl there ↦
      let full : p ≡ tmp k =
        TableFrom-head k p ps x h ∙ ap (λ b. if b then tmp k else noclass) there in
      rw (full, among-present (suc k) ps x t (TableFrom-tail k p ps x h))
        (ground (arith, members_split k x t))
  | inr absent ↦
      let empty : p ≡ noclass =
        TableFrom-head k p ps x h ∙ ap (λ b. if b then tmp k else noclass) absent in
      rw (empty, among-present (suc k) ps x t (TableFrom-tail k p ps x h))
        (ground (arith, members_split k x t))
]
