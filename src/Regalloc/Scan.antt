-- ===== src/Regalloc/Scan.antt =====
-- src/regalloc.c: the linear scan over the lifetimes of one block (`build_rmap`).
-- A loop that starts at index `i` of the table is a recursion on the part of the list from there on.
pub mod Active
pub mod Free
pub mod Reserved
pub mod Step
pub mod Table
pub mod Apart
pub mod HintShares
use qbt.Prelude.{
  ℕ, ◌-◌, ◌==◌, ◌&&◌, List, [], ◌∷◌, ◌++◌, Bool, true, false, not, Result, ok, fault, ◌>>=◌, ◌>>◌,
  assert, assert_failed, leb, max, ltb, if◌then◌else◌,
}
use qbt.Nodes.{Val, reg, is_reg, hasclass, r_of, same_val}
use qbt.Abi.Regs.{tr_map}
use qbt.Rules.{has_rewrite_rule, rewrite_tmp, add_rewrite_rule}
use qbt.Regalloc.Lifetimes.{Lifetime, get_hint}

-- The loop over the lifetimes that were active before.
unfoldable pub scan_prev : List Lifetime → ℕ → ℕ → List Lifetime
scan_prev [] start end = []
scan_prev (l ∷ ls) start end =
    let rest = scan_prev ls start end in
    if leb l.end start then rest else if leb end l.start then [] else l ∷ rest

-- The loop over the table from the current lifetime on.
unfoldable pub scan_from : List Lifetime → ℕ → ℕ → List Lifetime
scan_from [] start end = []
scan_from (l ∷ ls) start end =
    let rest = scan_from ls start end in
    if l.used == 0
    then rest
    else if leb l.end start
    then rest
    else if leb end l.start
    then []
    else l ∷ rest

-- `prev` is empty where the source passes no vector.
unfoldable pub build_active_between : List Lifetime → List Lifetime → ℕ → ℕ → List Lifetime
build_active_between prev ls start end = scan_prev prev start end ++ scan_from ls start end

-- The current lifetime is the first of the part of the table that is left.
unfoldable pub build_active : List Lifetime → Lifetime → List Lifetime → List Lifetime
build_active prev l ls = build_active_between prev (l ∷ ls) l.start l.end

unfoldable pub build_reserved : List Lifetime → List Val → Result (List Val)
build_reserved [] rmap = ok []
build_reserved (l ∷ ls) rmap =
    let rest = build_reserved ls rmap in
    if l.used == 0
    then rest
    else if has_rewrite_rule rmap l.v
    then (do act ← rewrite_tmp rmap l.v; rs ← rest; ok (act ∷ rs))
    else rest

-- Some reserved register is the given one.
unfoldable pub clashes : List Val → Val → Bool
clashes [] f = false
clashes (r ∷ rs) f = if same_val r f then true else clashes rs f

unfoldable pub reg_free : List Val → Val → Result Bool
reg_free reserved f = do assert (is_reg f); ok (not (clashes reserved f))

-- The first register of the array that is free; running out is a failed assertion.
unfoldable pub first_free : List ℕ → List Val → Result Val
first_free [] reserved = fault assert_failed
first_free (r ∷ rs) reserved = do
  let rest = first_free rs reserved
  free ← reg_free reserved (reg r)
  if free then ok (reg r) else rest

unfoldable pub find_free_reg : List Val → Result Val
find_free_reg reserved = first_free tr_map reserved

-- RS0 to RS23 are x18 to x24 and x63 to x79: the place of such a register among them, from 1, and
-- 0 for any other.
unfoldable pub sreg_place : ℕ → ℕ
sreg_place r = if leb 18 r && leb r 24 then r - 17 else if leb 63 r && leb r 79 then r - 55 else 0

unfoldable pub highest_sreg : Val → Result ℕ
highest_sreg f = do assert (is_reg f); ok (sreg_place (r_of f))

pub record Scan : Type 0 where
  pub max_callee_save : ℕ
  pub prev_active : List Lifetime
  pub rmap : List Val

-- A hint is taken when its register is free.
unfoldable pub hint_free : List Val → Val → Result Bool
hint_free reserved h = if hasclass h then reg_free reserved h else ok false

unfoldable pub take_hint : Lifetime → Val → Scan → Result Scan
take_hint l h s = do rmap ← add_rewrite_rule s.rmap l.v h; ok (record s { rmap = rmap })

unfoldable pub take_free : Lifetime → List Lifetime → List Val → Scan → Result Scan
take_free l active reserved s = do
  f ← find_free_reg reserved
  n ← highest_sreg f
  rmap ← add_rewrite_rule s.rmap l.v f
  ok (record {
    max_callee_save = if ltb s.max_callee_save n then n else s.max_callee_save;
    prev_active = active;
    rmap = rmap;
  })

-- The part of a round behind the tests that skip it. Taking a hint leaves `prev_active` as it is.
unfoldable pub assign : List Val → Lifetime → List Lifetime → Scan → Result Scan
assign hints l ls s = do
  let active = build_active s.prev_active l ls
  reserved ← build_reserved active s.rmap
  let h = get_hint hints l.v
  hinted ← hint_free reserved h
  if hinted then take_hint l h s else take_free l active reserved s

unfoldable pub scan_step : List Val → Lifetime → List Lifetime → Scan → Result Scan
scan_step hints l ls s =
    if l.used == 0 then ok s else if has_rewrite_rule s.rmap l.v then ok s else assign hints l ls s

unfoldable pub scan_all : List Val → List Lifetime → Scan → Result Scan
scan_all hints [] s = ok s
scan_all hints (l ∷ ls) s = do s1 ← scan_step hints l ls s; scan_all hints ls s1

abbrev pub scan_start : List Val → Scan
scan_start rmap = record { max_callee_save = 0; prev_active = []; rmap = rmap }

unfoldable pub build_rmap : List Val → List Lifetime → List Val → Result (ℕ × List Val)
build_rmap hints lifetimes rmap = do
  s ← scan_all hints lifetimes (scan_start rmap)
  ok (s.max_callee_save, s.rmap)
