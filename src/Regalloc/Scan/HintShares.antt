-- ===== src/Regalloc/Scan/HintShares.antt =====
-- A fault of the linear scan: a hinted temporary can share the register of a fixed one.
use qbt.Prelude.{ℕ, ◌<◌, ◌≡◌, ap, ◌∙◌, List, [], ◌∷◌, true, false, ok, arith, ◌==◌, set}
use qbt.Nodes.{Val, tmp, reg, noclass}
use qbt.Rules.{grow, has_rewrite_rule, add_rewrite_rule}
use qbt.Rules.Laws.{rule, rule-set, add_rewrite_rule-ok, has_rewrite_rule-eq}
use qbt.Regalloc.Lifetimes.{Lifetime, get_hint}
use qbt.Nodes.{hasclass}
use qbt.Regalloc.Scan.{
  build_active, build_active_between, scan_prev, scan_from, build_reserved, assign, hint_free,
  take_hint, reg_free, clashes, scan_step, scan_all, scan_start, build_rmap,
}
use qbt.Regalloc.Scan.Active.{key}
use qbt.Regalloc.Scan.Step.{Overlap}

step_fixed :
    (hints rmap : List Val) (a b : Lifetime) (r : ℕ)
    → 0 < a.used
    → rule rmap (key a) ≡ reg r
    → scan_step hints a (b ∷ []) (scan_start rmap) ≡ ok (scan_start rmap)
unfolding scan_step
step_fixed hints rmap a b r ua fixed =
    let used : (a.used == 0) ≡ false = ground arith in
    let has : has_rewrite_rule rmap a.v ≡ true = has_rewrite_rule-eq rmap a.v ∙ ap hasclass fixed in
    rw (used, has)

-- Alone among the active ones and without a rule, a temporary finds nothing reserved.
alone_reserves :
    (rmap : List Val) (b : Lifetime)
    → 0 < b.used
    → has_rewrite_rule rmap b.v ≡ false
    → build_reserved (build_active [] b []) rmap ≡ ok []
unfolding build_active build_active_between scan_prev scan_from build_reserved
alone_reserves rmap b ub none = ground arith

step_hinted :
    (hints rmap : List Val) (b : Lifetime) (r : ℕ)
    → 0 < b.used
    → b.v ≡ tmp (key b)
    → rule rmap (key b) ≡ noclass
    → get_hint hints b.v ≡ reg r
    → scan_step hints b [] (scan_start rmap)
      ≡ ok (record (scan_start rmap) { rmap = set (grow noclass rmap (key b)) (key b) (reg r) })
unfolding scan_step assign hint_free take_hint reg_free clashes
step_hinted hints rmap b r ub vb bare hinted =
    let used : (b.used == 0) ≡ false = ground arith in
    let none : has_rewrite_rule rmap b.v ≡ false =
      has_rewrite_rule-eq rmap b.v ∙ ap hasclass bare in
    let added : add_rewrite_rule rmap b.v (reg r)
        ≡ ok (set (grow noclass rmap (key b)) (key b) (reg r)) =
      ap (λ v. add_rewrite_rule rmap v (reg r)) vb ∙ add_rewrite_rule-ok rmap (key b) r in
    rw (used, none, alone_reserves rmap b ub none, hinted, added)

-- For a table of exactly two lifetimes, the earlier fixed to a register by its rule, and the later
-- overlapping it, without a rule and hinted to that register, the scan gives both that register.
pub build_rmap-hint_shares :
    (hints rmap : List Val) (a b : Lifetime) (r : ℕ)
    → 0 < a.used
    → 0 < b.used
    → b.v ≡ tmp (key b)
    → key a < key b
    → Overlap a b
    → rule rmap (key a) ≡ reg r
    → rule rmap (key b) ≡ noclass
    → get_hint hints b.v ≡ reg r
    → (n : ℕ) × (rmap' : List Val) × (build_rmap hints (a ∷ b ∷ []) rmap ≡ ok (n, rmap'))
      × (rule rmap' (key a) ≡ reg r)
      × (rule rmap' (key b) ≡ reg r)
unfolding build_rmap scan_all
build_rmap-hint_shares hints rmap a b r ua ub vb lt over fixed bare hinted =
    let fixed_skips : scan_step hints a (b ∷ []) (scan_start rmap) ≡ ok (scan_start rmap) =
      step_fixed hints rmap a b r ua fixed in
    (
      0,
      set (grow noclass rmap (key b)) (key b) (reg r),
      rw (fixed_skips, step_hinted hints rmap b r ub vb bare hinted),
      rule-set rmap (key b) (key a) (reg r)
          ∙ (let other : (key b == key a) ≡ false = ground arith in rw other fixed),
      rule-set rmap (key b) (key b) (reg r)
          ∙ (let same : (key b == key b) ≡ true = ground arith in rw same),
    )
