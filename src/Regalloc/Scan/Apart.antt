-- ===== src/Regalloc/Scan/Apart.antt =====
-- The linear scan of a block (`build_rmap`): every temporary gets a register, and temporaries that
-- are live together get different ones.
use qbt.Prelude.{
  ℕ, suc, ◌+◌, ◌<◌, ◌≤◌, ◌≡◌, refl, ap, sym, ◌∙◌, ◌≢◌, inl, inr, List, [], ◌∷◌, true, ok, arith,
  ◌==◌, length, Has,
}
use qbt.Nodes.{Val, reg, noclass}
use qbt.Rules.Laws.{rule}
use qbt.Regalloc.Lifetimes.{Lifetime, get_hint}
use qbt.Regalloc.Scan.{Scan, scan_step, scan_all, scan_start, build_rmap, sreg_place}
use qbt.Regalloc.Scan.Active.{key, Part, none_left, from}
use qbt.Regalloc.Scan.Reserved.{Placed}
use qbt.Regalloc.Scan.Step.{Overlap, Inv, step-Inv, reg-injective}
use qbt.Regalloc.Scan.Table.{
  live, Table, Facts, live_gap, live_entry, Table-Facts, live-Has, Table-Part,
}

scan_step_gap :
    (hints : List Val) (q : Lifetime) (Q : List Lifetime) (s : Scan)
    → q.used ≡ 0
    → scan_step hints q Q s ≡ ok s
unfolding scan_step
scan_step_gap hints q Q s none = let skipped : (q.used == 0) ≡ true = ground arith in rw skipped

-- The outcome of a scan over the rest of the table.
record Outcome (hints : List Val) (L Q : List Lifetime) (s : Scan) : Type 0 where
  final : Scan
  passed : List Lifetime
  last : ℕ
  count : ℕ
  runs : scan_all hints Q s ≡ ok final
  inv : Inv L passed [] last count final
  bounded : count ≤ 72

module _ (L : List Lifetime) (f : Facts L) (hints : List Val)
    (unhinted : (k : Lifetime) → Has k L → get_hint hints k.v ≡ noclass) where
  Inv-skip :
      (D : List Lifetime) {q : Lifetime} {Q : List Lifetime} (σ c : ℕ) (s : Scan)
      → q.used ≡ 0
      → Inv L D (q ∷ Q) σ c s
      → Inv L D Q σ c s
  Inv-skip D {q} {Q} σ c s none inv = record {
    split = λ k hk. elim (inv.split k hk) [
      | inl done ↦ inl done
      | inr (inl p) ↦ absurd (omega (arith, f.sorted.used k hk, ap (λ (x : Lifetime). x.used) p))
      | inr (inr h) ↦ inr h
    ];
    member = inv.member;
    order = λ k r hk hr h. inv.order k r hk hr (inr h);
    past = inv.past;
    ahead = λ k hk h. inv.ahead k hk (inr h);
    closed = inv.closed;
    covered = inv.covered;
    placed = inv.placed;
    free = λ k hk h. inv.free k hk (inr h);
    apart = inv.apart;
  }

  scan_all-Outcome :
      {Q : List Lifetime}
      → Part L Q
      → (D : List Lifetime) (σ c : ℕ) (s : Scan) → Inv L D Q σ c s
      → c + length (live Q) ≤ 72
      → Outcome hints L Q s
  unfolding scan_all live
  scan_all-Outcome none_left D σ c s inv room = record {
    final = s;
    passed = D;
    last = σ;
    count = c;
    runs = refl;
    inv = inv;
    bounded = omega arith;
  }
  scan_all-Outcome (Part.unused {q} {Q} none part) D σ c s inv room =
      let rest =
        scan_all-Outcome part D σ c s (Inv-skip D σ c s none inv)
          (rw (live_gap q Q none) at room) in
      let skipped : scan_step hints q Q s ≡ ok s = scan_step_gap hints q Q s none in
      record {
        final = rest.final;
        passed = rest.passed;
        last = rest.last;
        count = rest.count;
        runs = rw skipped rest.runs;
        inv = rest.inv;
        bounded = rest.bounded;
      }
  scan_all-Outcome (from {q} {Q} here used asc part) D σ c s inv room =
      let room' : c + suc (length (live Q)) ≤ 72 = rw (live_entry q Q used) at room in
      let (t, runs, kept) =
        step-Inv L f.sorted f.proper hints unhinted D here used asc part σ c s inv (omega arith) in
      let rest = scan_all-Outcome part (q ∷ D) q.start (suc c) t kept (omega arith) in
      record {
        final = rest.final;
        passed = rest.passed;
        last = rest.last;
        count = rest.count;
        runs = rw runs rest.runs;
        inv = rest.inv;
        bounded = rest.bounded;
      }

-- A block's allocation: every live entry has a register of the array, a callee-save register is
-- within the reported maximum, and entries that overlap have different registers.
pub record Allocated (L : List Lifetime) (max_callee_save : ℕ) (rmap : List Val) : Type 0 where
  pub placed :
      (k : Lifetime)
      → Has k L
      → (n : ℕ) × (rule rmap (key k) ≡ reg n) × Placed 72 n × (sreg_place n ≤ max_callee_save)
  pub apart :
      (a b : Lifetime)
      → Has a L
      → Has b L
      → key a < key b
      → Overlap a b
      → rule rmap (key a) ≢ rule rmap (key b)

start-Inv :
    (ls : List Lifetime) (rmap : List Val)
    → Table ls
    → ((k : Lifetime) → Has k (live ls) → rule rmap (key k) ≡ noclass)
    → Inv (live ls) [] ls 0 0 (scan_start rmap)
start-Inv ls rmap t bare = record {
  split = λ k hk. inr (live-Has k ls hk);
  member = λ k h. absurd h;
  order = λ k r h. absurd h;
  past = λ k h. absurd h;
  ahead = λ k hk h. omega arith;
  closed = tt;
  covered = λ k h _. h;
  placed = λ k h. absurd h;
  free = λ k hk h. bare k hk;
  apart = λ a b n m h. absurd h;
}

Outcome-Allocated :
    (hints : List Val) (L Q : List Lifetime) (s : Scan) (o : Outcome hints L Q s)
    → Allocated L o.final.max_callee_save o.final.rmap
Outcome-Allocated hints L Q s o = record {
  placed = λ k hk.
      let (n, e, placed, saved) = o.inv.placed k (passed k hk) in
      (
        n,
        e,
        record {
          place = placed.place;
          at = placed.at;
          below = omega (arith, placed.below, o.bounded);
        },
        saved,
      );
  apart = λ a b ha hb lt over same.
      let (n, ea, _, _) = o.inv.placed a (passed a ha) in
      let (m, eb, _, _) = o.inv.placed b (passed b hb) in
      o.inv.apart a b n m (passed a ha) (passed b hb) lt over ea eb
        (reg-injective (sym ea ∙ same ∙ eb));
}
  where
    passed : (k : Lifetime) → Has k L → Has k o.passed
    passed k hk = elim (o.inv.split k hk) [ inl h ↦ h | inr h ↦ absurd h ]

-- For a block with at most 72 temporaries, each used behind its definition and none of them fixed
-- to a register or hinted to one, the linear scan succeeds: it gives every temporary a register of
-- the array, never the same to two temporaries that are live at once, and reports at least the
-- number of callee-save registers up to the highest that it gave out.
pub build_rmap-Allocated :
    (hints : List Val) (lifetimes : List Lifetime) (rmap : List Val)
    → Table lifetimes
    → ((k : Lifetime) → Has k (live lifetimes) → get_hint hints k.v ≡ noclass)
    → ((k : Lifetime) → Has k (live lifetimes) → rule rmap (key k) ≡ noclass)
    → length (live lifetimes) ≤ 72
    → (n : ℕ) × (rmap' : List Val) × (build_rmap hints lifetimes rmap ≡ ok (n, rmap'))
      × Allocated (live lifetimes) n rmap'
unfolding build_rmap
build_rmap-Allocated hints lifetimes rmap t unhinted bare room =
    let f = Table-Facts t in
    let o =
      scan_all-Outcome (live lifetimes) f hints unhinted
        (Table-Part (live lifetimes) f.sorted t (λ k h. h)) [] 0 0 (scan_start rmap)
        (start-Inv lifetimes rmap t bare) (omega arith) in
    (
      o.final.max_callee_save,
      o.final.rmap,
      rw o.runs,
      Outcome-Allocated hints (live lifetimes) lifetimes (scan_start rmap) o,
    )
