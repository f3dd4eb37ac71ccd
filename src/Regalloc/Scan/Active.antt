-- ===== src/Regalloc/Scan/Active.antt =====
-- What `build_active` finds. It looks at the lifetimes that were active before, up to the first
-- that starts too late, and at the table from the current lifetime on. No lifetime that overlaps
-- the current one is missed, because in the list of active ones every lifetime stands behind all
-- earlier ones that are still alive.
use qbt.Prelude.{
  ℕ, ◌<◌, ◌≤◌, ◌≡◌, ap, ◌⊎◌, inl, inr, List, [], ◌∷◌, ◌++◌, true, false, arith, leb, ◌==◌,
  Bool-cases, Has,
}
use qbt.Nodes.{r_of}
use qbt.Regalloc.Lifetimes.{Lifetime}
use qbt.Regalloc.Scan.{scan_prev, scan_from}

-- The number of the lifetime's temporary, by which the table is indexed.
abbrev pub key : Lifetime → ℕ
key l = r_of l.v

-- Earlier temporaries start no later, and a temporary has one lifetime.
pub record Sorted (L : List Lifetime) : Type 0 where
  pub up : (a b : Lifetime) → Has a L → Has b L → key a < key b → a.start ≤ b.start
  pub same : (a b : Lifetime) → Has a L → Has b L → key a ≡ key b → a ≡ b
  pub used : (a : Lifetime) → Has a L → 0 < a.used

-- A part of the table whose used lifetimes are those of `L`.
pub data Part (L : List Lifetime) : List Lifetime → Type 0 where
  none_left : Part L []
  unused : {q : Lifetime} {Q : List Lifetime} → q.used ≡ 0 → Part L Q → Part L (q ∷ Q)
  from :
      {q : Lifetime} {Q : List Lifetime}
      → Has q L
      → 0 < q.used
      → ((k : Lifetime) → Has k L → Has k Q → key q < key k)
      → Part L Q
      → Part L (q ∷ Q)

-- Behind `seen` stands a list in which every lifetime follows the earlier ones that end after `σ`.
abbrev pub Closed : List Lifetime → ℕ → List Lifetime → List Lifetime → Type 0
Closed L σ seen [] = Unit
Closed L σ seen (m ∷ A) =
    Has m L
    × ((k : Lifetime) → Has k L → key k < key m → σ < k.end → Has k seen)
    × Closed L σ (m ∷ seen) A

three_ways : (a b : ℕ) → (a < b) ⊎ ((a ≡ b) ⊎ (b < a))
three_ways a b = omega arith

module _ (L : List Lifetime) (sorted : Sorted L) (τ e : ℕ) where
  -- A lifetime that reaches over some point between `τ` and `e`.
  abbrev Alive : Lifetime → Type 0
  Alive k = (τ < k.end) × (k.start < e)

  -- Every lifetime is still to come in `Q`, or has been seen if it is alive.
  abbrev Reached : List Lifetime → List Lifetime → Type 0
  Reached Q seen = (k : Lifetime) → Has k L → Has k Q ⊎ (Alive k → Has k seen)

  scan_from-Closed :
      {Q : List Lifetime} (seen : List Lifetime)
      → Part L Q
      → Reached Q seen
      → Closed L τ seen (scan_from Q τ e)
  unfolding scan_from
  scan_from-Closed seen none_left c = tt
  scan_from-Closed seen (unused {q} {Q} zero_used part) c =
      let skipped : (q.used == 0) ≡ true = ground arith in
      rw skipped (
        scan_from-Closed seen part λ k hk. elim (c k hk) [
          | inl (inl p) ↦ absurd (omega (arith, sorted.used k hk, ap (λ (l : Lifetime). l.used) p))
          | inl (inr h) ↦ inl h
          | inr f ↦ inr f
        ])
  scan_from-Closed seen (from {q} {Q} here used asc part) c =
      let live : (q.used == 0) ≡ false = ground arith in
      elim (Bool-cases (leb q.end τ)) [
        | inl dead ↦
            rw (live, dead)
              (scan_from-Closed seen part λ k hk. elim (c k hk) [
                | inl (inl p) ↦ inr (λ a. absurd (dead_head k p (ground arith) a))
                | inl (inr h) ↦ inl h
                | inr f ↦ inr f
              ])
        | inr alive ↦ elim (Bool-cases (leb e q.start)) [
          | inl late ↦ rw (live, alive, late) tt
          | inr early ↦
              rw (live, alive, early)
                (
                  here,
                  λ k hk lt still. elim (c k hk) [
                    | inl (inl p) ↦ absurd (not_self k p lt)
                    | inl (inr h) ↦ absurd (omega (arith, asc k hk h))
                    | inr f ↦ f (still, ground (arith, sorted.up k q hk here lt))
                  ],
                  scan_from-Closed (q ∷ seen) part λ k hk. elim (c k hk) [
                    | inl (inl p) ↦ inr (λ _. inl p)
                    | inl (inr h) ↦ inl h
                    | inr f ↦ inr (λ a. inr (f a))
                  ],
                )
        ]
      ]
    where
      dead_head : (k : Lifetime) → k ≡ q → q.end ≤ τ → Alive k → ⊥
      dead_head k p ends (a, _) = omega (arith, ap (λ (l : Lifetime). l.end) p)

      not_self : (k : Lifetime) → k ≡ q → key k < key q → ⊥
      not_self k p lt = omega (arith, ap key p)

  -- Every lifetime is still to come in `Q`, or has been seen or is still to come in `A` if it is
  -- alive.
  abbrev Waits : List Lifetime → List Lifetime → List Lifetime → Type 0
  Waits Q seen A = (k : Lifetime) → Has k L → Has k Q ⊎ (Alive k → Has k seen ⊎ Has k A)

  abbrev Carried : List Lifetime → List Lifetime → Type 0
  Carried seen seen' = (k : Lifetime) → Has k L → Alive k → Has k seen → Has k seen'

  dead_carry :
      (m : Lifetime) (seen seen' : List Lifetime)
      → m.end ≤ τ
      → Carried seen seen'
      → Carried (m ∷ seen) seen'
  dead_carry m seen seen' ends keep k hk (a, b) (inl p) =
      absurd (omega (arith, ap (λ (l : Lifetime). l.end) p))
  dead_carry m seen seen' ends keep k hk a (inr h) = keep k hk a h

  keep_carry :
      (m : Lifetime) (seen seen' : List Lifetime)
      → Carried seen seen'
      → Carried (m ∷ seen) (m ∷ seen')
  keep_carry m seen seen' keep k hk a (inl p) = inl p
  keep_carry m seen seen' keep k hk a (inr h) = inr (keep k hk a h)

  shift :
      (m k : Lifetime) (seen A : List Lifetime)
      → Has k seen ⊎ Has k (m ∷ A)
      → Has k (m ∷ seen) ⊎ Has k A
  shift m k seen A (inl s) = inl (inr s)
  shift m k seen A (inr (inl p)) = inl (inl p)
  shift m k seen A (inr (inr h)) = inr h

  shift_back :
      (m k : Lifetime) (seen A : List Lifetime)
      → Has k (m ∷ seen) ⊎ Has k A
      → Has k seen ⊎ Has k (m ∷ A)
  shift_back m k seen A (inl (inl p)) = inr (inl p)
  shift_back m k seen A (inl (inr s)) = inl s
  shift_back m k seen A (inr h) = inr (inr h)

  Waits-shift :
      (Q : List Lifetime) (m : Lifetime) (seen A : List Lifetime)
      → Waits Q seen (m ∷ A)
      → Waits Q (m ∷ seen) A
  Waits-shift Q m seen A c k hk = elim (c k hk) [
    | inl h ↦ inl h
    | inr f ↦ inr (λ a. shift m k seen A (f a))
  ]

  -- At a lifetime that starts too late, the ones that are alive have all been seen.
  seen_by_break :
      (σ : ℕ) (m k : Lifetime) (seen : List Lifetime)
      → σ ≤ τ
      → e ≤ m.start
      → Has m L
      → ((k' : Lifetime) → Has k' L → key k' < key m → σ < k'.end → Has k' seen)
      → Has k L
      → Alive k
      → Has k seen
  seen_by_break σ m k seen le late here closed hk (a, b) = elim (three_ways (key k) (key m)) [
    | inl lt ↦ closed k hk lt (omega arith)
    | inr (inl eq) ↦
        absurd (omega (arith, ap (λ (l : Lifetime). l.start) (sorted.same k m hk here eq)))
    | inr (inr gt) ↦ absurd (omega (arith, sorted.up m k here hk gt))
  ]

  module _ {Q : List Lifetime} (part : Part L Q) (σ : ℕ) (forward : σ ≤ τ) where
    -- The list of the active ones for the current lifetime is ordered as the one before was.
    pub scan-Closed :
        (A seen seen' : List Lifetime)
        → Closed L σ seen A
        → Carried seen seen'
        → Waits Q seen A
        → Closed L τ seen' (scan_prev A τ e ++ scan_from Q τ e)
    unfolding scan_prev
    scan-Closed [] seen seen' closed keep c = scan_from-Closed seen' part λ k hk. elim (c k hk) [
      | inl h ↦ inl h
      | inr f ↦ inr (λ a. elim (f a) [ inl s ↦ keep k hk a s | inr h ↦ absurd h ])
    ]
    scan-Closed (m ∷ A) seen seen' (here, before, closed) keep c = elim (Bool-cases (leb m.end τ)) [
      | inl dead ↦ rw dead (
          scan-Closed A (m ∷ seen) seen' closed (dead_carry m seen seen' (ground arith) keep)
            (Waits-shift Q m seen A c))
      | inr alive ↦ elim (Bool-cases (leb e m.start)) [
        | inl late ↦
            rw (alive, late)
              (scan_from-Closed seen' part λ k hk. elim (c k hk) [
                | inl h ↦ inl h
                | inr f ↦ inr (λ a.
                    keep k hk a (seen_by_break σ m k seen forward (ground arith) here before hk a))
              ])
        | inr early ↦
            rw (alive, early)
              (
                here,
                λ k hk lt still.
                    keep k hk (still, ground (arith, sorted.up k m hk here lt))
                      (before k hk lt (omega arith)),
                scan-Closed A (m ∷ seen) (m ∷ seen') closed (keep_carry m seen seen' keep)
                    (Waits-shift Q m seen A c),
              )
      ]
    ]

    -- A lifetime that is alive and was seen or active before is active now.
    pub scan-covers :
        (A seen seen' : List Lifetime)
        → Closed L σ seen A
        → Carried seen seen'
        → (k : Lifetime) → Has k L
        → Alive k
        → Has k seen ⊎ Has k A
        → Has k seen' ⊎ Has k (scan_prev A τ e)
    unfolding scan_prev
    scan-covers [] seen seen' closed keep k hk a (inl s) = inl (keep k hk a s)
    scan-covers [] seen seen' closed keep k hk a (inr h) = absurd h
    scan-covers (m ∷ A) seen seen' (here, before, closed) keep k hk a at =
        elim (Bool-cases (leb m.end τ)) [
          | inl dead ↦ rw dead (
              scan-covers A (m ∷ seen) seen' closed (dead_carry m seen seen' (ground arith) keep) k
                hk a (shift m k seen A at))
          | inr alive ↦ elim (Bool-cases (leb e m.start)) [
            | inl late ↦
                rw (alive, late)
                  (inl (
                    keep k hk a (seen_by_break σ m k seen forward (ground arith) here before hk a)))
            | inr early ↦
                rw (alive, early)
                  (shift_back m k seen' (scan_prev A τ e) (
                    scan-covers A (m ∷ seen) (m ∷ seen') closed (keep_carry m seen seen' keep) k hk
                      a (shift m k seen A at)))
          ]
        ]
