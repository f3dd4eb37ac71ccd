-- ===== src/Nodes/Build/Sound.antt =====
-- Lists of blocks with identifiers of their own, unmarked and without parameters and arguments, and
-- what keeps them so.
use mathlib.Core.Path.{subst}
use Prim.Native.String.{String}
use qbt.Prelude.{
  ℕ, suc, ◌≤◌, ◌≡◌, refl, ap, sym, ◌∙◌, inl, inr, List, [], ◌∷◌, ◌++◌, Bool-cases, Option, none,
  some, ok, ok-injective, bind-ok, demand, aborted, arith, ◌==◌, traverse, All, All-append, Has,
  Has-append,
}
use qbt.Seq.{vec_pop}
use qbt.Nodes.{Blk}
use qbt.Nodes.Blocks.{blk_of, put_blk}
use qbt.Nodes.Blocks.Laws.{ids, Apart, ids-put_blk, blk_of-Has}
use qbt.Nodes.Build.{blank_blk, resolve_to, resolve, label_find}

-- A block as `ssa` takes it.
pub record Blank (b : Blk) : Type 0 where
  pub visited : b.visited ≡ 0
  pub params : b.params ≡ []
  pub args1 : b.args1 ≡ []
  pub args2 : b.args2 ≡ []

pub record Sound (blks : List Blk) (nblk : ℕ) : Type 0 where
  pub apart : Apart (ids blks)
  pub numbered : All (λ p. p ≤ nblk) (ids blks)
  pub blank : All Blank blks

All-put_blk : (P : Blk → Type 0) (bs : List Blk) (c : Blk) → All P bs → P c → All P (put_blk bs c)
unfolding put_blk
All-put_blk P [] c h hc = tt
All-put_blk P (b ∷ bs) c (hb, h) hc = elim (Bool-cases (b.id == c.id)) [
  | inl e ↦ rw e (hc, h)
  | inr e ↦ rw e (hb, All-put_blk P bs c h hc)
]

pub All-found : (P : Blk → Type 0) (bs : List Blk) (b : Blk) → All P bs → Has b bs → P b
All-found P (c ∷ bs) b (hc, h) (inl e) = subst P (sym e) hc
All-found P (c ∷ bs) b (hc, h) (inr k) = All-found P bs b h k
All-found P [] b h k = absurd k

pub put_blk-Sound :
    (bs : List Blk) (n : ℕ) (c : Blk) → Sound bs n → Blank c → Sound (put_blk bs c) n
put_blk-Sound bs n c h hc = record {
  apart = subst Apart (sym (ids-put_blk bs c)) h.apart;
  numbered = subst (All (λ p. p ≤ n)) (sym (ids-put_blk bs c)) h.numbered;
  blank = All-put_blk Blank bs c h.blank hc;
}

pub stored-Blank : (bs : List Blk) (n p : ℕ) (b : Blk) → Sound bs n → blk_of bs p ≡ ok b → Blank b
stored-Blank bs n p b h e = All-found Blank bs b h.blank (blk_of-Has bs p b e)

pub ids-append : (bs cs : List Blk) → ids (bs ++ cs) ≡ ids bs ++ ids cs
ids-append [] cs = refl
ids-append (b ∷ bs) cs = ap (λ l. b.id ∷ l) (ids-append bs cs)

Apart-append : (ps : List ℕ) (q : ℕ) → Apart ps → (Has q ps → ⊥) → Apart (ps ++ q ∷ [])
Apart-append [] q h off = ((λ k. k), tt)
Apart-append (p ∷ ps) q (hp, h) off = (
  λ k. elim (Has-append p ps (q ∷ []) k) [
    | inl l ↦ hp l
    | inr r ↦ elim r [ inl e ↦ off (inl (sym e)) | inr none_left ↦ none_left ]
  ],
  Apart-append ps q h (λ k. off (inr k)),
)

Has-bound : (ps : List ℕ) (n q : ℕ) → All (λ p. p ≤ n) ps → Has q ps → q ≤ n
Has-bound (p ∷ ps) n q (hp, h) (inl e) = omega arith
Has-bound (p ∷ ps) n q (hp, h) (inr k) = Has-bound ps n q h k
Has-bound [] n q h k = absurd k

bound-grows : (ps : List ℕ) (n : ℕ) → All (λ p. p ≤ n) ps → All (λ p. p ≤ suc n) ps
bound-grows [] n h = tt
bound-grows (p ∷ ps) n (hp, h) = (omega arith, bound-grows ps n h)

pub grown-Sound :
    (bs : List Blk) (n : ℕ) → Sound bs n → Sound (bs ++ blank_blk (suc n) ∷ []) (suc n)
unfolding blank_blk
grown-Sound bs n h =
    let all = ids-append bs (blank_blk (suc n) ∷ []) in
    record {
      apart = subst Apart (sym all) (
          Apart-append (ids bs) (suc n) h.apart
            (λ k. past (Has-bound (ids bs) n (suc n) h.numbered k)));
      numbered = subst (All (λ p. p ≤ suc n)) (sym all) (
          All-append (λ p. p ≤ suc n) (ids bs) (suc n ∷ []) (bound-grows (ids bs) n h.numbered)
            (omega arith, tt));
      blank =
          All-append Blank bs (blank_blk (suc n) ∷ []) h.blank
            (record { visited = refl; params = refl; args1 = refl; args2 = refl }, tt);
    }
  where
    past : suc n ≤ n → ⊥
    past le = omega arith

pub popped : (xs zs : List Blk) (z : Blk) → vec_pop xs ≡ ok (zs, z) → xs ≡ zs ++ z ∷ []
unfolding vec_pop
popped [] zs z e = absurd cc
popped (x ∷ []) zs z e = ap (λ t. t.0 ++ t.1 ∷ []) (ok-injective e)
popped (x ∷ y ∷ ys) zs z e =
    let ((us, u), e1, r) = bind-ok (vec_pop (y ∷ ys)) _ e in
    ap (λ l. x ∷ l) (popped (y ∷ ys) us u e1) ∙ ap (λ t. t.0 ++ t.1 ∷ []) (ok-injective r)

pub Apart-front : (ps qs : List ℕ) → Apart (ps ++ qs) → Apart ps
Apart-front [] qs h = tt
Apart-front (p ∷ ps) qs (hp, h) = ((λ k. hp (left_of ps k)), Apart-front ps qs h)
  where
    left_of : (ps : List ℕ) → Has p ps → Has p (ps ++ qs)
    left_of (x ∷ ps) (inl e) = inl e
    left_of (x ∷ ps) (inr k) = inr (left_of ps k)
    left_of [] k = absurd k

pub All-front : {A : Type 0} (P : A → Type 0) (xs ys : List A) → All P (xs ++ ys) → All P xs
All-front P [] ys h = tt
All-front P (x ∷ xs) ys (hx, h) = (hx, All-front P xs ys h)

resolve_to-same :
    (labels : List (String × ℕ)) (b c : Blk) (o : Option String)
    → resolve_to labels b o ≡ ok c
    → (c.id ≡ b.id) × (Blank b → Blank c)
resolve_to-same labels b c none e =
    let same : b ≡ c = ok-injective e in (ap (λ x. x.id) (sym same), λ h. subst Blank same h)
resolve_to-same labels b c (some name) e =
    let (m, e1, r1) = bind-ok (demand aborted (label_find labels name)) _ e in
    let same = ok-injective r1 in
    (
      ap (λ x. x.id) (sym same),
      λ h.
          subst Blank same
            (record { visited = h.visited; params = h.params; args1 = h.args1; args2 = h.args2 }),
    )

pub Sound-resolved :
    (labels : List (String × ℕ)) (bs cs : List Blk) (n : ℕ)
    → traverse (resolve labels) bs ≡ ok cs
    → (ids cs ≡ ids bs) × (All Blank bs → All Blank cs)
Sound-resolved labels [] cs n e =
    (ap ids (sym (ok-injective e)), λ h. subst (All Blank) (ok-injective e) tt)
Sound-resolved labels (b ∷ bs) cs n e =
    let (c, e1, r1) = bind-ok (resolve labels b) _ e in
    let (ds, e2, r2) = bind-ok (traverse (resolve labels) bs) _ r1 in
    let (same, blank) = resolve_to-same labels b c b.to e1 in
    let (all, blanks) = Sound-resolved labels bs ds n e2 in
    (
      ap ids (sym (ok-injective r2)) ∙ ap (λ i. i ∷ ids ds) same ∙ ap (λ l. b.id ∷ l) all,
      λ (hb, h). subst (All Blank) (ok-injective r2) (blank hb, blanks h),
    )
