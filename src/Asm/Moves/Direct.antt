-- ===== src/Asm/Moves/Direct.antt =====
-- src/asm.c: where no parameter's register holds an argument, `output_moves` gives one move for each
-- parameter.
use mathlib.Core.List.{append_assoc, append-nil}
use qbt.Prelude.{
  ℕ, zero, suc, ◌+◌, ◌<◌, ◌≤◌, ◌≡◌, ◌≢◌, refl, ap, sym, ◌∙◌, List, [], ◌∷◌, ◌++◌, ok, Result, true,
  false, arith, leb, ltb, length, length-append, replicate, length-replicate, get_elem?, set,
  length-set, length-map, some, inl, Has, ◌>>=◌, All, All-Has, Has-append_right, map, ◌==◌,
}
use qbt.Nodes.{Val, reg, same_val}
use qbt.Abi.Regs.{upto}
use qbt.Asm.Syntax.{x, Line, mv, rname}
use qbt.Asm.Select.{output_move}
use qbt.Asm.Moves.{
  MoveStatus, moved, being_moved, to_move, Moving, emit_move, set_status, rescue_all, move_over,
  move_one, move_pending, move_all,
}

-- One move for each parameter.
abbrev pub direct : List ℕ → List ℕ → List Line
direct [] from = []
direct (p ∷ ps) [] = []
direct (p ∷ ps) (a ∷ from) = mv (x p) (x a) ∷ direct ps from

abbrev pub Avoids : ℕ → List ℕ → Type 0
Avoids p from = All (λ a. a ≢ p) from

abbrev pub IsName : ℕ → Type 0
IsName r = r ≤ 80

emit_move-line :
    (p a : ℕ) (m : Moving)
    → p ≤ 80
    → a ≤ 80
    → a ≢ p
    → emit_move (reg p) (reg a) m ≡ ok (record m { lines = m.lines ++ mv (x p) (x a) ∷ [] })
unfolding emit_move output_move rname same_val
emit_move-line p a m lp la ne =
    let pa : (p == a) ≡ false = ground arith in
    let pt : leb p 80 ≡ true = ground arith in
    let at : leb a 80 ≡ true = ground arith in simp (pa, pt, at)

map-mid :
    (front rest : List ℕ) (a : ℕ)
    → get_elem? (map reg (front ++ a ∷ rest)) (length front) ≡ some (reg a)
map-mid [] rest a = refl
map-mid (b ∷ front) rest a = map-mid front rest a

-- Nothing is to be rescued from a register that no argument is in.
rescue_all-none :
    (one : ℕ → Moving → Result Moving) (p : ℕ) (done rest : List ℕ) (m : Moving)
    → m.args ≡ map reg (done ++ rest)
    → Avoids p rest
    → rescue_all one (reg p) (upto (length done) (length rest)) m ≡ ok m
unfolding rescue_all upto same_val
rescue_all-none one p done [] m e h = refl
rescue_all-none one p done (a ∷ rest) m e (ne, h) =
    let differs : (a == p) ≡ false = ground arith in
    let next : suc (length done) ≡ length (done ++ a ∷ []) =
      omega (arith, length-append done (a ∷ [])) in
    let here : get_elem? m.args (length done) ≡ some (reg a) = rw e (map-mid done rest a) in
    rw (here, differs, next)
      (rescue_all-none one p (done ++ a ∷ []) rest m
        (e ∙ ap (map reg) (sym (append_assoc done (a ∷ []) rest))) h)

-- One argument in a register that no parameter is in.
move_one-direct :
    (fuel : ℕ) (params : List Val) (at p a : ℕ) (from : List ℕ) (m : Moving)
    → get_elem? params at ≡ some (reg p)
    → get_elem? m.args at ≡ some (reg a)
    → m.args ≡ map reg from
    → Avoids p from
    → a ≢ p
    → p ≤ 80
    → a ≤ 80
    → at < length m.status
    → move_one (suc fuel) params at m
      ≡ ok (record m {
        status = set (set m.status at being_moved) at moved;
        lines = m.lines ++ mv (x p) (x a) ∷ [];
      })
unfolding move_one move_over set_status same_val
move_one-direct fuel params at p a from m ep ea em h ne lp la fits =
    let differs : (p == a) ≡ false = ground arith in
    let one : ltb at (length m.status) ≡ true = ground arith in
    let two : ltb at (length (set m.status at being_moved)) ≡ true =
      ground (arith, length-set m.status at being_moved) in
    let long : length m.args ≡ length from = ap length em ∙ length-map from (λ t. reg t) in
    let busy : Moving = record m { status = set m.status at being_moved } in
    rw
      (
        ep,
        ea,
        differs,
        one,
        long,
        rescue_all-none (move_one fuel params) p [] from busy em h,
        emit_move-line p a busy lp la ne,
        two,
      )
      refl

-- `k` arguments are moved, `n` are not.
abbrev pub progress : ℕ → ℕ → List MoveStatus
progress k n = replicate k moved ++ replicate n to_move

progress-status : (k n : ℕ) → get_elem? (progress k (suc n)) k ≡ some to_move
progress-status zero n = refl
progress-status (suc k) n = progress-status k n

progress-set : (k n : ℕ) → set (set (progress k (suc n)) k being_moved) k moved ≡ progress (suc k) n
progress-set zero n = refl
progress-set (suc k) n = ap (λ t. moved ∷ t) (progress-set k n)

length-progress : (k n : ℕ) → length (progress k n) ≡ k + n
length-progress k n = omega (
  arith,
  length-append (replicate k moved) (replicate n to_move),
  length-replicate k moved,
  length-replicate n to_move,
)

-- The loop over the parameters, from the `k`th on.
pub move_all-direct :
    (fuel k : ℕ) (params : List Val) (from dp rp da ra : List ℕ) (ls : List Line)
    → params ≡ map reg (dp ++ rp)
    → from ≡ da ++ ra
    → k ≡ length dp
    → k ≡ length da
    → length rp ≡ length ra
    → All IsName rp
    → All IsName ra
    → All (λ p. Avoids p from) rp
    → (move_all
          (suc fuel)
          params
          (upto k (length rp))
          (record { args = map reg from; status = progress k (length rp); lines = ls })
        >>= λ m. ok m.lines)
      ≡ ok (ls ++ direct rp ra)
unfolding move_all move_pending upto
move_all-direct fuel k params from dp [] da ra ls ep ef kp ka er hp ha h =
    ap ok (sym (append-nil ls))
move_all-direct fuel k params from dp (p ∷ rp) da (a ∷ ra) ls ep ef kp ka er (lp, hp) (la, ha)
      (hd, h) =
    let n = length rp in
    let to : get_elem? params k ≡ some (reg p) = rw (ep, kp) (map-mid dp rp p) in
    let pair : get_elem? (map reg from) k ≡ some (reg a) = rw (ef, ka) (map-mid da ra a) in
    let found : Has a from = rw ef (Has-append_right a da (a ∷ ra) (inl refl)) in
    let now : Moving = record { args = map reg from; status = progress k (suc n); lines = ls } in
    rw
      (
        progress-status k n,
        move_one-direct fuel params k p a from now to pair refl hd
            (All-Has (λ t. t ≢ p) from hd found) lp la (omega (arith, length-progress k (suc n))),
        progress-set k n,
        move_all-direct fuel (suc k) params from (dp ++ p ∷ []) rp (da ++ a ∷ []) ra
            (ls ++ mv (x p) (x a) ∷ []) (ep ∙ ap (map reg) (sym (append_assoc dp (p ∷ []) rp)))
            (ef ∙ sym (append_assoc da (a ∷ []) ra)) (omega (arith, length-append dp (p ∷ [])))
            (omega (arith, length-append da (a ∷ []))) (omega arith) hp ha h,
      )
      (ap ok (append_assoc ls (mv (x p) (x a) ∷ []) (direct rp ra)))
move_all-direct fuel k params from dp (p ∷ rp) da [] ls ep ef kp ka er hp ha h =
    absurd (omega arith)
