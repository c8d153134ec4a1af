-- ===== src/Elevator/Ways.antt =====
-- The distances of the tours of base/elevator.cc.
use csutil.Common.{ℕ, ◌+◌, ◌-◌, ◌%◌, ◌^◌, ◌<◌, ◌≡◌, refl, sym, ap, arith, ◌∙◌}
use csutil.Common.{append-nil, List, [], ◌∷◌, ◌++◌, length}
use csutil.Elevator.Rides.{Ride, move, board, serve}
use csutil.Elevator.Rides.{abs_diff}
use csutil.Elevator.Circular.{jump_end, jump_first}
use csutil.Elevator.Orders.{serve-order}

-- The floors that are passed on a way.
unfoldable pub way : ℕ → List ℕ → ℕ
way floor [] = 0
way floor (x ∷ xs) = (floor - x + (x - floor)) + way x xs

abs_diff_lem : (a b : ℕ) → abs_diff a b ≡ a - b + (b - a)
unfolding abs_diff
abs_diff_lem a b = ground arith

serve-total :
    (r : Ride) (floors : List ℕ)
    → r.total < 2 ^ 32
    → (serve r floors).total ≡ (r.total + way r.pos floors) % 2 ^ 32
unfolding serve way
serve-total r [] h = omega (arith, h)
serve-total r (x ∷ xs) h =
    serve-total (record (move r x) { order = r.order ++ (x ∷ []) }) xs (omega arith)
    ∙ rw (abs_diff_lem r.pos x) (omega arith)

serve-move :
    (r : Ride) (floors : List ℕ) (end : ℕ)
    → (serve r (floors ++ (end ∷ []))).total ≡ (move (serve r floors) end).total
unfolding serve
serve-move r [] end = refl
serve-move r (x ∷ xs) end = serve-move (record (move r x) { order = r.order ++ (x ∷ []) }) xs end

-- The distances: LOOK turns round, C-LOOK jumps to the first floor of the second part, C-SCAN goes to
-- the end of the shaft and jumps to the other end, if there is a second part.
unfoldable pub look_way : ℕ → List ℕ → List ℕ → ℕ
look_way floor first second = way floor (first ++ second)

unfoldable pub clook_way : ℕ → List ℕ → List ℕ → ℕ
clook_way floor first [] = way floor first
clook_way floor first (x ∷ xs) = way floor first + way x xs

unfoldable pub cscan_way : ℕ → ℕ → ℕ → List ℕ → List ℕ → ℕ
cscan_way end other_end floor first [] = way floor first
cscan_way end other_end floor first (x ∷ xs) =
    way floor (first ++ (end ∷ [])) + way other_end (x ∷ xs)

pub jump_end-order :
    (end other_end : ℕ) (r : Ride) (left xs : List ℕ)
    → (left ≡ [] → xs ≡ [])
    → (jump_end end other_end r left xs).order ≡ r.order ++ xs
unfolding jump_end
jump_end-order end other_end r [] xs h = rw (h refl) (sym (append-nil r.order))
jump_end-order end other_end r (y ∷ ys) xs h = serve-order _ xs

pub jump_first-order : (r : Ride) (xs : List ℕ) → (jump_first r xs).order ≡ r.order ++ xs
unfolding jump_first
jump_first-order r [] = sym (append-nil r.order)
jump_first-order r (x ∷ xs) = serve-order _ (x ∷ xs)

pub board-total :
    (floor : ℕ) (first : List ℕ) → (serve (board floor) first).total ≡ way floor first % 2 ^ 32
board-total floor first = serve-total (board floor) first (omega arith) ∙ omega arith

pub clook-total :
    (floor : ℕ) (first second : List ℕ)
    → (jump_first (serve (board floor) first) second).total ≡ clook_way floor first second % 2 ^ 32
unfolding jump_first clook_way way
clook-total floor first [] = board-total floor first
clook-total floor first (x ∷ xs) =
    let t = board-total floor first in
    serve-total (record (serve (board floor) first) { pos = x }) (x ∷ xs) (omega (arith, t))
    ∙ rw t (omega arith)

pub cscan-total :
    (end other_end floor : ℕ) (first left second : List ℕ)
    → (left ≡ [] → second ≡ [])
    → (second ≡ [] → left ≡ [])
    → (jump_end end other_end (serve (board floor) first) left second).total
      ≡ cscan_way end other_end floor first second % 2 ^ 32
unfolding jump_end cscan_way
cscan-total end other_end floor first [] second h k = rw (h refl) (board-total floor first)
cscan-total end other_end floor first (y ∷ ys) [] h k = absurd (omega (arith, ap length (k refl)))
cscan-total end other_end floor first (y ∷ ys) (x ∷ xs) h k =
    let t = sym (serve-move (board floor) first end) ∙ board-total floor (first ++ (end ∷ [])) in
    serve-total (record (move (serve (board floor) first) end) { pos = other_end }) (x ∷ xs)
      (omega (arith, t))
    ∙ rw t (omega arith)
