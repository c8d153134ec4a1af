-- ===== src/Elevator/Tours.antt =====
-- The tours of ElevatorLOOK, ElevatorCLOOK and ElevatorCSCAN of base/elevator.cc.
use csutil.Common.{ℕ, ◌%◌, ◌^◌, ◌<◌, ◌≤◌, ◌≡◌, refl, sym, ap, arith, ◌∙◌}
use csutil.Common.{length-append, List, [], ◌∷◌, ◌++◌, All, length}
use csutil.Common.Status.{Result, ok}
use csutil.Elevator.Rides.{Direction, up, down, ElevatorResult}
use csutil.Elevator.Rides.{sort, lower, upper, unless_empty}
use csutil.Elevator.Sweep.{look_order, elevator_look}
use csutil.Elevator.Circular.{cscan, clook, elevator_cscan, elevator_clook}
use csutil.Elevator.Orders.{serve-order, parts-perm, parts-perm_turned, outside_no}
use csutil.Elevator.Orders.{from_back-lower, from_back-upper}
use csutil.Elevator.Sorted.{
  Ascends, Descends, sort-Ascends, lower-Ascends, upper-Ascends, lower-below, upper-above,
}
use csutil.Elevator.Sorted.{reverse-All, reverse-Descends}
use csutil.Elevator.Ways.{way, look_way, clook_way, cscan_way, jump_end-order, jump_first-order}
use csutil.Elevator.Ways.{board-total, clook-total, cscan-total}
use mathlib.Core.List.{reverse, reverse-cons, Perm, reverse_perm}
use mathlib.Core.List.Perm

-- The floors on either side of the current one, seen in a direction, and the orders in which they
-- are passed.
abbrev pub Ahead : Direction → ℕ → ℕ → Type 0
Ahead up floor x = floor ≤ x
Ahead down floor x = x < floor

abbrev pub Onward : Direction → List ℕ → Type 0
Onward up floors = Ascends floors
Onward down floors = Descends floors

abbrev pub opposite : Direction → Direction
opposite up = down
opposite down = up

abbrev pub Behind : Direction → ℕ → ℕ → Type 0
Behind up floor x = x < floor
Behind down floor x = floor ≤ x

-- Every request is served as often as it was made: first those ahead, the nearest first, then those
-- behind, in the order of the direction `back`; the distance is `total` of the two parts, modulo 2 ^ 32.
pub record IsTour (floor : ℕ) (direction back : Direction) (requests : List ℕ)
    (total : List ℕ → List ℕ → ℕ) (e : ElevatorResult) : Type 0 where
  pub first : List ℕ
  pub second : List ℕ
  pub order : e.serve_order ≡ first ++ second
  pub served : Perm (first ++ second) requests
  pub ahead : All (Ahead direction floor) first × Onward direction first
  pub behind : All (Behind direction floor) second × Onward back second
  pub distance : e.total_distance ≡ total first second % 2 ^ 32

-- The call succeeds with a tour.
abbrev pub Tours :
    ℕ → Direction → Direction → List ℕ → (List ℕ → List ℕ → ℕ) → Result ElevatorResult → Type 0
Tours floor direction back requests total r =
    (e : ElevatorResult) × (r ≡ ok e) × IsTour floor direction back requests total e

reverse-nil : (xs : List ℕ) → reverse xs ≡ [] → xs ≡ []
reverse-nil [] e = refl
reverse-nil (x ∷ xs) e =
    absurd
      (omega (arith, ap length (sym (reverse-cons x xs) ∙ e), length-append (reverse xs) (x ∷ [])))

nothing : (d : Direction) → Onward d []
unfolding Ascends Descends
nothing up = tt
nothing down = tt

unless_empty-Tours :
    (floor : ℕ) (direction back : Direction) (requests : List ℕ) (total : List ℕ → List ℕ → ℕ)
    (e : ElevatorResult)
    → total [] [] ≡ 0
    → IsTour floor direction back requests total e
    → Tours floor direction back requests total (unless_empty requests e)
unless_empty-Tours floor direction back [] total e none tour = (
  record { serve_order = []; total_distance = 0 },
  refl,
  record {
    first = [];
    second = [];
    order = refl;
    served = Perm.refl [];
    ahead = (tt, nothing direction);
    behind = (tt, nothing back);
    distance = rw none refl;
  },
)
unless_empty-Tours floor direction back (r ∷ requests) total e none tour = (e, refl, tour)

-- The end of the shaft in a direction.
abbrev pub shaft_end : Direction → ℕ → ℕ
shaft_end up max_floor = max_floor
shaft_end down max_floor = 0

module _ (floor : ℕ) (requests : List ℕ) (short : length requests < 2 ^ 31) where
  uppers : List ℕ
  uppers = upper floor (sort requests)

  lowers : List ℕ
  lowers = lower floor (sort requests)

  -- A tour from its two parts, one of which may be turned round.
  up-IsTour :
      (back : Direction) (second : List ℕ) (total : List ℕ → List ℕ → ℕ) (e : ElevatorResult)
      → Perm second lowers
      → All (λ x. x < floor) second
      → Onward back second
      → e.serve_order ≡ uppers ++ second
      → e.total_distance ≡ total uppers second % 2 ^ 32
      → IsTour floor up back requests total e
  unfolding uppers lowers
  up-IsTour back second total e p below onward order distance = record {
    first = uppers;
    second = second;
    order = order;
    served = parts-perm floor requests _ _ (Perm.refl _) p;
    ahead = (upper-above floor (sort requests), upper-Ascends floor _ (sort-Ascends requests));
    behind = (below, onward);
    distance = distance;
  }

  down-IsTour :
      (back : Direction) (second : List ℕ) (total : List ℕ → List ℕ → ℕ) (e : ElevatorResult)
      → Perm second uppers
      → All (λ x. floor ≤ x) second
      → Onward back second
      → e.serve_order ≡ reverse lowers ++ second
      → e.total_distance ≡ total (reverse lowers) second % 2 ^ 32
      → IsTour floor down back requests total e
  unfolding uppers lowers
  down-IsTour back second total e p above onward order distance = record {
    first = reverse lowers;
    second = second;
    order = order;
    served = parts-perm_turned floor requests _ _ p (reverse_perm _);
    ahead = (
      reverse-All (λ x. x < floor) lowers (lower-below floor (sort requests)),
      reverse-Descends lowers (lower-Ascends floor _ (sort-Ascends requests)),
    );
    behind = (above, onward);
    distance = distance;
  }

  look-Tours :
      (direction : Direction)
      → Tours floor direction
          (opposite direction)
          requests
          (look_way floor)
          (elevator_look floor direction requests)
  unfolding elevator_look look_order look_way uppers lowers way
  look-Tours up = rw (from_back-lower floor requests short) (
      unless_empty-Tours _ _ _ requests _ _ refl (
        up-IsTour down (reverse lowers) (look_way floor) _ (reverse_perm _)
          (reverse-All (λ x. x < floor) lowers (lower-below floor (sort requests)))
          (reverse-Descends lowers (lower-Ascends floor _ (sort-Ascends requests)))
          (serve-order _ _) (board-total floor _)))
  look-Tours down = rw (from_back-lower floor requests short) (
      unless_empty-Tours _ _ _ requests _ _ refl (
        down-IsTour up uppers (look_way floor) _ (Perm.refl _) (upper-above floor (sort requests))
          (upper-Ascends floor _ (sort-Ascends requests)) (serve-order _ _) (board-total floor _)))

  clook-Tours :
      (direction : Direction)
      → Tours floor direction direction requests
          (clook_way floor)
          (elevator_clook floor direction requests)
  unfolding elevator_clook clook clook_way uppers lowers way
  clook-Tours up = unless_empty-Tours _ _ _ requests _ _ refl (
      up-IsTour up lowers (clook_way floor) _ (Perm.refl _) (lower-below floor (sort requests))
        (lower-Ascends floor _ (sort-Ascends requests)) (jump_first-order _ _ ∙ rw serve-order refl)
        (clook-total floor _ _))
  clook-Tours down =
      rw (from_back-lower floor requests short, from_back-upper floor requests short)
        (unless_empty-Tours _ _ _ requests _ _ refl (
          down-IsTour down (reverse uppers) (clook_way floor) _ (reverse_perm _)
            (reverse-All (λ x. floor ≤ x) uppers (upper-above floor (sort requests)))
            (reverse-Descends uppers (upper-Ascends floor _ (sort-Ascends requests)))
            (jump_first-order _ _ ∙ rw serve-order refl) (clook-total floor _ _)))

  cscan-Tours :
      (direction : Direction) (max_floor : ℕ)
      → floor ≤ max_floor
      → Tours floor direction direction requests
          (cscan_way
            (shaft_end direction max_floor)
            (shaft_end (opposite direction) max_floor)
            floor)
          (elevator_cscan floor direction requests max_floor)
  unfolding elevator_cscan cscan cscan_way uppers lowers way
  cscan-Tours up max_floor inside = rw (outside_no floor max_floor inside) (
      unless_empty-Tours _ _ _ requests _ _ refl (
        up-IsTour up lowers (cscan_way max_floor 0 floor) _ (Perm.refl _)
          (lower-below floor (sort requests)) (lower-Ascends floor _ (sort-Ascends requests))
          (jump_end-order _ _ _ lowers lowers (λ e. e) ∙ rw serve-order refl)
          (cscan-total max_floor 0 floor _ lowers lowers (λ e. e) (λ e. e))))
  cscan-Tours down max_floor inside =
      rw
        (
          outside_no floor max_floor inside,
          from_back-lower floor requests short,
          from_back-upper floor requests short,
        )
        (unless_empty-Tours _ _ _ requests _ _ refl (
          down-IsTour down (reverse uppers) (cscan_way 0 max_floor floor) _ (reverse_perm _)
            (reverse-All (λ x. floor ≤ x) uppers (upper-above floor (sort requests)))
            (reverse-Descends uppers (upper-Ascends floor _ (sort-Ascends requests)))
            (jump_end-order _ _ _ uppers (reverse uppers) (ap reverse) ∙ rw serve-order refl)
            (cscan-total 0 max_floor floor _ uppers (reverse uppers) (ap reverse)
              (reverse-nil uppers))))

-- For fewer than 2 ^ 31 requests LOOK, C-LOOK and, from a floor of the building, C-SCAN serve every
-- request as often as it was made: first those ahead, the nearest first, then those behind, where LOOK
-- turns round and the others keep the direction. The distance, modulo 2 ^ 32, is that of all floors in
-- this order; C-LOOK leaves out the jump to the first floor behind, and C-SCAN adds the way to the end
-- of the shaft and starts from the other end, if there are floors behind.
pub elevator-Tours :
    (current_floor : ℕ) (direction : Direction) (requests : List ℕ) (max_floor : ℕ)
    → length requests < 2 ^ 31
    → current_floor ≤ max_floor
    → Tours current_floor direction
        (opposite direction)
        requests
        (look_way current_floor)
        (elevator_look current_floor direction requests)
      × Tours current_floor direction direction requests
          (clook_way current_floor)
          (elevator_clook current_floor direction requests)
      × Tours current_floor direction direction requests
          (cscan_way
            (shaft_end direction max_floor)
            (shaft_end (opposite direction) max_floor)
            current_floor)
          (elevator_cscan current_floor direction requests max_floor)
elevator-Tours current_floor direction requests max_floor short inside = (
  look-Tours current_floor requests short direction,
  clook-Tours current_floor requests short direction,
  cscan-Tours current_floor requests short direction max_floor inside,
)
