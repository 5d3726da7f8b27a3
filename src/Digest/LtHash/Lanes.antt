-- ===== src/Digest/LtHash/Lanes.antt =====
-- Facts about lists of lanes: the loops of digest/lthash.rs lane by lane.
use pgl_validate.Base.{ℕ, zero, suc, ◌*◌, ◌^◌, ◌<◌, ◌≡◌, refl, ap, List, [], ◌∷◌}
use pgl_validate.Base.{length, length-replicate, arith}
use pgl_validate.Base.Text.{Bytes, All, IsByte}
use pgl_validate.Digest.LtHash.{zeros, u16_lanes, add_lanes, combine_lanes, assign_lanes, le_bytes}

abbrev pub IsLane : ℕ → Type 0
IsLane l = l < 2 ^ 16

pub length-zeros : (n : ℕ) → length (zeros n) ≡ n
unfolding zeros
length-zeros n = length-replicate n 0

pub zeros-All : (n : ℕ) → All IsLane (zeros n)
unfolding zeros
zeros-All zero = tt
zeros-All (suc n) = (omega arith, unfold zeros in zeros-All n)

pub length-add_lanes : (ls xs : List ℕ) → length (add_lanes ls xs) ≡ length ls
unfolding add_lanes
length-add_lanes [] xs = refl
length-add_lanes (l ∷ ls) [] = refl
length-add_lanes (l ∷ ls) (x ∷ xs) = ap suc (length-add_lanes ls xs)

pub add_lanes-All : (ls xs : List ℕ) → All IsLane ls → All IsLane (add_lanes ls xs)
unfolding add_lanes
add_lanes-All [] xs h = tt
add_lanes-All (l ∷ ls) [] h = h
add_lanes-All (l ∷ ls) (x ∷ xs) h = (omega arith, add_lanes-All ls xs h.1)

-- Addends go in in any order.
pub add_lanes_comm :
    (ls xs ys : List ℕ) → add_lanes (add_lanes ls xs) ys ≡ add_lanes (add_lanes ls ys) xs
unfolding add_lanes
add_lanes_comm [] xs ys = refl
add_lanes_comm (l ∷ ls) [] [] = refl
add_lanes_comm (l ∷ ls) [] (y ∷ ys) = refl
add_lanes_comm (l ∷ ls) (x ∷ xs) [] = refl
add_lanes_comm (l ∷ ls) (x ∷ xs) (y ∷ ys) = ground (arith, add_lanes_comm ls xs ys)

pub length-combine_lanes : (ds ls rs : List ℕ) → length (combine_lanes ds ls rs) ≡ length ds
unfolding combine_lanes
length-combine_lanes [] ls rs = refl
length-combine_lanes (d ∷ ds) [] rs = refl
length-combine_lanes (d ∷ ds) (l ∷ ls) [] = refl
length-combine_lanes (d ∷ ds) (l ∷ ls) (r ∷ rs) = ap suc (length-combine_lanes ds ls rs)

pub combine_lanes-All : (ds ls rs : List ℕ) → All IsLane ds → All IsLane (combine_lanes ds ls rs)
unfolding combine_lanes
combine_lanes-All [] ls rs h = tt
combine_lanes-All (d ∷ ds) [] rs h = h
combine_lanes-All (d ∷ ds) (l ∷ ls) [] h = h
combine_lanes-All (d ∷ ds) (l ∷ ls) (r ∷ rs) h = (omega arith, combine_lanes-All ds ls rs h.1)

-- Over lists of one length combining is adding.
pub combine_lanes-add_lanes :
    (ds ls rs : List ℕ)
    → length ds ≡ length ls
    → length ls ≡ length rs
    → combine_lanes ds ls rs ≡ add_lanes ls rs
unfolding combine_lanes add_lanes
combine_lanes-add_lanes [] [] rs p q = refl
combine_lanes-add_lanes [] (l ∷ ls) rs p q = absurd (omega arith)
combine_lanes-add_lanes (d ∷ ds) [] rs p q = absurd (omega arith)
combine_lanes-add_lanes (d ∷ ds) (l ∷ ls) [] p q = absurd (omega arith)
combine_lanes-add_lanes (d ∷ ds) (l ∷ ls) (r ∷ rs) p q =
    cc (combine_lanes-add_lanes ds ls rs (omega arith) (omega arith))

pub add_lanes_assoc :
    (ls xs ys : List ℕ)
    → length xs ≡ length ys
    → add_lanes ls (add_lanes xs ys) ≡ add_lanes (add_lanes ls xs) ys
unfolding add_lanes
add_lanes_assoc [] xs ys h = refl
add_lanes_assoc (l ∷ ls) [] [] h = refl
add_lanes_assoc (l ∷ ls) [] (y ∷ ys) h = absurd (omega arith)
add_lanes_assoc (l ∷ ls) (x ∷ xs) [] h = absurd (omega arith)
add_lanes_assoc (l ∷ ls) (x ∷ xs) (y ∷ ys) h = ground (arith, add_lanes_assoc ls xs ys)

pub add_lanes_swap : (xs ys : List ℕ) → length xs ≡ length ys → add_lanes xs ys ≡ add_lanes ys xs
unfolding add_lanes
add_lanes_swap [] [] h = refl
add_lanes_swap [] (y ∷ ys) h = absurd (omega arith)
add_lanes_swap (x ∷ xs) [] h = absurd (omega arith)
add_lanes_swap (x ∷ xs) (y ∷ ys) h = ground (arith, add_lanes_swap xs ys)

pub add_lanes-zeros : (ls : List ℕ) (n : ℕ) → All IsLane ls → add_lanes ls (zeros n) ≡ ls
unfolding add_lanes zeros
add_lanes-zeros [] n h = refl
add_lanes-zeros (l ∷ ls) zero h = refl
add_lanes-zeros (l ∷ ls) (suc n) h = ground (arith, add_lanes-zeros ls n h.1)

-- An addend can be told from the sum.
pub add_lanes_cancel :
    (ls xs ys : List ℕ)
    → length ls ≡ length xs
    → length ls ≡ length ys
    → All IsLane xs
    → All IsLane ys
    → add_lanes ls xs ≡ add_lanes ls ys
    → xs ≡ ys
unfolding add_lanes
add_lanes_cancel [] [] [] p q hx hy e = refl
add_lanes_cancel [] (x ∷ xs) ys p q hx hy e = absurd (omega arith)
add_lanes_cancel [] [] (y ∷ ys) p q hx hy e = absurd (omega arith)
add_lanes_cancel (l ∷ ls) [] ys p q hx hy e = absurd (omega arith)
add_lanes_cancel (l ∷ ls) (x ∷ xs) [] p q hx hy e = absurd (omega arith)
add_lanes_cancel (l ∷ ls) (x ∷ xs) (y ∷ ys) p q hx hy e =
    ground (arith, add_lanes_cancel ls xs ys (omega arith) (omega arith) hx.1 hy.1)

pub assign_lanes-full : (ls xs : List ℕ) → length ls ≡ length xs → assign_lanes ls xs ≡ xs
unfolding assign_lanes
assign_lanes-full [] [] h = refl
assign_lanes-full [] (x ∷ xs) h = absurd (omega arith)
assign_lanes-full (l ∷ ls) [] h = absurd (omega arith)
assign_lanes-full (l ∷ ls) (x ∷ xs) h = cc (assign_lanes-full ls xs (omega arith))

pub length-le_bytes : (ls : List ℕ) → length (le_bytes ls) ≡ 2 * length ls
unfolding le_bytes
length-le_bytes [] = omega arith
length-le_bytes (l ∷ ls) = omega (arith, length-le_bytes ls)

pub le_bytes-All : (ls : List ℕ) → All IsLane ls → All IsByte (le_bytes ls)
unfolding le_bytes
le_bytes-All [] h = tt
le_bytes-All (l ∷ ls) h = (omega arith, (omega arith, le_bytes-All ls h.1))

pub u16_lanes-le_bytes : (ls : List ℕ) → u16_lanes (le_bytes ls) ≡ ls
unfolding u16_lanes le_bytes
u16_lanes-le_bytes [] = refl
u16_lanes-le_bytes (l ∷ ls) = ground (arith, u16_lanes-le_bytes ls)

pub length-u16_lanes : (n : ℕ) (bs : Bytes) → length bs ≡ 2 * n → length (u16_lanes bs) ≡ n
unfolding u16_lanes
length-u16_lanes n [] h = omega arith
length-u16_lanes n (b ∷ []) h = absurd (omega arith)
length-u16_lanes zero (b ∷ c ∷ bs) h = absurd (omega arith)
length-u16_lanes (suc n) (b ∷ c ∷ bs) h = omega (arith, length-u16_lanes n bs (omega arith))

pub u16_lanes-All : (bs : Bytes) → All IsByte bs → All IsLane (u16_lanes bs)
unfolding u16_lanes
u16_lanes-All [] h = tt
u16_lanes-All (b ∷ []) h = tt
u16_lanes-All (b ∷ c ∷ bs) h = (omega arith, u16_lanes-All bs h.1.1)

pub le_bytes-u16_lanes :
    (n : ℕ) (bs : Bytes) → length bs ≡ 2 * n → All IsByte bs → le_bytes (u16_lanes bs) ≡ bs
unfolding u16_lanes le_bytes
le_bytes-u16_lanes n [] h k = refl
le_bytes-u16_lanes n (b ∷ []) h k = absurd (omega arith)
le_bytes-u16_lanes zero (b ∷ c ∷ bs) h k = absurd (omega arith)
le_bytes-u16_lanes (suc n) (b ∷ c ∷ bs) h k =
    ground (arith, le_bytes-u16_lanes n bs (omega arith) k.1.1)
