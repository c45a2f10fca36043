-- ===== src/Serial/Order.antt =====
-- How `wrapping_gt` orders ids, and which ids `wrapping_range` runs through.
use mini_udp.Prelude.{
  ℕ, zero, suc, ◌+◌, ◌≤◌, ◌<◌, ◌≡◌, ◌≢◌, true, false, not, ltb, ◌&&◌, arith, contains, All, refl,
  length, ap,
}
use mini_udp.Word.{IsU16, wrapping_sub}
use mini_udp.Serial.{offsets, wrapping_range, wrapping_gt}

-- An id at most `m` steps ahead is greater.
pub wrapping_gt_ahead :
    (x y m : ℕ)
    → IsU16 x
    → IsU16 y
    → m < 32768
    → x ≢ y
    → wrapping_sub x y ≤ m
    → wrapping_gt x y m ≡ true
unfolding wrapping_gt
wrapping_gt_ahead x y m hx hy hm ne h = ground arith

-- An id at most `m` steps behind is not.
pub wrapping_gt_behind :
    (x y m : ℕ) → IsU16 x → IsU16 y → m < 32768 → wrapping_sub y x ≤ m → wrapping_gt x y m ≡ false
unfolding wrapping_gt
wrapping_gt_behind x y m hx hy hm h = ground arith

-- Further apart than `m` both ways round, ids compare as numbers.
pub wrapping_gt_far :
    (x y m : ℕ)
    → IsU16 x
    → IsU16 y
    → m < 32768
    → m < wrapping_sub x y
    → m < wrapping_sub y x
    → wrapping_gt x y m ≡ ltb y x
unfolding wrapping_gt
wrapping_gt_far x y m hx hy hm h k = ground arith

-- Of two different ids exactly one is greater, for every `max_dif` below 32768.
pub wrapping_gt_total :
    (x y m : ℕ)
    → IsU16 x
    → IsU16 y
    → m < 32768
    → x ≢ y
    → wrapping_gt y x m ≡ not (wrapping_gt x y m)
unfolding wrapping_gt
wrapping_gt_total x y m hx hy hm ne = ground arith

pub length-offsets : (s k len : ℕ) → length (offsets s k len) ≡ len
unfolding offsets
length-offsets s k zero = refl
length-offsets s k (suc len) = ap suc (length-offsets s (k + 1) len)

pub contains-offsets :
    (s k len j : ℕ)
    → IsU16 s
    → IsU16 j
    → k + len ≤ 65536
    → contains (offsets s k len) j
      ≡ (ltb (wrapping_sub j s) (k + len) && not (ltb (wrapping_sub j s) k))
unfolding offsets
contains-offsets s k zero j hs hj h = ground arith
contains-offsets s k (suc len) j hs hj h = ground (arith, contains-offsets s (k + 1) len j)

-- `wrapping_range s e` holds the ids fewer than `e - s` steps ahead of `s`.
pub contains-wrapping_range :
    (s e j : ℕ)
    → IsU16 s
    → IsU16 e
    → IsU16 j
    → contains (wrapping_range s e) j ≡ ltb (wrapping_sub j s) (wrapping_sub e s)
unfolding wrapping_range
contains-wrapping_range s e j hs he hj = ground (arith, contains-offsets s 0 (wrapping_sub e s) j)

offsets-IsU16 : (s k len : ℕ) → All IsU16 (offsets s k len)
unfolding offsets
offsets-IsU16 s k zero = tt
offsets-IsU16 s k (suc len) = (omega arith, offsets-IsU16 s (k + 1) len)

pub wrapping_range-IsU16 : (s e : ℕ) → All IsU16 (wrapping_range s e)
unfolding wrapping_range
wrapping_range-IsU16 s e = offsets-IsU16 s 0 (wrapping_sub e s)
