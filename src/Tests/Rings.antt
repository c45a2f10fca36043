-- ===== src/Tests/Rings.antt =====
-- Runs of mini_udp/src/ring_buffer.rs and mini_udp/src/packet_ack.rs.
use mini_udp.Prelude.{
  ℕ, ◌+◌, ◌≡◌, refl, arith, Bool, ltb, is_some, none, some, List, [], ◌∷◌, replicate, length, ◌≤◌,
  if◌then◌else◌,
}
use mini_udp.Serial.{wrapping_gt}
use mini_udp.Ring
use mini_udp.Ring.{RingBuffer, len, push, take, get, insert, push_will_override}
use mini_udp.Ring.Slots.{IsCapacity, IsRing}
use mini_udp.Ring.Refinement.{
  Call, push_item, insert_item, take_item, get_item, ask_override, run_ring, run_window,
  empty_window, ring_refines_window,
}
use mini_udp.Ring.Insert.{get-insert}
use mini_udp.Ring.Iter.{Iter, size_hint, iter, next, next_value, next_key, item_at, key_at, collect}
use mini_udp.Ring.Iter.Runs.{hits, window, iterators_lem}
use mini_udp.Ring.Iter.Sizes.{size_hint_lem}
use mini_udp.Ring.Retain.{retain}
use mini_udp.Ring.Retain.Outcome.{state_after, outcome, get-retain}
use mini_udp.Packet.{Packet}
use mini_udp.Ack.{num_items, new_ack, acknowledge}
use mini_udp.Ack.Exact.{acknowledge-new_ack}

four : IsCapacity 4
four = record { positive = omega arith; small = omega arith; divides = refl }

-- The ids 65534, 65535 and 0 with their items; the id 65533 has none.
abbrev pub three : RingBuffer ℕ
three = record { newest = 0; items = some 10 ∷ none ∷ some 8 ∷ some 9 ∷ [] }

three-IsRing : IsRing 4 three
three-IsRing = record { full_width = refl; id_range = omega arith }

new_default : Ring.new 32 {T = ℕ} ≡ some (Ring.fresh 32)
unfolding Ring.new
new_default = refl

insert_ahead :
    insert 4 three 2 12 ≡ record { newest = 2; items = some 10 ∷ none ∷ some 12 ∷ some 9 ∷ [] }
unfolding insert wrapping_gt Ring.take_all take mini_udp.Serial.wrapping_range
    mini_udp.Serial.offsets
insert_ahead = refl

get-insert_example : (insert 4 three 2 12).newest ≡ 2 × (get 4 (insert 4 three 2 12) 65534 ≡ none)
get-insert_example = get-insert 4 three 2 12 four three-IsRing (omega arith) 65534 (omega arith)

iterators_lem_example :
    (collect 4 (next 4) 5 (iter 4 three) ≡ some (hits (item_at 4 three) (window 4 three)))
    × (collect 4 (next_value 4) 5 (iter 4 three) ≡ some (hits (get 4 three) (window 4 three)))
    × (collect 4 (next_key 4) 5 (iter 4 three) ≡ some (hits (key_at 4 three) (window 4 three)))
iterators_lem_example = iterators_lem 4 three four three-IsRing

-- Counts the items it is called with, and keeps those above 8.
abbrev keep_large : ℕ → ℕ → ℕ → Bool × ℕ × ℕ
keep_large calls id item = (ltb 8 item, item + 100, calls + 1)

get-retain_example :
    let (r', s') = retain 4 keep_large three 0 in
    IsRing 4 r'
    × (r'.newest ≡ 0)
    × (s' ≡ state_after keep_large (get 4 three) 0 (window 4 three))
    × (get 4 r' 65535 ≡ outcome keep_large (get 4 three) 0 (window 4 three) 65535)
get-retain_example = get-retain keep_large 4 four three 0 65535 three-IsRing (omega arith)

abbrev held : RingBuffer (Unit {0})
held = record { newest = 0; items = some tt ∷ replicate 31 none }

held-IsRing : IsRing num_items held
held-IsRing = record { full_width = refl; id_range = omega arith }

abbrev pub pending : RingBuffer ℕ
pending = record { newest = 1; items = some 5 ∷ some 6 ∷ replicate 30 none }

pending-IsRing : IsRing num_items pending
pending-IsRing = record { full_width = refl; id_range = omega arith }

abbrev no_packets : RingBuffer (Packet ℕ)
no_packets = record { newest = 65535; items = replicate 32 none }

no_packets-IsRing : IsRing num_items no_packets
no_packets-IsRing = record { full_width = refl; id_range = omega arith }

acknowledge-new_ack_example :
    let (reliable, ordered) = acknowledge (new_ack 7 held no_packets) (pending, pending) in
    (get num_items reliable 0
      ≡ (if is_some (get num_items held 0) then none else get num_items pending 0))
    × (get num_items ordered 0
        ≡ (if is_some (get num_items no_packets 0) then none else get num_items pending 0))
acknowledge-new_ack_example =
    acknowledge-new_ack 7 held no_packets pending pending 0 held-IsRing no_packets-IsRing
      pending-IsRing pending-IsRing (omega arith)

abbrev calls : List (Call ℕ)
calls = push_item 7 ∷ insert_item 2 9 ∷ take_item 0 ∷ get_item 2 ∷ ask_override ∷ []

ring_refines_window_example :
    ((run_ring 4 (Ring.fresh 4) calls).1 ≡ (run_window 4 empty_window calls).1)
    × ((run_ring 4 (Ring.fresh 4) calls).0.newest ≡ (run_window 4 empty_window calls).0.newest)
    × (get 4 (run_ring 4 (Ring.fresh 4) calls).0 2 ≡ (run_window 4 empty_window calls).0.at 2)
ring_refines_window_example =
    ring_refines_window 4 four calls 2 (tt, (omega arith, (omega arith, (omega arith, (tt, tt)))))
      (omega arith)

abbrev one_held : RingBuffer ℕ
one_held = record { newest = 0; items = some 5 ∷ replicate 31 none }

one_held-IsRing : IsRing 32 one_held
one_held-IsRing = record { full_width = refl; id_range = omega arith }

size_hint_lem_example :
    let it : Iter ℕ = record { i = 0; ring = one_held } in
    let (lower, upper) = size_hint 32 it in
    ((all : List ℕ) × (collect 32 (next_value 32) 33 (iter 32 one_held) ≡ some all)
      × (len one_held ≡ length all))
    × ((left : List ℕ) × (collect 32 (next_value 32) 33 it ≡ some left)
        × (lower ≤ length left)
        × (length left ≤ upper))
size_hint_lem_example =
    size_hint_lem one_held one_held-IsRing 0 1 (omega arith) (omega arith) (omega arith)
