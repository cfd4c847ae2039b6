-- ===== src/Ds/Ring.antt =====
-- kernel/util/ds/list.hpp: `intrusive_doubly_linked_node`, nodes that link to each other in rings. A
-- pointer to a node is a number, and `Heap` holds the two pointers of each node.
pub mod Laws
pub mod Walk
pub mod Rotate
pub mod Frame
mod Tests
use tinylittleos.Common.{
  ℕ, zero, suc, Bool, true, false, not, ◌&&◌, List, [], ◌∷◌, ◌==◌, if◌then◌else◌,
}
use tinylittleos.Common.Run.{Run, ok, fault, out_of_fuel, ◌>>=◌}

pub record Node : Type 0 where
  pub l_prev : ℕ
  pub l_next : ℕ

abbrev pub Heap : Type 0
Heap = ℕ → Node

abbrev pub set_prev : ℕ → ℕ → Heap → Heap
set_prev p v h q = if q == p then record (h q) { l_prev = v } else h q

abbrev pub set_next : ℕ → ℕ → Heap → Heap
set_next p v h q = if q == p then record (h q) { l_next = v } else h q

-- The constructor.
unfoldable pub construct : (this : ℕ) → Heap → Heap
construct this h q = if q == this then record { l_prev = this; l_next = this } else h q

unfoldable pub lonely : (this : ℕ) → Heap → Bool
lonely this h = (h this).l_next == this

unfoldable pub unlink : (this : ℕ) → Heap → Heap
unlink this h =
    let h1 = set_next (h this).l_prev (h this).l_next h in
    let h2 = set_prev (h1 this).l_next (h1 this).l_prev h1 in
    set_next this this (set_prev this this h2)

unfoldable pub add_after_self : (this t : ℕ) → Heap → Heap
add_after_self this t h =
    let h1 = set_prev t this (set_next t (h this).l_next h) in
    set_next this t (set_prev (h1 this).l_next t h1)

-- The nodes that the iteration from `begin()` to `end()` visits: it ends when it is back at
-- `start`, not for the first time.
unfoldable pub iterate : (fuel start : ℕ) → Bool → (node : ℕ) → Heap → Run (List ℕ)
iterate zero start first_time node h = fault out_of_fuel
iterate (suc fuel) start first_time node h =
    let rest = iterate fuel start false (h node).l_next h in
    if (node == start) && not first_time then ok [] else do nodes ← rest; ok (node ∷ nodes)
