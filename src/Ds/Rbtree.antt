-- ===== src/Ds/Rbtree.antt =====
-- kernel/util/ds/rbtree.hpp: a binary search tree whose nodes link to their parent and children. A
-- pointer is a number, 0 for `nullptr`, and `Heap` holds the three pointers of each node. `compare`
-- of a node with the key that is looked for is a parameter. The loops run on fuel.
pub mod Shape
pub mod Find
pub mod Walk
pub mod Insert
pub mod Ends
mod Tests
use tinylittleos.Common.{
  ℕ, zero, suc, Bool, true, false, not, ◌&&◌, ◌||◌, ◌==◌, if◌then◌else◌, Option, none, some,
}
use tinylittleos.Common.Run.{Run, ok, fault, out_of_fuel, null_pointer, kassert, ◌>>=◌, ◌>>◌}

pub data Dir : Type 0 where
  left right : Dir

-- `1 - dir`
abbrev pub other : Dir → Dir
other left = right
other right = left

pub record Node : Type 0 where
  pub m_parent : ℕ
  pub m_left : ℕ
  pub m_right : ℕ

abbrev pub Heap : Type 0
Heap = ℕ → Node

pub record Rbtree : Type 0 where
  pub m_root : ℕ
  pub heap : Heap

-- `m_children[dir]`
abbrev pub child : Dir → Node → ℕ
child left n = n.m_left
child right n = n.m_right

abbrev pub with_child : Dir → ℕ → Node → Node
with_child left p n = record n { m_left = p }
with_child right p n = record n { m_right = p }

abbrev pub set_node : ℕ → Node → Heap → Heap
set_node a n h b = if b == a then n else h b

abbrev pub set_child : ℕ → Dir → ℕ → Heap → Heap
set_child a dir p h = set_node a (with_child dir p (h a)) h

abbrev pub set_parent : ℕ → ℕ → Heap → Heap
set_parent a p h = set_node a (record (h a) { m_parent = p }) h

unfoldable pub dir_of_child : (this c : ℕ) → Heap → Run Dir
dir_of_child this c h = do
  kassert (c == (h this).m_left || c == (h this).m_right)
  ok (if c == (h this).m_left then left else right)

-- The sign of `compare`.
pub data Sign : Type 0 where
  negative nought positive : Sign

unfoldable pub find : (fuel : ℕ) → (compare : ℕ → Sign) → (node : ℕ) → Heap → Run ℕ
find zero compare node h = fault out_of_fuel
find (suc fuel) compare node h =
    let go_left = find fuel compare (h node).m_left h in
    let go_right = find fuel compare (h node).m_right h in
    if node == 0
    then ok 0
    else elim (compare node) [ negative ↦ go_left | positive ↦ go_right | nought ↦ ok node ]

-- Where the loop of `insert` ends: the parent and the direction, or nothing if the key is there.
unfoldable pub walk :
    (fuel : ℕ)
    → (compare : ℕ → Sign) → (parent : ℕ) → Dir
    → (node : ℕ) → Heap
    → Run (Option (ℕ × Dir))
walk zero compare parent dir node h = fault out_of_fuel
walk (suc fuel) compare parent dir node h =
    let go_left = walk fuel compare node left (h node).m_left h in
    let go_right = walk fuel compare node right (h node).m_right h in
    if node == 0
    then ok (some (parent, dir))
    else elim (compare node) [ negative ↦ go_left | positive ↦ go_right | nought ↦ ok none ]

-- `insert` of a node as a child.
unfoldable pub insert_node : (node parent : ℕ) → Dir → Rbtree → Rbtree
insert_node node parent dir t =
    let h = set_node node (record { m_parent = parent; m_left = 0; m_right = 0 }) t.heap in
    if parent == 0
    then record { m_root = node; heap = h }
    else record { m_root = t.m_root; heap = set_child parent dir node h }

unfoldable pub insert :
    (fuel : ℕ) → (compare : ℕ → Sign) → (item : ℕ) → Rbtree → Run (Bool × Rbtree)
unfolding walk insert_node
insert fuel compare item t = do
  place ← walk fuel compare 0 left t.m_root t.heap
  let result : Bool × Rbtree = elim place [
    | none ↦ (false, t)
    | some (parent, dir) ↦ (true, insert_node item parent dir t)
  ]
  ok result

-- All the way in a direction.
unfoldable pub far : (fuel : ℕ) → Dir → (node : ℕ) → Heap → Run ℕ
far zero dir node h = fault out_of_fuel
far (suc fuel) dir node h =
    let rest = far fuel dir (child dir (h node)) h in
    if child dir (h node) == 0 then ok node else rest

unfoldable pub first : (fuel : ℕ) → Rbtree → Run ℕ
unfolding far
first fuel t = let found = far fuel left t.m_root t.heap in if t.m_root == 0 then ok 0 else found

unfoldable pub last : (fuel : ℕ) → Rbtree → Run ℕ
unfolding far
last fuel t = let found = far fuel right t.m_root t.heap in if t.m_root == 0 then ok 0 else found

-- Up while the node is the child in the direction.
unfoldable pub climb : (fuel : ℕ) → Dir → (node : ℕ) → Heap → Run ℕ
climb zero dir node h = fault out_of_fuel
climb (suc fuel) dir node h =
    let parent = (h node).m_parent in
    let rest = climb fuel dir parent h in
    if not (parent == 0) && node == child dir (h parent) then rest else ok parent

unfoldable pub prev_or_next : (fuel : ℕ) → Dir → (this : ℕ) → Heap → Run ℕ
unfolding far climb
prev_or_next fuel dir this h =
    let down = far fuel (other dir) (child dir (h this)) h in
    let up = climb fuel dir this h in if child dir (h this) == 0 then up else down

abbrev set_parent_of : ℕ → ℕ → Heap → Heap
set_parent_of c p h = if c == 0 then h else set_parent c p h

-- `remove_me` of a node that has a child: another node takes its place.
unfoldable pub replace_me : (fuel this : ℕ) → Rbtree → Run Rbtree
unfolding far dir_of_child
replace_me fuel this t = do
  let h = t.heap
  let child_dir = if (h this).m_left == 0 then right else left
  replaced ← far fuel (other child_dir) (child child_dir (h this)) h
  let replaced_child =
      if (h replaced).m_left == 0 then (h replaced).m_right else (h replaced).m_left
  let replaced_parent = (h replaced).m_parent
  kassert (not (replaced == 0) && not (replaced_parent == 0))
  dir ← dir_of_child replaced_parent replaced h
  let h1 =
      set_parent_of replaced_child replaced_parent (set_child replaced_parent dir replaced_child h)
  let h2 = set_child replaced left (h1 this).m_left (set_parent replaced (h1 this).m_parent h1)
  let h3 = set_parent_of (h2 this).m_left replaced h2
  let h4 = set_child replaced right (h3 this).m_right h3
  let h5 = set_parent_of (h4 this).m_right replaced h4
  let parent = (h5 this).m_parent
  let hang = do
    d ← dir_of_child parent this h5
    ok (record { m_root = t.m_root; heap = set_child parent d replaced h5 })
  if parent == 0 then ok (record { m_root = replaced; heap = h5 }) else hang

-- `remove`
unfoldable pub remove : (fuel this : ℕ) → Rbtree → Run Rbtree
unfolding dir_of_child replace_me
remove fuel this t =
    let h = t.heap in
    let leaf = (h this).m_left == 0 && (h this).m_right == 0 in
    let cut = do
      d ← dir_of_child (h this).m_parent this h
      ok (record { m_root = t.m_root; heap = set_child (h this).m_parent d 0 h })
    in if this == t.m_root && leaf
      then ok (record { m_root = 0; heap = h })
      else if leaf
      then cut
      else replace_me fuel this t

unfoldable pub reset : Rbtree → Rbtree
reset t = record t { m_root = 0 }
