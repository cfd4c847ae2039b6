-- ===== src/Ds/Rbtree/Tests.antt =====
-- kernel/util/ds/rbtree.hpp: a tree of the nodes 1, 2 and 3, whose keys are 20, 10 and 30, and the node
-- 4 with the key 15.
use tinylittleos.Common.{ℕ, ◌==◌, ◌≡◌, refl, if◌then◌else◌, arith}
use tinylittleos.Common.Run.{ok, Returns}
use tinylittleos.Ds.Rbtree.{Heap, Rbtree, left, right, find, insert, prev_or_next, remove}
use tinylittleos.Ds.Rbtree.Shape.{Shape, leaf, branch, size, inside, compare_key}
use tinylittleos.Ds.Rbtree.Find.{Finds, find-Finds}
use tinylittleos.Ds.Rbtree.Insert.{IsTree, Inserts, insert-Inserts}

abbrev keys : ℕ → ℕ
keys n = if n == 1 then 20 else if n == 2 then 10 else if n == 3 then 30 else 15

abbrev three : Heap
three n =
    if n == 1
    then record { m_parent = 0; m_left = 2; m_right = 3 }
    else record { m_parent = 1; m_left = 0; m_right = 0 }

abbrev tree : Rbtree
tree = record { m_root = 1; heap = three }

abbrev shape : Shape
shape = branch (branch leaf 2 leaf) 1 (branch leaf 3 leaf)

shape-IsTree : IsTree keys 0 100 tree shape
unfolding inside
shape-IsTree = record {
  rep = (
    refl,
    omega arith,
    refl,
    (refl, omega arith, refl, refl, refl),
    (refl, omega arith, refl, refl, refl),
  );
  once = (
    refl,
    refl,
    λ b i. ground arith,
    (refl, refl, λ b i. refl, tt, tt),
    (refl, refl, λ b i. refl, tt, tt),
  );
  order = omega arith;
}

find-Finds_example : Returns (find 4 (compare_key keys 30) 1 three) (Finds keys 30 shape)
find-Finds_example =
    find-Finds keys 30 4 0 100 shape tree (unfold size in omega arith) shape-IsTree.rep
      shape-IsTree.order

insert-Inserts_example :
    Returns (insert 4 (compare_key keys 15) 4 tree) (Inserts keys 4 0 100 tree shape)
insert-Inserts_example =
    insert-Inserts keys 4 4 0 100 shape tree (unfold size in omega arith) (omega arith)
      (unfold inside in refl) (omega arith) (omega arith) shape-IsTree

-- The root has the node 2 before it and 3 behind it, and goes out with 2 in its place.
neighbours :
    (prev_or_next 4 left 1 three ≡ ok 2)
    × (prev_or_next 4 right 1 three ≡ ok 3)
    × (prev_or_next 4 right 2 three ≡ ok 1)
unfolding prev_or_next
neighbours = (refl, refl, refl)

removed :
    Returns
      (remove 4 1 tree)
      λ t. (t.m_root ≡ 2) × ((t.heap 2).m_right ≡ 3) × ((t.heap 3).m_parent ≡ 2)
unfolding remove
removed = (_, refl, (refl, refl, refl))
