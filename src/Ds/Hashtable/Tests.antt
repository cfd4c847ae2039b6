-- ===== src/Ds/Hashtable/Tests.antt =====
-- kernel/util/ds/hashtable.hpp on a table of 16 buckets.
use tinylittleos.Common.{ℕ, ◌≡◌, refl, true, [], arith, ◌==◌, if◌then◌else◌}
use tinylittleos.Common.Run.{Returns}
use tinylittleos.Ds.Hashtable.{
  Table, update, empty, hash, find, lookup_internal, lookup, insert, remove,
}
use tinylittleos.Ds.Hashtable.Lookup.{IsTable, update-IsTable, has_key}
use tinylittleos.Ds.Hashtable.Insert.{lookup-insert}
use tinylittleos.Ds.Hashtable.Remove.{lookup-remove}

empty-IsTable : IsTable empty
unfolding has_key
empty-IsTable h = record { alone = λ e. refl; set = tt; distinct = (refl, tt) }

no_value : lookup 4 empty 5 ≡ 0
unfolding lookup lookup_internal find
no_value = refl

lookup-insert_example :
    Returns
      (insert 4 empty 5 7)
      λ t'. IsTable t' × ((k : ℕ) → lookup 4 t' k ≡ (if k == 5 then 7 else lookup 4 empty k))
lookup-insert_example = lookup-insert 4 empty 5 7 empty-IsTable (omega arith) no_value

-- Key 5 has a value, or had one that was removed.
abbrev with_first : ℕ → Table
unfolding hash
with_first obj =
    update empty (hash 4 5) (record { first = record { key = 5; obj = obj }; rest = [] })

with_first-IsTable : (obj : ℕ) → IsTable (with_first obj)
unfolding has_key with_first
with_first-IsTable obj =
    update-IsTable empty (hash 4 5) _ empty-IsTable
      (record { alone = λ e. refl; set = tt; distinct = (refl, tt) })

lookup-remove_example :
    IsTable (remove 4 (with_first 7) 5).1
    × ((k : ℕ)
        → lookup 4 (remove 4 (with_first 7) 5).1 k
          ≡ (if k == 5 then 0 else lookup 4 (with_first 7) k))
lookup-remove_example = lookup-remove 4 (with_first 7) (with_first-IsTable 7) 5

-- The key was removed already, and `remove` still returns true.
remove_again : (remove 4 (with_first 0) 5).0 ≡ true
unfolding remove lookup_internal find hash with_first
remove_again = refl
