-- ===== src/Ds/Hashtable.antt =====
-- kernel/util/ds/hashtable.hpp: buckets of links. The first link of a bucket, `m_arr[h]`, lies in
-- the table and is there when the bucket is empty; its `obj` is null then. Further links form a
-- ring with it, here the list of them in the order of the iteration from the first link. A pointer
-- to a value is a number, 0 for null. The number of buckets is 2 to the power `n`.
pub mod Lookup
pub mod Insert
pub mod Remove
mod Tests
use tinylittleos.Common.{
  ℕ, ◌*◌, ◌-◌, ◌%◌, ◌^◌, bit_and, Bool, true, false, not, List, [], ◌∷◌, Option, none, some, ◌==◌,
  if◌then◌else◌,
}
use tinylittleos.Common.Run.{Run, ok, ◌>>=◌, ◌>>◌, kassert}

-- `__ht_link` without the ring's pointers.
pub record Link : Type 0 where
  pub key : ℕ
  pub obj : ℕ

pub record Bucket : Type 0 where
  pub first : Link
  pub rest : List Link

-- `m_arr`
abbrev pub Table : Type 0
Table = ℕ → Bucket

abbrev pub update : Table → ℕ → Bucket → Table
update t h b i = if i == h then b else t i

-- The constructor.
abbrev pub empty_link : Link
empty_link = record { key = 0; obj = 0 }

abbrev pub empty : Table
empty h = record { first = empty_link; rest = [] }

unfoldable pub hash : (n val : ℕ) → ℕ
hash n val = bit_and (val * 0x61C88647 % 2 ^ 32) (2 ^ n - 1)

unfoldable pub find : ℕ → List Link → Option Link
find key [] = none
find key (l ∷ ls) = let later = find key ls in if l.key == key then some l else later

-- `lookup_internal`
unfoldable pub lookup_internal : ℕ → Bucket → Option Link
unfolding find
lookup_internal key b = find key (b.first ∷ b.rest)

abbrev pub obj_of : Option Link → ℕ
obj_of none = 0
obj_of (some l) = l.obj

unfoldable pub lookup : (n : ℕ) → Table → ℕ → ℕ
lookup n t key = obj_of (lookup_internal key (t (hash n key)))

-- The bucket part of `insert`: the new link goes right behind the first one.
unfoldable pub put : (key value : ℕ) → Bucket → Bucket
put key value b =
    if b.first.obj == 0
    then record b { first = record { key = key; obj = value } }
    else record b { rest = record { key = key; obj = value } ∷ b.rest }

unfoldable pub insert : (n : ℕ) → Table → (key value : ℕ) → Run Table
insert n t key value = do
  kassert (not (value == 0))
  ok (update t (hash n key) (put key value (t (hash n key))))

-- `link->unlink()` for the first of the further links with the key.
unfoldable pub unlink : ℕ → List Link → List Link
unlink key [] = []
unlink key (l ∷ ls) = let later = unlink key ls in if l.key == key then ls else l ∷ later

-- "unlink is more complicated": the first link is emptied, or takes over the next one.
unfoldable pub drop_first : Bucket → Bucket
drop_first b = drop b.rest
  where
    drop : List Link → Bucket
    drop [] = record b { first = record (b.first) { obj = 0 } }
    drop (next ∷ rest) = record { first = next; rest = rest }

unfoldable pub take : ℕ → Bucket → Bucket
unfolding drop_first unlink
take key b = if b.first.key == key then drop_first b else record b { rest = unlink key b.rest }

abbrev pub is_some : Option Link → Bool
is_some none = false
is_some (some l) = true

unfoldable pub remove : (n : ℕ) → Table → ℕ → Bool × Table
remove n t key =
    let h = hash n key in
    if is_some (lookup_internal key (t h)) then (true, update t h (take key (t h))) else (false, t)
