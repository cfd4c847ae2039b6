-- ===== src/Ds/Hashtable/Lookup.antt =====
-- kernel/util/ds/hashtable.hpp: what `lookup` sees of a bucket.
use tinylittleos.Common.{
  ℕ, ◌≡◌, ◌≢◌, refl, ap, ◌∙◌, Bool, false, not, ◌||◌, List, [], ◌∷◌, arith, ◌==◌, if◌then◌else◌,
  Bool-cases, inl, inr,
}
use tinylittleos.Ds.Hashtable.{
  Link, Bucket, Table, update, hash, find, lookup_internal, obj_of, lookup,
}

-- The value of the first link with the key, 0 if there is none.
unfoldable pub value_in : ℕ → List Link → ℕ
value_in key [] = 0
value_in key (l ∷ ls) = if l.key == key then l.obj else value_in key ls

pub obj_of-find : (key : ℕ) (ls : List Link) → obj_of (find key ls) ≡ value_in key ls
unfolding find value_in
obj_of-find key [] = refl
obj_of-find key (l ∷ ls) = elim (Bool-cases (l.key == key)) [
  | inl this ↦ rw (this, find)
  | inr other ↦ rw (other, find) (obj_of-find key ls)
]

pub lookup_lem :
    (n : ℕ) (t : Table) (key : ℕ)
    → lookup n t key ≡ (let b = t (hash n key) in value_in key (b.first ∷ b.rest))
unfolding lookup lookup_internal
lookup_lem n t key = obj_of-find key _

-- Whether a link has the key.
unfoldable pub has_key : ℕ → List Link → Bool
has_key key [] = false
has_key key (l ∷ ls) = (l.key == key) || has_key key ls

abbrev pub DistinctKeys : List Link → Type 0
DistinctKeys [] = Unit
DistinctKeys (l ∷ ls) = (has_key l.key ls ≡ false) × DistinctKeys ls

abbrev pub AllSet : List Link → Type 0
AllSet [] = Unit
AllSet (l ∷ ls) = (l.obj ≢ 0) × AllSet ls

-- A bucket whose first link is empty has no other, and no value is null; no key is there twice.
pub record IsBucket (b : Bucket) : Type 0 where
  pub alone : b.first.obj ≡ 0 → b.rest ≡ []
  pub set : AllSet b.rest
  pub distinct : DistinctKeys (b.first ∷ b.rest)

pub value_in-none : (key : ℕ) (ls : List Link) → has_key key ls ≡ false → value_in key ls ≡ 0
unfolding has_key value_in
value_in-none key [] e = refl
value_in-none key (l ∷ ls) e = ground (arith, value_in-none key ls)

pub has_key-value :
    (key : ℕ) (ls : List Link) → AllSet ls → has_key key ls ≡ not (value_in key ls == 0)
unfolding has_key value_in
has_key-value key [] set = refl
has_key-value key (l ∷ ls) set = ground (arith, set.0, has_key-value key ls set.1)

abbrev pub links : Bucket → List Link
links b = b.first ∷ b.rest

abbrev pub IsTable : Table → Type 0
IsTable t = (h : ℕ) → IsBucket (t h)

pub update-IsTable :
    (t : Table) (h : ℕ) (b : Bucket) → IsTable t → IsBucket b → IsTable (update t h b)
update-IsTable t h b w wb i = elim (Bool-cases (i == h)) [
  | inl same ↦ rw same wb
  | inr other ↦ rw other (w i)
]

-- A bucket that changed the value of one key.
pub lookup-update :
    (n : ℕ) (t : Table) (key v : ℕ) (b : Bucket)
    → ((k : ℕ)
        → value_in k (links b) ≡ (if k == key then v else value_in k (links (t (hash n key)))))
    → (k : ℕ) → lookup n (update t (hash n key) b) k ≡ (if k == key then v else lookup n t k)
lookup-update n t key v b e k = elim (Bool-cases (hash n k == hash n key)) [
  | inl same ↦
      lookup_lem n (update t (hash n key) b) k
      ∙ rw same (
          e k
          ∙ ground (
            arith,
            lookup_lem n t k,
            ap (λ h. value_in k (links (t h))) {x = hash n k} {y = hash n key},
          ))
  | inr other ↦
      lookup_lem n (update t (hash n key) b) k
      ∙ rw other (ground (arith, lookup_lem n t k, ap (hash n) {x = k} {y = key}))
]
