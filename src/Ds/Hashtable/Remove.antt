-- ===== src/Ds/Hashtable/Remove.antt =====
-- kernel/util/ds/hashtable.hpp: `remove`.
use tinylittleos.Common.{
  ℕ, ◌≡◌, refl, ap, Bool, true, false, not, ◌&&◌, List, [], ◌∷◌, arith, ◌==◌, if◌then◌else◌,
  Bool-cases, inl, inr,
}
use tinylittleos.Ds.Hashtable.{
  Link, Bucket, Table, update, hash, find, lookup_internal, lookup, unlink, drop_first, take,
  is_some, remove,
}
use tinylittleos.Ds.Hashtable.Lookup.{
  links, IsTable, update-IsTable, lookup-update, value_in, value_in-none, has_key, DistinctKeys,
  AllSet, IsBucket, lookup_lem,
}

is_some-find : (key : ℕ) (ls : List Link) → is_some (find key ls) ≡ has_key key ls
unfolding find has_key
is_some-find key [] = refl
is_some-find key (l ∷ ls) = elim (Bool-cases (l.key == key)) [
  | inl this ↦ rw (this, find)
  | inr other ↦ rw (other, find) (is_some-find key ls)
]

module _ (key : ℕ) where
  has_key-unlink :
      (ls : List Link)
      → DistinctKeys ls
      → (k : ℕ) → has_key k (unlink key ls) ≡ (has_key k ls && not (k == key))
  unfolding unlink has_key
  has_key-unlink [] d k = refl
  has_key-unlink (l ∷ ls) d k = elim (Bool-cases (l.key == key)) [
    | inl this ↦ rw (this, unlink) (ground (arith, d.0, ap (λ x. has_key x ls) {x = k} {y = l.key}))
    | inr other ↦ rw (other, unlink) (ground (arith, has_key-unlink ls d.1 k))
  ]

  value_in-unlink :
      (ls : List Link)
      → DistinctKeys ls
      → (k : ℕ) → value_in k (unlink key ls) ≡ (if k == key then 0 else value_in k ls)
  unfolding unlink value_in
  value_in-unlink [] d k = ground arith
  value_in-unlink (l ∷ ls) d k = elim (Bool-cases (l.key == key)) [
    | inl this ↦
        rw (this, unlink)
          (ground (arith, value_in-none l.key ls d.0, ap (λ x. value_in x ls) {x = k} {y = l.key}))
    | inr other ↦ rw (other, unlink) (ground (arith, value_in-unlink ls d.1 k))
  ]

  unlink-DistinctKeys : (ls : List Link) → DistinctKeys ls → DistinctKeys (unlink key ls)
  unfolding unlink
  unlink-DistinctKeys [] d = tt
  unlink-DistinctKeys (l ∷ ls) d = elim (Bool-cases (l.key == key)) [
    | inl this ↦ rw (this, unlink) d.1
    | inr other ↦
        rw (other, unlink)
          (ground (arith, d.0, has_key-unlink ls d.1 l.key), unlink-DistinctKeys ls d.1)
  ]

  unlink-AllSet : (ls : List Link) → AllSet ls → AllSet (unlink key ls)
  unfolding unlink
  unlink-AllSet [] set = tt
  unlink-AllSet (l ∷ ls) set = elim (Bool-cases (l.key == key)) [
    | inl this ↦ rw (this, unlink) set.1
    | inr other ↦ rw (other, unlink) (set.0, unlink-AllSet ls set.1)
  ]

  unlink-nil : (ls : List Link) → ls ≡ [] → unlink key ls ≡ []
  unfolding unlink
  unlink-nil ls e = rw (e, unlink)

  -- The first link goes.
  drop-value :
      (first : Link) (rest : List Link)
      → DistinctKeys (first ∷ rest)
      → (first.key == key) ≡ true
      → (k : ℕ)
      → value_in k (links (drop_first (record { first = first; rest = rest })))
        ≡ (if k == key then 0 else value_in k (first ∷ rest))
  unfolding drop_first value_in
  drop-value first [] d e k = ground (arith, e)
  drop-value first (next ∷ more) d e k = ground (
    arith,
    e,
    value_in-none first.key (next ∷ more) d.0,
    ap (λ x. value_in x (next ∷ more)) {x = k} {y = first.key},
  )

  drop-IsBucket :
      (first : Link) (rest : List Link)
      → IsBucket (record { first = first; rest = rest })
      → IsBucket (drop_first (record { first = first; rest = rest }))
  unfolding drop_first
  drop-IsBucket first [] w = record { alone = λ e. refl; set = tt; distinct = w.distinct }
  drop-IsBucket first (next ∷ more) w = record {
    alone = λ e. absurd (w.set.0 e);
    set = w.set.1;
    distinct = w.distinct.1;
  }

  module _ (b : Bucket) (w : IsBucket b) where
    take-value :
        (k : ℕ) → value_in k (links (take key b)) ≡ (if k == key then 0 else value_in k (links b))
    unfolding take value_in
    take-value k = elim (Bool-cases (b.first.key == key)) [
      | inl this ↦ rw this (drop-value b.first b.rest w.distinct this k)
      | inr other ↦ rw other (ground (arith, value_in-unlink b.rest w.distinct.1 k))
    ]

    take-IsBucket : IsBucket (take key b)
    unfolding take
    take-IsBucket = elim (Bool-cases (b.first.key == key)) [
      | inl this ↦ rw this (drop-IsBucket b.first b.rest w)
      | inr other ↦ rw other record {
        alone = λ e. unlink-nil b.rest (w.alone e);
        set = unlink-AllSet b.rest w.set;
        distinct = (
          ground (arith, w.distinct.0, has_key-unlink b.rest w.distinct.1 b.first.key),
          unlink-DistinctKeys b.rest w.distinct.1,
        );
      }
    ]

module _ (n : ℕ) (t : Table) (w : IsTable t) (key : ℕ) where
  found : Bool
  found = has_key key (links (t (hash n key)))

  remove-found :
      remove n t key
      ≡ (if found then (true, update t (hash n key) (take key (t (hash n key)))) else (false, t))
  unfolding remove lookup_internal found
  remove-found = rw (is_some-find key (links (t (hash n key))))

  -- After `remove` the key has no value, all others have theirs, and the table is in order.
  pub lookup-remove :
      IsTable (remove n t key).1
      × ((k : ℕ) → lookup n (remove n t key).1 k ≡ (if k == key then 0 else lookup n t k))
  unfolding found
  lookup-remove = elim (Bool-cases found) [
    | inl yes_found ↦
        rw (remove-found, yes_found)
          (
            update-IsTable t (hash n key) _ w (take-IsBucket key (t (hash n key)) (w (hash n key))),
            lookup-update n t key 0 _ (take-value key (t (hash n key)) (w (hash n key))),
          )
    | inr not_found ↦
        rw (remove-found, not_found)
          (
            w,
            λ k. ground (
              arith,
              lookup_lem n t k,
              ap (lookup n t) {x = k} {y = key},
              lookup_lem n t key,
              value_in-none key (links (t (hash n key))) not_found,
            ),
          )
  ]
