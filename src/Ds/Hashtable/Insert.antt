-- ===== src/Ds/Hashtable/Insert.antt =====
-- kernel/util/ds/hashtable.hpp: `insert` of a key that has no value.
use tinylittleos.Common.{
  ℕ, ◌≡◌, ◌≢◌, refl, sym, ◌∙◌, false, arith, ◌==◌, if◌then◌else◌, Bool-cases, inl, inr,
}
use tinylittleos.Common.Run.{Returns}
use tinylittleos.Ds.Hashtable.{Bucket, Table, update, hash, lookup, put, insert}
use tinylittleos.Ds.Hashtable.Lookup.{
  links, IsTable, update-IsTable, lookup-update, value_in, has_key, IsBucket, lookup_lem,
  has_key-value,
}

module _ (key value : ℕ) (b : Bucket) (w : IsBucket b) (some : value ≢ 0)
    (new : value_in key (links b) ≡ 0) where
  put-value :
      (k : ℕ)
      → value_in k (links (put key value b)) ≡ (if k == key then value else value_in k (links b))
  unfolding put value_in
  put-value k = elim (Bool-cases (b.first.obj == 0)) [
    | inl empty ↦ rw (empty, w.alone (ground arith)) (ground arith)
    | inr full ↦ rw full (ground arith)
  ]

  put-IsBucket : IsBucket (put key value b)
  unfolding put has_key value_in
  put-IsBucket = elim (Bool-cases (b.first.obj == 0)) [
    | inl empty ↦
        rw (empty, w.alone (ground arith))
          (record { alone = λ e. refl; set = tt; distinct = (refl, tt) })
    | inr full ↦ rw full record {
      alone = λ e. absurd (ground (arith, e));
      set = (some, w.set);
      distinct = (
        ground (arith, w.distinct.0),
        (ground (arith, has_key-value key b.rest w.set), w.distinct.1),
      );
    }
  ]

-- `insert` of a value that is not null, for a key without a value, succeeds; afterwards the key
-- has that value, all others have theirs, and the table is in order.
pub lookup-insert :
    (n : ℕ) (t : Table) (key value : ℕ)
    → IsTable t
    → value ≢ 0
    → lookup n t key ≡ 0
    → Returns
        (insert n t key value)
        λ t'. IsTable t' × ((k : ℕ) → lookup n t' k ≡ (if k == key then value else lookup n t k))
unfolding insert
lookup-insert n t key value w some new =
    let b = t (hash n key) in
    let absent : value_in key (links b) ≡ 0 = sym (lookup_lem n t key) ∙ new in
    let t' = update t (hash n key) (put key value b) in
    let nonzero : (value == 0) ≡ false = ground arith in
    (
      t',
      rw nonzero,
      (
        update-IsTable t (hash n key) (put key value b) w
            (put-IsBucket key value b (w (hash n key)) some absent),
        lookup-update n t key value (put key value b)
            (put-value key value b (w (hash n key)) some absent),
      ),
    )
