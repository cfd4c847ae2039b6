-- ===== src/Memory/Slab/Beyond.antt =====
-- kernel/memory/slab.hpp: sizes of objects for which a slab has as many objects as its bitset has
-- bits. The word behind the bits, which `set_all_until` and `all_clear_until` use, is not there.
use tinylittleos.Common.{
  ℕ, zero, suc, ◌-◌, ◌*◌, ◌/◌, ◌^◌, ◌<◌, ◌≤◌, ◌≡◌, refl, List, [], ◌∷◌, length, arith,
}
use native.Mathlib.Nat.{le-div_iff_mul-le, div-mul-le_self}
use tinylittleos.Common.Run.{ok, fault, out_of_bounds, write}
use tinylittleos.Ds.Bitset.{Bitset, all_ones, set_all_until, bit_of}
use tinylittleos.Ds.Bitset.Laws.{IsWords}
use tinylittleos.Ds.Bitset.Loops.{fill-Filled}
use tinylittleos.Ds.Bitset.Prefix.{clear_all_lem}
use tinylittleos.Memory.Slab.{get_metadata_size, num_objects_in_page, Slabs, new_slab, allocate}
use tinylittleos.Memory.Slab.Allocate.{words}

write_beyond : (xs : List ℕ) (i v : ℕ) → length xs ≤ i → write xs i v ≡ fault out_of_bounds
unfolding write
write_beyond [] i v h = refl
write_beyond (x ∷ xs) zero v h = absurd (omega arith)
write_beyond (x ∷ xs) (suc i) v h = rw (write_beyond xs i v (omega arith)) refl

set_all_until-beyond :
    (n : ℕ) (s : Bitset) → IsWords n s → set_all_until s (n * 32) ≡ fault out_of_bounds
unfolding set_all_until
set_all_until-beyond n s w =
    let at : n * 32 / 2 ^ 5 ≡ n = omega arith in
    let (filled, run, f) = fill-Filled all_ones n 0 s.m_set (omega (arith, w.size)) in
    rw (at, run)
      (rw (write_beyond filled n (bit_of (n * 32) - 1) (omega (arith, f.size, w.size))) refl)

module _ (n page_size : ℕ) (pos : 0 < n) where
  -- There are never more objects than bits.
  pub objects-words : num_objects_in_page n page_size ≤ words n page_size * 32
  unfolding num_objects_in_page
  objects-words =
      let d = page_size - get_metadata_size n page_size in
      let in_page : d / n ≤ page_size / n =
        (le-div_iff_mul-le pos).1 (omega (arith, div-mul-le_self d n)) in
      omega (arith, in_page)

  -- The first slab of such a size cannot be made.
  pub allocate-beyond :
      (page : ℕ) (a : Slabs)
      → num_objects_in_page n page_size ≡ words n page_size * 32
      → a.m_free_list ≡ 0
      → IsWords (words n page_size) (a.slabs page).m_bits
      → allocate n page_size (ok page) a ≡ fault out_of_bounds
  unfolding allocate new_slab
  allocate-beyond page a e none_ w =
      let (bits, run, c) = clear_all_lem (words n page_size) (a.slabs page).m_bits w in
      rw (none_, run, e, set_all_until-beyond (words n page_size) bits c.0) refl
