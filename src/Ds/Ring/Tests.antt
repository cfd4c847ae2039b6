-- ===== src/Ds/Ring/Tests.antt =====
-- kernel/util/ds/list.hpp on three nodes.
use tinylittleos.Common.{ℕ, ◌≡◌, ◌↔◌, refl, true, false, [], ◌∷◌, length}
use tinylittleos.Memory.Buddy.Links.{has}
use tinylittleos.Ds.Ring.{Heap, construct, lonely, add_after_self}
use tinylittleos.Ds.Ring.Laws.{IsRing, add_after_self-IsRing}
use tinylittleos.Ds.Ring.Walk.{lonely_iff}

abbrev one : Heap
unfolding construct
one = construct 10 (λ q. record { l_prev = 0; l_next = 0 })

one-IsRing : IsRing one 10 []
unfolding one construct has
one-IsRing = record { seg = (refl, refl); distinct = (refl, tt) }

apart : has 20 (10 ∷ []) ≡ false
unfolding has
apart = refl

two-IsRing : IsRing (add_after_self 10 20 one) 10 (20 ∷ [])
two-IsRing = add_after_self-IsRing one 10 20 [] one-IsRing apart

lonely_iff_example : (lonely 10 (add_after_self 10 20 one) ≡ true) ↔ (length {A = ℕ} (20 ∷ []) ≡ 0)
lonely_iff_example = lonely_iff (add_after_self 10 20 one) 10 (20 ∷ []) two-IsRing
