-- ===== src/Ds/Refcount.antt =====
-- kernel/util/ds/refcount.cpp: reference counts, of type `int32_t`.
use tinylittleos.Common.{ℕ, ◌+◌, ◌-◌, ◌^◌, Bool, ◌==◌, ltb, if◌then◌else◌}
use tinylittleos.Common.Run.{Run, ok, fault, undefined, kassert, ◌>>◌}

-- Of a new object.
abbrev pub new_rc : ℕ
new_rc = 1

unfoldable pub take_ref : (rc : ℕ) → Run ℕ
take_ref rc = do kassert (ltb 0 rc); if rc + 1 == 2 ^ 31 then fault undefined else ok (rc + 1)

-- The new count, and whether this was the last reference.
unfoldable pub release_ref : (rc : ℕ) → Run (ℕ × Bool)
release_ref rc = do kassert (ltb 0 rc); ok (rc - 1, rc - 1 == 0)
