-- ===== src/Util/Errno.antt =====
-- kernel/util.hpp: the error numbers, and the sizes that stand for them where they are negative.
use tinylittleos.Common.{ℕ, ◌-◌, ◌%◌, ◌^◌, ◌==◌, ltb, if◌then◌else◌}

pub data Errno : Type 0 where
  not_permitted no_entry no_process interrupted io_error no_memory no_access exists : Errno
  not_dir is_dir invalid path_too_long : Errno
  -- Another value, which a cast gives.
  unnamed : (value : ℕ) → Errno

-- What a function with an `errno` result gives: `errno::ok` with its results, or an error.
pub data Outcome {ℓ} (A : Type ℓ) : Type ℓ where
  success : A → Outcome A
  failure : Errno → Outcome A

pub data ℤ : Type 0 where
  pos negsuc : ℕ → ℤ

-- A number of 32 bits as `ssize_t`.
unfoldable pub to_ssize : ℕ → ℤ
to_ssize n =
    if ltb (n % 2 ^ 32) (2 ^ 31) then pos (n % 2 ^ 32) else negsuc (2 ^ 32 - 1 - n % 2 ^ 32)

-- `static_cast<errno>` of -1 - n.
abbrev pub errno_of : (n : ℕ) → Errno
errno_of n =
    if n == 0
    then not_permitted
    else if n == 1
    then no_entry
    else if n == 2
    then no_process
    else if n == 3
    then interrupted
    else if n == 4
    then io_error
    else if n == 11
    then no_memory
    else if n == 12
    then no_access
    else if n == 16
    then exists
    else if n == 19
    then not_dir
    else if n == 20
    then is_dir
    else if n == 21
    then invalid
    else if n == 1336
    then path_too_long
    else unnamed n

-- A result that is not negative, or the error.
abbrev pub outcome_of : ℤ → Outcome ℕ
outcome_of (pos n) = success n
outcome_of (negsuc n) = failure (errno_of n)
