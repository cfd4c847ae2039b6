-- ===== src/Devices/Keyboard/Layout.antt =====
-- The keys of an American keyboard: rows of keys from a scan code on, with what is typed without and
-- with the shift key; only letters change.
use tinylittleos.Common.{
  ℕ, zero, suc, ◌+◌, ◌-◌, ◌<◌, ◌≡◌, refl, ap, ◌∙◌, Bool, true, false, not, ◌&&◌, ◌==◌, ltb, leb,
  if◌then◌else◌, List, [], ◌∷◌, length, get_or, Option, none, some, arith, Bool-cases, inl, inr,
  subst,
}
use tinylittleos.Devices.Keyboard.{kbd_us, shown}

record Row : Type 0 where
  first : ℕ
  plain : List ℕ
  shifted : List ℕ

abbrev same_row : (first : ℕ) → List ℕ → Row
same_row first keys = record { first = first; plain = keys; shifted = keys }

abbrev rows : List Row
rows =
    same_row 1 (27 ∷ [])
    ∷ same_row 2
        (b'1' ∷ b'2' ∷ b'3' ∷ b'4' ∷ b'5' ∷ b'6' ∷ b'7' ∷ b'8' ∷ b'9' ∷ b'0' ∷ b'-' ∷ b'=' ∷ [])
    ∷ same_row 14 (8 ∷ 9 ∷ [])
    ∷ record {
      first = 16;
      plain =
          b'q' ∷ b'w' ∷ b'e' ∷ b'r' ∷ b't' ∷ b'y' ∷ b'u' ∷ b'i' ∷ b'o' ∷ b'p' ∷ b'[' ∷ b']' ∷ [];
      shifted =
          b'Q' ∷ b'W' ∷ b'E' ∷ b'R' ∷ b'T' ∷ b'Y' ∷ b'U' ∷ b'I' ∷ b'O' ∷ b'P' ∷ b'[' ∷ b']' ∷ [];
    }
    ∷ same_row 28 (10 ∷ [])
    ∷ record {
      first = 30;
      plain = b'a' ∷ b's' ∷ b'd' ∷ b'f' ∷ b'g' ∷ b'h' ∷ b'j' ∷ b'k' ∷ b'l' ∷ b';' ∷ 39 ∷ b'`' ∷ [];
      shifted =
          b'A' ∷ b'S' ∷ b'D' ∷ b'F' ∷ b'G' ∷ b'H' ∷ b'J' ∷ b'K' ∷ b'L' ∷ b';' ∷ 39 ∷ b'`' ∷ [];
    }
    ∷ record {
      first = 43;
      plain = 92 ∷ b'z' ∷ b'x' ∷ b'c' ∷ b'v' ∷ b'b' ∷ b'n' ∷ b'm' ∷ b',' ∷ b'.' ∷ b'/' ∷ [];
      shifted = 92 ∷ b'Z' ∷ b'X' ∷ b'C' ∷ b'V' ∷ b'B' ∷ b'N' ∷ b'M' ∷ b',' ∷ b'.' ∷ b'/' ∷ [];
    }
    ∷ same_row 55 (b'*' ∷ [])
    ∷ same_row 57 (32 ∷ [])
    ∷ same_row 74 (b'-' ∷ [])
    ∷ same_row 78 (b'+' ∷ [])
    ∷ []

key_of : (keys : List ℕ) → (i : ℕ) → Option ℕ
key_of [] i = none
key_of (c ∷ keys) zero = some c
key_of (c ∷ keys) (suc i) = key_of keys i

-- What the key of a code types.
typed_in : List Row → (shift : Bool) → (code : ℕ) → Option ℕ
unfolding key_of
typed_in [] shift code = none
typed_in (r ∷ rest) shift code =
    let other = typed_in rest shift code in
    if leb r.first code && ltb code (r.first + length r.plain)
    then key_of (if shift then r.shifted else r.plain) (code - r.first)
    else other

unfoldable pub typed : (shift : Bool) → (code : ℕ) → Option ℕ
unfolding typed_in
typed shift code = typed_in rows shift code

-- What the first `n` codes give, the last one first.
tabulate : (n : ℕ) → (ℕ → Option ℕ) → List (Option ℕ)
tabulate zero f = []
tabulate (suc n) f = f n ∷ tabulate n f

head_or : Option ℕ → List (Option ℕ) → Option ℕ
head_or d [] = d
head_or d (x ∷ xs) = x

tail : List (Option ℕ) → List (Option ℕ)
tail [] = []
tail (x ∷ xs) = xs

tabulate-lt :
    (n : ℕ) (f g : ℕ → Option ℕ) → tabulate n f ≡ tabulate n g → (c : ℕ) → c < n → f c ≡ g c
unfolding tabulate head_or tail
tabulate-lt zero f g all c lt = absurd (omega arith)
tabulate-lt (suc n) f g all c lt = elim (Bool-cases (c == n)) [
  | inl e ↦ let is : n ≡ c = ground arith in subst (λ x. f x ≡ g x) is (ap (head_or none) all)
  | inr e ↦ tabulate-lt n f g (ap tail all) c (ground arith)
]

abbrev from_table : (shift code : ℕ) → Option ℕ
from_table shift code = shown (get_or kbd_us code 0) shift

tables :
    (tabulate 128 (from_table 0) ≡ tabulate 128 (typed false))
    × (tabulate 128 (from_table 1) ≡ tabulate 128 (typed true))
unfolding tabulate shown get_or typed
tables = (refl, refl)

shown-shift : (c s s' : ℕ) → (s == 0) ≡ (s' == 0) → shown c s ≡ shown c s'
unfolding shown
shown-shift c s s' e = rw e

-- The code with the table is the keyboard.
pub shown-typed :
    (code shift : ℕ)
    → code < 128
    → shown (get_or kbd_us code 0) shift ≡ typed (not (shift == 0)) code
shown-typed code shift lt = elim (Bool-cases (shift == 0)) [
  | inl up ↦ rw up (
      shown-shift (get_or kbd_us code 0) shift 0 up
      ∙ tabulate-lt 128 (from_table 0) (typed false) tables.0 code lt)
  | inr down ↦ rw down (
      shown-shift (get_or kbd_us code 0) shift 1 down
      ∙ tabulate-lt 128 (from_table 1) (typed true) tables.1 code lt)
]
