-- ===== src/Fs/Tar/Number.antt =====
-- kernel/fs/tar.cpp: the numbers that `tar_lookup` gives, and `tar_lookup_by_index` of them.
use tinylittleos.Common.{
  ℕ, zero, suc, ◌+◌, ◌-◌, ◌^◌, ◌<◌, ◌≤◌, ◌≡◌, ◌≢◌, ◌⊎◌, refl, sym, ap, ap₂, subst, ◌∙◌, true, false,
  ◌==◌, ltb, if◌then◌else◌, List, [], ◌∷◌, length, Option, none, some, arith, Bool-cases, inl, inr,
}
use tinylittleos.Common.Run.{Run, ok, Returns}
use tinylittleos.Util.Cstr.{Memory}
use tinylittleos.Util.Errno.{Outcome, success, failure}
use tinylittleos.Fs.Tar.{
  is_header, file_size, next_header, increment, pass_name, found, passed, File, Named, tar_lookup,
  tar_lookup_by_index_from, tar_lookup_by_index,
}
use tinylittleos.Fs.Tar.Entries.{
  IsText, Holds, Entry, Archive, slashes, numbers, first_segment, prefix_length, passed_of,
  pass_name_lem,
}
use tinylittleos.Fs.Tar.Search.{
  covers, starts_with-covers, Holds-end, find_name, found_or_no_entry, tar_lookup-Finds,
}

-- A path of segments, the last of them not empty.
abbrev pub IsPath : List ℕ → Type 0
IsPath [] = ⊥
IsPath (c ∷ []) = (c ≢ 0) × (c ≢ b'/')
IsPath (c ∷ d ∷ path) = (c ≢ 0) × IsPath (d ∷ path)

pub IsPath-IsText : (path : List ℕ) → IsPath path → IsText path
IsPath-IsText [] p = absurd p
IsPath-IsText (c ∷ []) p = (p.0, tt)
IsPath-IsText (c ∷ d ∷ path) p = (p.0, IsPath-IsText (d ∷ path) p.1)

prefix_length-next :
    (c : ℕ) (name : List ℕ) (number n : ℕ)
    → prefix_length number name ≡ some n
    → prefix_length (if c == b'/' then number + 1 else number) (c ∷ name) ≡ some (suc n)
unfolding prefix_length first_segment
prefix_length-next c [] number n h = ground arith
prefix_length-next c (d ∷ name) zero n h = ground arith
prefix_length-next c (d ∷ name) (suc number) n h = ground arith

last_segment :
    (f c : ℕ) (name : List ℕ)
    → f ≢ b'/'
    → covers (f ∷ []) (c ∷ name) ≡ true
    → prefix_length (slashes (f ∷ [])) (c ∷ name) ≡ some 1
unfolding prefix_length first_segment slashes covers
last_segment f c [] p h = ground arith
last_segment f c (d ∷ name) p h = ground arith

-- The number of a path within a name that it covers leads to the path.
prefix_length-slashes :
    (path name : List ℕ)
    → IsPath path
    → covers path name ≡ true
    → prefix_length (slashes path) name ≡ some (length path)
unfolding covers slashes
prefix_length-slashes [] name p h = absurd p
prefix_length-slashes path [] p h = ground arith
prefix_length-slashes (f ∷ []) (c ∷ name) p h = last_segment f c name p.1 h
prefix_length-slashes (f ∷ g ∷ path) (c ∷ name) p h =
    let e : c ≡ f = ground arith in
    rw e (
      unfold slashes in
      prefix_length-next f name (slashes (g ∷ path)) (length (g ∷ path))
        (prefix_length-slashes (g ∷ path) name p.1 (ground arith)))

prefix_length_above :
    (number : ℕ) (name : List ℕ) → slashes name < number → prefix_length number name ≡ none
unfolding slashes prefix_length
prefix_length_above number [] h = refl
prefix_length_above zero (c ∷ name) h = absurd (omega arith)
prefix_length_above (suc number) (c ∷ name) h =
    ground (arith, prefix_length_above number name, prefix_length_above (suc number) name)

pub find_name_from :
    (es : List Entry) (path : List ℕ) (ptr n : ℕ) {f : File}
    → find_name path es ptr n ≡ some f
    → n ≤ f.inode
unfolding find_name
find_name_from [] path ptr n h = ground arith
find_name_from (e ∷ es) path ptr n {f} h =
    ground (arith, find_name_from es path (next_header ptr e.size) (n + slashes e.name + 1) {f = f})

-- The same file, with the length of the path as the length of its name.
abbrev pub Agrees : Memory → (path : List ℕ) → File → Named → Type 0
Agrees m path f r =
    (r.filename_length ≡ length path)
    × (r.content ≡ f.content)
    × ((f.file_len ≡ r.file_len) ⊎ ((f.file_len ≡ 0) × (m (f.content - 512 + length path) ≡ b'/')))

abbrev Same : Memory → (path : List ℕ) → File → Outcome Named → Type 0
Same m path f (success r) = Agrees m path f r
Same m path f (failure e) = ⊥

-- A name that the path covers ends with it, or goes on with "/".
covered_end :
    (path name : List ℕ) (ptr : ℕ) (m : Memory)
    → IsText path
    → covers path name ≡ true
    → Holds m ptr name
    → length path ≢ length name
    → m (ptr + length path) ≡ b'/'
covered_end path name ptr m text in_ holds ne =
    ground
      (arith, starts_with-covers path name ptr m text holds, Holds-end path name ptr m in_ holds)

module _ (fuel room ptr n i : ℕ) (m : Memory) (header : is_header ptr m ≡ true) where
  step-found :
      (p : ℕ)
      → pass_name room ptr n i m ≡ ok (found p)
      → tar_lookup_by_index_from (suc fuel) room ptr n i m
        ≡ ok (
            success (record {
              filename_length = p - ptr;
              content = ptr + 512;
              file_len = file_size ptr m;
            }))
  unfolding tar_lookup_by_index_from
  step-found p e = rw (header, e)

  step-passed :
      (k : ℕ)
      → pass_name room ptr n i m ≡ ok (passed k)
      → tar_lookup_by_index_from (suc fuel) room ptr n i m
        ≡ tar_lookup_by_index_from fuel room (next_header ptr (file_size ptr m)) (increment k) i m
  unfolding tar_lookup_by_index_from
  step-passed k e = rw (header, e)

-- The numbers of an entry whose name does not hold the number are passed.
pass_name_beyond :
    (name : List ℕ) (room ptr n i : ℕ) (m : Memory)
    → Holds m ptr name
    → length name < room
    → n + slashes name < 2 ^ 32
    → n + slashes name < i
    → pass_name room ptr n i m ≡ ok (passed (n + slashes name))
unfolding passed_of
pass_name_beyond name room ptr n i m holds short fits beyond =
    let e : n + (i - n) ≡ i = omega arith in
    subst (λ j. pass_name room ptr n j m ≡ ok (passed (n + slashes name))) e
      (pass_name_lem name room ptr n (i - n) m holds short fits
        ∙ ap (λ o. ok (passed_of ptr n name o)) (prefix_length_above (i - n) name (omega arith)))

-- The number of the path within the entry that it covers is found there.
pass_name_within :
    (path name : List ℕ) (room ptr n : ℕ) (m : Memory)
    → IsPath path
    → covers path name ≡ true
    → Holds m ptr name
    → length name < room
    → n + slashes name < 2 ^ 32
    → pass_name room ptr n (n + slashes path) m ≡ ok (found (ptr + length path))
unfolding passed_of
pass_name_within path name room ptr n m p c holds short fits =
    pass_name_lem name room ptr n (slashes path) m holds short fits
    ∙ ap (λ o. ok (passed_of ptr n name o)) (prefix_length-slashes path name p c)

module _ (path : List ℕ) (e : Entry) (es : List Entry) (ptr n : ℕ) {f : File} where
  pub find_name-covers :
      covers path e.name ≡ true
      → find_name path (e ∷ es) ptr n ≡ some f
      → (f.inode ≡ n + slashes path)
        × (f.content ≡ ptr + 512)
        × (f.file_len ≡ (if length path == length e.name then e.size else 0))
  unfolding find_name
  find_name-covers c h = ground arith

  pub find_name-skips :
      covers path e.name ≡ false
      → find_name path (e ∷ es) ptr n ≡ some f
      → find_name path es (next_header ptr e.size) (n + slashes e.name + 1) ≡ some f
  unfolding find_name
  find_name-skips c h = ground arith

found_length :
    (path : List ℕ) (e : Entry) (ptr : ℕ) (m : Memory) (f : File)
    → IsPath path
    → covers path e.name ≡ true
    → Holds m ptr e.name
    → file_size ptr m ≡ e.size
    → f.content ≡ ptr + 512
    → f.file_len ≡ (if length path == length e.name then e.size else 0)
    → (f.file_len ≡ file_size ptr m)
      ⊎ ((f.file_len ≡ 0) × (m (f.content - 512 + length path) ≡ b'/'))
found_length path e ptr m f p in_ holds size content len =
    elim (Bool-cases (length path == length e.name)) [
      | inl all ↦ inl (ground arith)
      | inr some_ ↦
          let at : ptr + length path ≡ f.content - 512 + length path = omega arith in
          let end = covered_end path e.name ptr m (IsPath-IsText path p) in_ holds (ground arith) in
          inr (ground arith, ap m (sym at) ∙ end)
    ]

by_index-find_name :
    (es : List Entry) (path : List ℕ) (fuel room ptr n : ℕ) (m : Memory) (f : File)
    → IsPath path
    → Archive m ptr room es
    → length es < fuel
    → n + numbers es < 2 ^ 32
    → find_name path es ptr n ≡ some f
    → Returns (tar_lookup_by_index_from fuel room ptr n f.inode m) (Same m path f)
by_index-find_name es path zero room ptr n m f p a h fits e = absurd (omega arith)
by_index-find_name [] path (suc fuel) room ptr n m f p a h fits e = unfold find_name in ground arith
by_index-find_name (e ∷ es) path (suc fuel) room ptr n m f p (header, holds, short, size, rest) h
      fits eq =
    elim (Bool-cases (covers path e.name)) [
      | inl in_ ↦
          let (inode, content, len) = find_name-covers path e es ptr n in_ eq in
          (
            _,
            step-found fuel room ptr n f.inode m header (ptr + length path) (
                subst (λ j. pass_name room ptr n j m ≡ ok (found (ptr + length path))) (sym inode)
                  (pass_name_within path e.name room ptr n m p in_ holds short
                    (unfold numbers in omega arith))),
            (omega arith, sym content, found_length path e ptr m f p in_ holds size content len),
          )
      | inr out ↦
          let eq' = find_name-skips path e es ptr n out eq in
          let beyond =
            find_name_from es path (next_header ptr e.size) (n + slashes e.name + 1) eq' in
          let next = n + slashes e.name + 1 in
          let no_wrap : increment (n + slashes e.name) ≡ next = unfold numbers in omega arith in
          let (r, run, same) =
            by_index-find_name es path fuel room (next_header ptr e.size) next m f p rest
              (omega arith) (unfold numbers in omega arith) eq' in
          (
            r,
            step-passed fuel room ptr n f.inode m header (n + slashes e.name) (
                  pass_name_beyond e.name room ptr n f.inode m holds short
                    (unfold numbers in omega arith) (omega arith))
                ∙ ap₂ (λ s k. tar_lookup_by_index_from fuel room (next_header ptr s) k f.inode m)
                    size no_wrap
                ∙ run,
            same,
          )
    ]

pub some_of : (o : Option File) (f : File) → ok (found_or_no_entry o) ≡ ok (success f) → o ≡ some f
some_of none f h = ground arith
some_of (some g) f h = ground arith

not_ltb : (a b : ℕ) → b ≤ a → ltb a b ≡ false
not_ltb a b h = ground arith

result :
    (m : Memory) (path : List ℕ) (f : File) (run : Run (Outcome Named))
    → Returns run (Same m path f)
    → (r : Named) × (run ≡ ok (success r)) × Agrees m path f r
result m path f run (success r, e, same) = (r, e, same)
result m path f run (failure r, e, same) = absurd same

-- In an archive of some entries with fewer than 2 ^ 32 numbers, let `tar_lookup` find a path of at
-- most 99 bytes, none of them zero and the last one not "/". Then `tar_lookup_by_index` of the number
-- found succeeds: the length of the name is that of the path, the content is that found, and the
-- length that found; or the length found is 0, since the name goes on with "/" behind the path.
pub tar_lookup_by_index-tar_lookup :
    (es : List Entry) (path : List ℕ) (fuel room archive : ℕ) (m : Memory) (f : File)
    → IsPath path
    → Archive m archive room es
    → length es < fuel
    → 3 + numbers es < 2 ^ 32
    → length path ≤ 99
    → tar_lookup fuel room archive path m ≡ ok (success f)
    → (r : Named) × (tar_lookup_by_index fuel room archive f.inode m ≡ ok (success r))
      × Agrees m path f r
unfolding tar_lookup_by_index
tar_lookup_by_index-tar_lookup es path fuel room archive m f p a h fits short found_ =
    let e =
      sym (tar_lookup-Finds es path fuel room archive m (IsPath-IsText path p) a h fits short)
      ∙ found_ in
    let eq = some_of (find_name path es archive 3) f e in
    let le = find_name_from es path archive 3 eq in
    result m path f _
      (rw (not_ltb f.inode 3 le) (by_index-find_name es path fuel room archive 3 m f p a h fits eq))
