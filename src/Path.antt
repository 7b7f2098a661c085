-- ===== src/Path.antt =====
-- src/msvcrt/kernel32_path.c: wine_resolve_path, from a Windows path to a Linux path. A string is
-- the bytes in front of its NUL; a NULL argument is not modelled.
pub mod Resolve
use my_wine.Prelude.{
  ℕ, zero, suc, ◌+◌, Bool, true, false, ◌&&◌, ◌||◌, List, [], ◌∷◌, ◌++◌, Option, none, some, length,
  ltb, ◌==◌, if◌then◌else◌,
}

abbrev pub slash : ℕ
slash = 47

abbrev pub backslash : ℕ
backslash = 92

abbrev pub colon : ℕ
colon = 58

abbrev pub is_separator : ℕ → Bool
is_separator ch = (ch == slash) || (ch == backslash)

-- What is written of `dst` is kept last byte first, so its head is `dst[i - 1]` and its length `i`.
unfoldable pub ends_in_slash : List ℕ → Bool
ends_in_slash [] = false
ends_in_slash (ch ∷ out) = ch == slash

-- The loop that copies the current directory while `i + 1 < dst_size`.
unfoldable pub copy_cwd : ℕ → List ℕ → List ℕ → List ℕ
copy_cwd dst_size [] out = out
copy_cwd dst_size (ch ∷ cwd) out =
    let rest = copy_cwd dst_size cwd (ch ∷ out) in
    if ltb (length out + 1) dst_size then rest else out

-- The separator that is put behind it.
unfoldable pub close_cwd : List ℕ → List ℕ
close_cwd out = if ends_in_slash out then out else slash ∷ out

-- `src` without its leading separators.
unfoldable pub skip_separators : List ℕ → List ℕ
skip_separators [] = []
skip_separators (ch ∷ src) =
    let rest = skip_separators src in if is_separator ch then rest else ch ∷ src

-- `src` without one leading separator.
unfoldable pub skip_separator : List ℕ → List ℕ
skip_separator [] = []
skip_separator (ch ∷ src) = if is_separator ch then src else ch ∷ src

unfoldable pub has_drive : List ℕ → Bool
has_drive [] = false
has_drive (drive ∷ []) = false
has_drive (drive ∷ ch ∷ src) = ch == colon

unfoldable pub skip_drive : List ℕ → List ℕ
skip_drive [] = []
skip_drive (drive ∷ []) = []
skip_drive (drive ∷ ch ∷ src) = skip_separator src

unfoldable pub is_absolute : List ℕ → Bool
is_absolute [] = false
is_absolute (ch ∷ src) = is_separator ch

abbrev pub to_slash : ℕ → ℕ
to_slash ch = if ch == backslash then slash else ch

-- The loop over the rest of `src`: separators become `/`, a second one in a row is left out.
unfoldable pub copy_src : ℕ → List ℕ → List ℕ → List ℕ
copy_src dst_size [] out = out
copy_src dst_size (ch ∷ src) out =
    let skipped = copy_src dst_size src out in
    let kept = copy_src dst_size src (to_slash ch ∷ out) in
    if ltb (length out + 1) dst_size
    then if (to_slash ch == slash) && ends_in_slash out then skipped else kept
    else out

-- What stands in `dst` before the last loop, and what is left of `src`.
unfoldable pub prefix : ℕ → List ℕ → List ℕ → List ℕ × List ℕ
prefix dst_size cwd src =
    if has_drive src
    then (slash ∷ [], skip_drive src)
    else if is_absolute src
    then (slash ∷ [], skip_separators src)
    else (close_cwd (copy_cwd dst_size cwd []), src)

-- The bytes of `dst`, last first; the NUL is written behind them, at their number. `none` is the
-- return value 0.
unfoldable pub wine_resolve_path : ℕ → List ℕ → List ℕ → Option (List ℕ)
wine_resolve_path dst_size cwd src =
    let (out, rest) = prefix dst_size cwd src in
    if ltb dst_size 2 then none else some (copy_src dst_size rest out)
