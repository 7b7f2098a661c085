-- ===== src/Strings.antt =====
-- The string helpers of include/syscall_safe_utils.h. A string is the bytes in front of its NUL.
use my_wine.Prelude.{
  ℕ, zero, suc, ◌+◌, ◌≡◌, refl, ap, arith, Bool, true, false, ◌&&◌, List, [], ◌∷◌, length, leb,
  ◌==◌, if◌then◌else◌,
}
pub use Prim.Native.String.{String}
use Prim.Native.Char.{code}

-- The bytes of a literal.
abbrev pub codes : String → List ℕ
codes String.[] = []
codes (String.◌∷◌ c s) = code c ∷ codes s

-- syscall_safe_ascii_lower
unfoldable pub ascii_lower : ℕ → ℕ
ascii_lower c = if leb 65 c && leb c 90 then c + 32 else c

-- syscall_safe_strcasecmp, as to whether it returns 0
unfoldable pub same_nocase : List ℕ → List ℕ → Bool
same_nocase [] [] = true
same_nocase [] (b ∷ bs) = false
same_nocase (a ∷ as') [] = false
same_nocase (a ∷ as') (b ∷ bs) =
    let rest = same_nocase as' bs in if ascii_lower a == ascii_lower b then rest else false

-- syscall_safe_copy_str into a buffer of `suc max_len` bytes
unfoldable pub copy_str : ℕ → List ℕ → List ℕ
copy_str zero src = []
copy_str (suc max_len) [] = []
copy_str (suc max_len) (c ∷ src) = c ∷ copy_str max_len src

pub same_nocase_self : (name : List ℕ) → same_nocase name name ≡ true
unfolding same_nocase
same_nocase_self [] = refl
same_nocase_self (c ∷ name) =
    let e : (ascii_lower c == ascii_lower c) ≡ true = ground arith in
    rw (e, same_nocase_self name) refl

-- A string that fits is copied whole.
pub copy_str_whole : (n : ℕ) (src : List ℕ) → leb (length src) n ≡ true → copy_str n src ≡ src
unfolding copy_str
copy_str_whole zero [] h = refl
copy_str_whole zero (c ∷ src) h = absurd (ground (arith, h))
copy_str_whole (suc n) [] h = refl
copy_str_whole (suc n) (c ∷ src) h = ap (λ s. c ∷ s) (copy_str_whole n src (ground (arith, h)))
