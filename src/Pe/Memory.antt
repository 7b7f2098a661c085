-- ===== src/Pe/Memory.antt =====
-- Little-endian numbers in memory: reading and writing `n` bytes.
use my_wine.Prelude.{
  ℕ, zero, suc, ◌+◌, ◌*◌, ◌/◌, ◌%◌, ◌≤◌, ◌<◌, ◌≡◌, refl, ◌∙◌, ap, arith, inl, inr, ◌⊎◌, Bool-cases,
  ◌==◌, leb, ltb, ◌&&◌, if◌then◌else◌,
}

abbrev pub Bytes : Type 0
Bytes = ℕ → ℕ

abbrev pub update : Bytes → ℕ → ℕ → Bytes
update m a v i = if a == i then v else m i

unfoldable pub read : ℕ → Bytes → ℕ → ℕ
read zero m a = 0
read (suc n) m a = m a + 256 * read n m (a + 1)

unfoldable pub write : ℕ → Bytes → ℕ → ℕ → Bytes
write zero m a v = m
write (suc n) m a v = update (write n m (a + 1) (v / 256)) a (v % 256)

-- 256 to the power `n`
unfoldable pub span : ℕ → ℕ
span zero = 1
span (suc n) = 256 * span n

abbrev pub IsBytes : Bytes → Type 0
IsBytes m = (a : ℕ) → m a < 256

pub write_outside : (n : ℕ) (m : Bytes) (a v i : ℕ) → (i < a) ⊎ (a + n ≤ i) → write n m a v i ≡ m i
unfolding write
write_outside zero m a v i h = refl
write_outside (suc n) m a v i h = ground (arith, write_outside n m (a + 1) (v / 256) i)

-- Reading sees the bytes of its range alone.
pub read_cong :
    (n : ℕ) (m m' : Bytes) (a : ℕ)
    → ((i : ℕ) → a ≤ i → i < a + n → m i ≡ m' i)
    → read n m a ≡ read n m' a
unfolding read
read_cong zero m m' a same = refl
read_cong (suc n) m m' a same =
    let here = same a (omega arith) (omega arith) in
    let rest = read_cong n m m' (a + 1) (λ i lo hi. same i (omega arith) (omega arith)) in
    omega (arith, here, rest)

pub read-lt-span : (n : ℕ) (m : Bytes) (a : ℕ) → IsBytes m → read n m a < span n
unfolding read span
read-lt-span zero m a b = omega arith
read-lt-span (suc n) m a b = omega (arith, b a, read-lt-span n m (a + 1) b)

-- What is written is read back, if it fits.
pub read-write : (n : ℕ) (m : Bytes) (a v : ℕ) → v < span n → read n (write n m a v) a ≡ v
unfolding read write span
read-write zero m a v fits = omega arith
read-write (suc n) m a v fits =
    let rest = read-write n m (a + 1) (v / 256) (omega arith) in
    let same =
      read_cong n (write (suc n) m a v) (write n m (a + 1) (v / 256)) (a + 1)
        (λ i lo hi. ground arith) in
    let here : write (suc n) m a v a ≡ v % 256 = ground arith in omega (arith, rest, same, here)

-- Inside its range a write hides what was there.
pub write_inside :
    (n : ℕ) (m m' : Bytes) (a v i : ℕ) → a ≤ i → i < a + n → write n m a v i ≡ write n m' a v i
unfolding write
write_inside zero m m' a v i lo hi = absurd (omega arith)
write_inside (suc n) m m' a v i lo hi = ground (arith, write_inside n m m' (a + 1) (v / 256) i)

-- A second write of the same place counts alone.
pub write-write :
    (n : ℕ) (m : Bytes) (a v w i : ℕ) → write n (write n m a v) a w i ≡ write n m a w i
write-write n m a v w i = elim (Bool-cases (leb a i && ltb i (a + n))) [
  | inl inside ↦ write_inside n (write n m a v) m a w i (ground arith) (ground arith)
  | inr outside ↦ ground (
    arith,
    write_outside n (write n m a v) a w i,
    write_outside n m a v i,
    write_outside n m a w i,
  )
]

-- Writing back what is there changes nothing.
pub write-read : (n : ℕ) (m : Bytes) (a i : ℕ) → IsBytes m → write n m a (read n m a) i ≡ m i
unfolding read write
write-read zero m a i b = refl
write-read (suc n) m a i b =
    let low : (m a + 256 * read n m (a + 1)) % 256 ≡ m a = omega (arith, b a) in
    let high : (m a + 256 * read n m (a + 1)) / 256 ≡ read n m (a + 1) = omega (arith, b a) in
    rw (low, high) (ground (arith, write-read n m (a + 1) i b))

pub write-IsBytes : (n : ℕ) (m : Bytes) (a v : ℕ) → IsBytes m → IsBytes (write n m a v)
unfolding write
write-IsBytes zero m a v b i = b i
write-IsBytes (suc n) m a v b i = ground (arith, write-IsBytes n m (a + 1) (v / 256) b i)

-- A copy from offset `o` on.
pub read-shift : (n : ℕ) (m : Bytes) (o a : ℕ) → read n (λ i. m (o + i)) a ≡ read n m (o + a)
unfolding read
read-shift zero m o a = refl
read-shift (suc n) m o a =
    let next : o + (a + 1) ≡ o + a + 1 = omega arith in
    omega (arith, read-shift n m o (a + 1) ∙ ap (read n m) next)
