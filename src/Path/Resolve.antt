-- ===== src/Path/Resolve.antt =====
-- The paths that wine_resolve_path makes: their length, and their separators.
use my_wine.Prelude.{
  ℕ, ◌+◌, ◌≤◌, ◌<◌, ◌≡◌, refl, ap, arith, inl, inr, Bool, true, false, ◌&&◌, List, [], ◌∷◌, some,
  length, ltb, ◌==◌, Bool-cases, ltb→lt,
}
use my_wine.Path.{
  slash, ends_in_slash, copy_cwd, close_cwd, has_drive, is_absolute, to_slash, copy_src, prefix,
  wine_resolve_path,
}

copy_src-length :
    (dst_size : ℕ) (src out : List ℕ)
    → length out < dst_size
    → length (copy_src dst_size src out) < dst_size
unfolding copy_src
copy_src-length dst_size [] out h = h
copy_src-length dst_size (ch ∷ src) out h = elim (Bool-cases (ltb (length out + 1) dst_size)) [
  | inr e ↦ rw e h
  | inl e ↦ rw e elim (Bool-cases ((to_slash ch == slash) && ends_in_slash out)) [
    | inl f ↦ rw f (copy_src-length dst_size src out h)
    | inr f ↦ rw f (
        copy_src-length dst_size src (to_slash ch ∷ out)
          (omega (arith, ltb→lt (length out + 1) dst_size e)))
  ]
]

-- Once the buffer is full nothing more is written.
copy_src-full :
    (dst_size : ℕ) (src out : List ℕ) → dst_size ≤ length out + 1 → copy_src dst_size src out ≡ out
unfolding copy_src
copy_src-full dst_size [] out h = refl
copy_src-full dst_size (ch ∷ src) out h = elim (Bool-cases (ltb (length out + 1) dst_size)) [
  | inr e ↦ rw e refl
  | inl e ↦ absurd (omega (arith, ltb→lt (length out + 1) dst_size e))
]

copy_cwd-length :
    (dst_size : ℕ) (cwd out : List ℕ) → length (copy_cwd dst_size cwd out) ≤ length cwd + length out
unfolding copy_cwd
copy_cwd-length dst_size [] out = omega arith
copy_cwd-length dst_size (ch ∷ cwd) out =
    let ih = copy_cwd-length dst_size cwd (ch ∷ out) in
    elim (Bool-cases (ltb (length out + 1) dst_size)) [
      | inr e ↦ rw e (omega arith)
      | inl e ↦ rw e (omega (arith, ih))
    ]

-- A path with no two separators in a row.
unfoldable pub IsClean : List ℕ → Type 0
IsClean [] = Unit
IsClean (ch ∷ out) = (((ch == slash) && ends_in_slash out) ≡ false) × IsClean out

copy_src-IsClean :
    (dst_size : ℕ) (src out : List ℕ) → IsClean out → IsClean (copy_src dst_size src out)
unfolding copy_src IsClean
copy_src-IsClean dst_size [] out h = h
copy_src-IsClean dst_size (ch ∷ src) out h = elim (Bool-cases (ltb (length out + 1) dst_size)) [
  | inr e ↦ rw e h
  | inl e ↦ rw e elim (Bool-cases ((to_slash ch == slash) && ends_in_slash out)) [
    | inl f ↦ rw f (copy_src-IsClean dst_size src out h)
    | inr f ↦ rw f (copy_src-IsClean dst_size src (to_slash ch ∷ out) (f, h))
  ]
]

-- With room for the current directory, a separator and the NUL, what stands before the last loop
-- leaves room for the NUL.
prefix-length :
    (dst_size : ℕ) (cwd src : List ℕ)
    → length cwd + 1 < dst_size
    → length (prefix dst_size cwd src).0 < dst_size
unfolding prefix close_cwd
prefix-length dst_size cwd src h =
    let bound = copy_cwd-length dst_size cwd [] in
    elim (Bool-cases (has_drive src)) [
      | inl e ↦ rw e (omega arith)
      | inr e ↦ rw e elim (Bool-cases (is_absolute src)) [
        | inl f ↦ rw f (omega arith)
        | inr f ↦ rw f elim (Bool-cases (ends_in_slash (copy_cwd dst_size cwd []))) [
          | inl g ↦ rw g (omega (arith, bound))
          | inr g ↦ rw g (omega (arith, bound))
        ]
      ]
    ]

-- Where the buffer has room for the current directory, a separator and a NUL, wine_resolve_path
-- succeeds, and the NUL behind the path that it writes stands inside the buffer.
pub resolve_in_bounds :
    (dst_size : ℕ) (cwd src : List ℕ)
    → length cwd + 1 < dst_size
    → (out : List ℕ) × ((wine_resolve_path dst_size cwd src ≡ some out) × (length out < dst_size))
unfolding wine_resolve_path
resolve_in_bounds dst_size cwd src h =
    let two : ltb dst_size 2 ≡ false = ground arith in
    (
      copy_src dst_size (prefix dst_size cwd src).1 (prefix dst_size cwd src).0,
      (
        rw two refl,
        copy_src-length dst_size (prefix dst_size cwd src).1 (prefix dst_size cwd src).0
            (prefix-length dst_size cwd src h),
      ),
    )

and_swap : (a b : Bool) → (a && b) ≡ false → (b && a) ≡ false
and_swap true b h = rw h refl
and_swap false true h = refl
and_swap false false h = refl

copy_cwd-IsClean :
    (dst_size : ℕ) (cwd out : List ℕ)
    → IsClean cwd
    → IsClean out
    → (ends_in_slash cwd && ends_in_slash out) ≡ false
    → IsClean (copy_cwd dst_size cwd out)
unfolding copy_cwd IsClean ends_in_slash
copy_cwd-IsClean dst_size [] out hc ho joint = ho
copy_cwd-IsClean dst_size (ch ∷ cwd) out hc ho joint =
    elim (Bool-cases (ltb (length out + 1) dst_size)) [
      | inr e ↦ rw e ho
      | inl e ↦ rw e (
          copy_cwd-IsClean dst_size cwd (ch ∷ out) hc.1 (joint, ho)
            (and_swap (ch == slash) (ends_in_slash cwd) hc.0))
    ]

close_cwd-IsClean : (out : List ℕ) → IsClean out → IsClean (close_cwd out)
unfolding close_cwd IsClean
close_cwd-IsClean out h = elim (Bool-cases (ends_in_slash out)) [
  | inl e ↦ rw e h
  | inr e ↦ rw e (e, h)
]

prefix-IsClean :
    (dst_size : ℕ) (cwd src : List ℕ) → IsClean cwd → IsClean (prefix dst_size cwd src).0
unfolding prefix IsClean ends_in_slash
prefix-IsClean dst_size cwd src h = elim (Bool-cases (has_drive src)) [
  | inl e ↦ rw e (refl, tt)
  | inr e ↦ rw e elim (Bool-cases (is_absolute src)) [
    | inl f ↦ rw f (refl, tt)
    | inr f ↦ rw f (
        close_cwd-IsClean (copy_cwd dst_size cwd [])
          (copy_cwd-IsClean dst_size cwd [] h tt (and_swap false (ends_in_slash cwd) refl)))
  ]
]

-- Where the buffer has two bytes or more and the current directory has no two separators in a row,
-- wine_resolve_path makes a path with no two separators in a row.
pub resolve-IsClean :
    (dst_size : ℕ) (cwd src : List ℕ)
    → 2 ≤ dst_size
    → IsClean cwd
    → (out : List ℕ) × ((wine_resolve_path dst_size cwd src ≡ some out) × IsClean out)
unfolding wine_resolve_path
resolve-IsClean dst_size cwd src two h =
    let enough : ltb dst_size 2 ≡ false = ground arith in
    (
      copy_src dst_size (prefix dst_size cwd src).1 (prefix dst_size cwd src).0,
      (
        rw enough refl,
        copy_src-IsClean dst_size (prefix dst_size cwd src).1 (prefix dst_size cwd src).0
            (prefix-IsClean dst_size cwd src h),
      ),
    )

copy_cwd-fills :
    (dst_size : ℕ) (cwd out : List ℕ)
    → length out < dst_size
    → dst_size ≤ length cwd + length out + 1
    → length (copy_cwd dst_size cwd out) + 1 ≡ dst_size
unfolding copy_cwd
copy_cwd-fills dst_size [] out low high = omega arith
copy_cwd-fills dst_size (ch ∷ cwd) out low high =
    elim (Bool-cases (ltb (length out + 1) dst_size)) [
      | inr e ↦ rw e (ground arith)
      | inl e ↦ rw e (
          copy_cwd-fills dst_size cwd (ch ∷ out) (omega (arith, ltb→lt (length out + 1) dst_size e))
            (omega arith))
    ]

-- Where the current directory fills the buffer, the byte that ends its copy is no separator, and
-- `src` is relative, the NUL is written one past the end of the buffer.
pub resolve_overruns :
    (dst_size : ℕ) (cwd src : List ℕ)
    → 2 ≤ dst_size
    → dst_size ≤ length cwd + 1
    → ends_in_slash (copy_cwd dst_size cwd []) ≡ false
    → has_drive src ≡ false
    → is_absolute src ≡ false
    → (out : List ℕ) × ((wine_resolve_path dst_size cwd src ≡ some out) × (length out ≡ dst_size))
unfolding wine_resolve_path prefix close_cwd
resolve_overruns dst_size cwd src two full unclosed drive absolute =
    let enough : ltb dst_size 2 ≡ false = ground arith in
    let copied : length (copy_cwd dst_size cwd []) + 1 ≡ dst_size =
      copy_cwd-fills dst_size cwd [] (omega arith) (omega arith) in
    let stop =
      copy_src-full dst_size src (slash ∷ copy_cwd dst_size cwd []) (omega (arith, copied)) in
    (
      slash ∷ copy_cwd dst_size cwd [],
      (rw (enough, drive, absolute, unclosed) (ap some stop), omega (arith, copied)),
    )
