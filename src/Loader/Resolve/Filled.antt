-- ===== src/Loader/Resolve/Filled.antt =====
-- What src/loader/import_resolve.c leaves in the IAT of a descriptor whose imports are in order.
use my_wine.Prelude.{
  ℕ, zero, suc, ◌+◌, ◌*◌, ◌≤◌, ◌<◌, ◌≡◌, ◌≢◌, refl, ap, sym, ◌∙◌, arith, inl, inr, ◌⊎◌, Bool, true,
  false, Option, none, some, ◌==◌, Option-cases, order_cases,
}
use my_wine.Pe.Memory.{Bytes, read, span, read_cong, read-write, write_outside}
use my_wine.Pe.{NtHeaders, size_of_image, rva_range_is_valid, rva_to_ptr}
use my_wine.Loader.Resolve.{
  Resolver, thunk_size, first_thunk, desc_name, ilt_rva, cstr_valid, import_of, patched,
  resolve_thunks, resolve_descriptor,
}
use my_wine.Loader.Resolve.Thunks.{
  SameOutside, Layout, read-SameOutside, patched_outside, thunk_size-cases, slot_after, le-valid,
}

-- The imports of the descriptor at `desc`: its name and tables inside the image, the tables ended by
-- a 0 and apart from the IAT, and the addresses that the thunks ask for.
pub record Imports (resolve : Resolver) (region : ℕ → Bool) (nt : NtHeaders) (image : Bytes)
    (desc : ℕ) (addr : ℕ → Option ℕ) : Type 0 where
  pub layout : Layout region nt image desc (ilt_rva image desc) (first_thunk image desc)
  pub named : cstr_valid nt image (desc_name image desc) ≡ true
  pub desc_apart : (k : ℕ) → k < 20 → region (desc + k) ≡ false
  pub ilt_inside :
      ilt_rva image desc + layout.count * thunk_size nt + thunk_size nt ≤ size_of_image nt
  pub iat_inside :
      first_thunk image desc + layout.count * thunk_size nt + thunk_size nt ≤ size_of_image nt
  pub thunks_apart :
      (i k : ℕ)
      → i < layout.count
      → k < thunk_size nt
      → region (ilt_rva image desc + i * thunk_size nt + k) ≡ false
  pub thunks :
      (i : ℕ)
      → i < layout.count
      → read (thunk_size nt) image (ilt_rva image desc + i * thunk_size nt) ≢ 0
  pub found :
      (i : ℕ) (now : Bytes)
      → i < layout.count
      → SameOutside region image now
      → import_of resolve nt
          (desc_name image desc)
          (read (thunk_size nt) image (ilt_rva image desc + i * thunk_size nt))
          now
        ≡ some (addr i)

module _ (nt : NtHeaders) (iat_base : ℕ) (addr : ℕ → Option ℕ) where
  abbrev slot : ℕ → ℕ
  slot i = iat_base + i * thunk_size nt

  -- The image after the first stores.
  stored : ℕ → Bytes → Bytes
  stored zero image = image
  stored (suc n) image = patched nt (slot n) (addr n) (stored n image)

  stored_outside :
      (region : ℕ → Bool) (n : ℕ) (image : Bytes)
      → ((i k : ℕ) → i < n → k < thunk_size nt → region (slot i + k) ≡ true)
      → SameOutside region image (stored n image)
  unfolding stored
  stored_outside region zero image inside a out = refl
  stored_outside region (suc n) image inside a out =
      patched_outside region nt (slot n) (addr n) (stored n image)
        (λ k lt. inside n k (omega arith) lt) a out
      ∙ stored_outside region n image (λ i k lt. inside i k (omega arith)) a out

  -- A store leaves the other slots alone.
  patched_other :
      (i n : ℕ) (image : Bytes)
      → i ≢ n
      → read (thunk_size nt) (patched nt (slot n) (addr n) image) (slot i)
        ≡ read (thunk_size nt) image (slot i)
  unfolding patched
  patched_other i n image other =
      read_cong (thunk_size nt) (patched nt (slot n) (addr n) image) image (slot i) (λ a lo hi.
        let apart : (a < slot n) ⊎ (slot n + thunk_size nt ≤ a) = elim (order_cases i n) [
          | inl lt ↦ inl (omega (arith, slot_after (thunk_size nt) i n (thunk_size-cases nt) lt))
          | inr (inl e) ↦ absurd (other e)
          | inr (inr gt) ↦
              inr (omega (arith, slot_after (thunk_size nt) n i (thunk_size-cases nt) gt))
        ] in
        elim (Option-cases (addr n)) [
          | inl e ↦ rw (patched, e) refl
          | inr v ↦ rw (patched, v.1) (write_outside (thunk_size nt) image (slot n) v.0 a apart)
        ])

  read-stored :
      (n i v : ℕ) (image : Bytes)
      → i < n
      → addr i ≡ some v
      → v < span (thunk_size nt)
      → read (thunk_size nt) (stored n image) (slot i) ≡ v
  unfolding stored patched
  read-stored zero i v image lt e fits = absurd (omega arith)
  read-stored (suc n) i v image lt e fits = elim (order_cases i n) [
    | inl before ↦
        patched_other i n (stored n image) (λ h. absurd (omega (arith, h)))
        ∙ read-stored n i v image before e fits
    | inr (inl here) ↦
        let e' : addr n ≡ some v = ap addr (sym here) ∙ e in
        rw (here, e') (read-write (thunk_size nt) (stored n image) (slot n) v fits)
    | inr (inr after) ↦ absurd (omega arith)
  ]

  read-stored-none :
      (n i : ℕ) (image : Bytes)
      → addr i ≡ none
      → read (thunk_size nt) (stored n image) (slot i) ≡ read (thunk_size nt) image (slot i)
  unfolding stored patched
  read-stored-none zero i image e = refl
  read-stored-none (suc n) i image e = elim (order_cases i n) [
    | inl before ↦
        patched_other i n (stored n image) (λ h. absurd (omega (arith, h)))
        ∙ read-stored-none n i image e
    | inr (inl here) ↦
        let e' : addr n ≡ none = ap addr (sym here) ∙ e in rw e' (read-stored-none n i image e)
    | inr (inr after) ↦
        patched_other i n (stored n image) (λ h. absurd (omega (arith, h)))
        ∙ read-stored-none n i image e
  ]

steps : (s i n : ℕ) → (s ≡ 4) ⊎ (s ≡ 8) → i ≤ n → i * s + s ≤ n * s + s
steps s i n (inl e) h = rw e (omega (arith, h))
steps s i n (inr e) h = rw e (omega (arith, h))

nonzero : (n : ℕ) → n ≢ 0 → (n == 0) ≡ false
nonzero n h = ground (arith, h)

zero-test : (n : ℕ) → n ≡ 0 → (n == 0) ≡ true
zero-test n h = ground (arith, h)

pointer :
    (nt : NtHeaders) (rva len : ℕ) → rva + len ≤ size_of_image nt → rva_to_ptr nt rva len ≡ some rva
unfolding rva_to_ptr
pointer nt rva len h = rw (le-valid rva len (size_of_image nt) h) refl

module _ (resolve : Resolver) (region : ℕ → Bool) (nt : NtHeaders) (image : Bytes) (desc : ℕ)
    (addr : ℕ → Option ℕ) (im : Imports resolve region nt image desc addr) where
  resolve_thunks_fills :
      (fuel i : ℕ)
      → i ≤ im.layout.count
      → im.layout.count < fuel + i
      → resolve_thunks resolve nt desc
          (desc_name image desc)
          (ilt_rva image desc)
          (first_thunk image desc)
          fuel
          i
          (stored nt (first_thunk image desc) addr i image)
        ≡ some (true, stored nt (first_thunk image desc) addr im.layout.count image)
  unfolding resolve_thunks stored
  resolve_thunks_fills zero i low enough = absurd (omega arith)
  resolve_thunks_fills (suc fuel) i low enough =
      let size = thunk_size nt in
      let ilt = ilt_rva image desc in
      let iat = first_thunk image desc in
      let count = im.layout.count in
      let now = stored nt iat addr i image in
      let same =
        stored_outside nt iat addr region i image (λ j k lt. im.layout.slots j k (omega arith)) in
      let before_end : i * size + size ≤ count * size + size =
        steps size i count (thunk_size-cases nt) low in
      let iat_same : first_thunk now desc ≡ iat =
        read-SameOutside region image now 4 (desc + 16) same (λ k lt.
          let here : desc + (16 + k) ≡ desc + 16 + k = omega arith in
          ap region (sym here) ∙ im.desc_apart (16 + k) (omega arith)) in
      let good : rva_range_is_valid ilt (i * size + size) (size_of_image nt) ≡ true =
        le-valid ilt (i * size + size) (size_of_image nt) (omega (arith, im.ilt_inside)) in
      let good' : rva_range_is_valid (first_thunk now desc) (i * size + size) (size_of_image nt)
          ≡ true =
        rw iat_same
          (le-valid iat (i * size + size) (size_of_image nt) (omega (arith, im.iat_inside))) in
      elim (order_cases i count) [
        | inl lt ↦
            let value : read size now (ilt + i * size) ≡ read size image (ilt + i * size) =
              read-SameOutside region image now size (ilt + i * size) same
                (λ k b. im.thunks_apart i k lt b) in
            let some_thunk : (read size now (ilt + i * size) == 0) ≡ false =
              rw value (nonzero (read size image (ilt + i * size)) (im.thunks i lt)) in
            let found : import_of resolve nt (desc_name image desc) (read size now (ilt + i * size))
                  now
                ≡ some (addr i) =
              rw value (im.found i now lt same) in
            let next : i + 1 ≡ suc i = omega arith in
            let rest = resolve_thunks_fills fuel (suc i) (omega arith) (omega arith) in
            rw (good, good', some_thunk, found, next) rest
        | inr (inl here) ↦
            let last : (read size now (ilt + i * size) == 0) ≡ true =
              zero-test (read size now (ilt + i * size)) (
                read-SameOutside region image now size (ilt + i * size) same
                  (λ k b. ap (λ n. region (ilt + n * size + k)) here ∙ im.layout.end_apart k b)
                ∙ ap (λ n. read size image (ilt + n * size)) here
                ∙ im.layout.ends) in
            rw (good, good', last) (ap (λ n. some (true, stored nt iat addr n image)) here)
        | inr (inr gt) ↦ absurd (omega arith)
      ]

-- If a descriptor's imports are in order, and the fuel is more than their number, the descriptor is
-- done with success, every address that was found and fits is in its slot, the slot of an import
-- that was not found is as it was, and nothing outside of the IAT has changed.
pub resolve_descriptor_fills :
    (resolve : Resolver) (region : ℕ → Bool) (nt : NtHeaders) (image : Bytes) (desc fuel : ℕ)
    (addr : ℕ → Option ℕ) (im : Imports resolve region nt image desc addr)
    → im.layout.count < fuel
    → (image' : Bytes) × (resolve_descriptor resolve nt fuel desc image ≡ some (true, image'))
      × ((i v : ℕ)
          → i < im.layout.count
          → addr i ≡ some v
          → v < span (thunk_size nt)
          → read (thunk_size nt) image' (first_thunk image desc + i * thunk_size nt) ≡ v)
      × ((i : ℕ)
          → addr i ≡ none
          → read (thunk_size nt) image' (first_thunk image desc + i * thunk_size nt)
            ≡ read (thunk_size nt) image (first_thunk image desc + i * thunk_size nt))
      × SameOutside region image image'
unfolding resolve_descriptor stored
resolve_descriptor_fills resolve region nt image desc fuel addr im enough =
    let size = thunk_size nt in
    let ilt = ilt_rva image desc in
    let iat = first_thunk image desc in
    let count = im.layout.count in
    let p : rva_to_ptr nt ilt size ≡ some ilt =
      pointer nt ilt size (omega (arith, im.ilt_inside)) in
    let q : rva_to_ptr nt iat size ≡ some iat =
      pointer nt iat size (omega (arith, im.iat_inside)) in
    (
      stored nt iat addr count image,
      rw (resolve_descriptor, im.named, p, q)
          (resolve_thunks_fills resolve region nt image desc addr im fuel 0 (omega arith)
            (omega arith)),
      λ i v lt e fits. read-stored nt iat addr count i v image lt e fits,
      λ i e. read-stored-none nt iat addr count i image e,
      stored_outside nt iat addr region count image (λ i k lt. im.layout.slots i k lt),
    )
