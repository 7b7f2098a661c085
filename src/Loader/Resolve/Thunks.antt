-- ===== src/Loader/Resolve/Thunks.antt =====
-- The loop over the thunks of one descriptor in src/loader/import_resolve.c.
use my_wine.Prelude.{
  ℕ, zero, suc, ◌+◌, ◌-◌, ◌*◌, ◌≤◌, ◌<◌, ◌≡◌, ◌≢◌, refl, ap, sym, ◌∙◌, arith, inl, inr, ◌⊎◌, Bool,
  true, false, not, ◌&&◌, ◌||◌, Option, none, some, ltb, leb, ◌==◌, Bool-cases, Option-cases,
  order_cases,
}
use my_wine.Pe.Memory.{Bytes, read, write_outside, read_cong}
use my_wine.Pe.{PeType, pe_type_32, pe_type_64, NtHeaders, size_of_image, rva_range_is_valid}
use mathlib.Core.Bool.{true≢false}
use my_wine.Loader.Resolve.{Resolver, thunk_size, first_thunk, import_of, patched, resolve_thunks}

pub type_cases : (t : PeType) → (t ≡ pe_type_32) ⊎ (t ≡ pe_type_64)
type_cases pe_type_32 = inl refl
type_cases pe_type_64 = inr refl

pub thunk_size-cases : (nt : NtHeaders) → (thunk_size nt ≡ 4) ⊎ (thunk_size nt ≡ 8)
thunk_size-cases nt = elim (type_cases nt.pe_type) [
  | inl e ↦ inl (rw e refl)
  | inr e ↦ inr (rw e refl)
]

-- Slot `i` ends where the next one begins.
pub slot_after : (s i j : ℕ) → (s ≡ 4) ⊎ (s ≡ 8) → i < j → i * s + s ≤ j * s
slot_after s i j (inl e) h = rw e (omega (arith, h))
slot_after s i j (inr e) h = rw e (omega (arith, h))

index_fits : (s i n : ℕ) → (s ≡ 4) ⊎ (s ≡ 8) → i * s + s ≤ n → i < n
index_fits s i n (inl e) h = let h' : i * 4 + 4 ≤ n = rw e at h in omega (arith, h')
index_fits s i n (inr e) h = let h' : i * 8 + 8 ≤ n = rw e at h in omega (arith, h')

pub valid-le : (rva len size : ℕ) → rva_range_is_valid rva len size ≡ true → rva + len ≤ size
unfolding rva_range_is_valid
valid-le rva len size h = ground (arith, h)

pub le-valid : (rva len size : ℕ) → rva + len ≤ size → rva_range_is_valid rva len size ≡ true
unfolding rva_range_is_valid
le-valid rva len size h = ground (arith, h)

pub some-image :
    (c b : Bool) (now now' : Bytes)
    → ◌≡◌ {A = Option (Bool × Bytes)} (some (c, now)) (some (b, now'))
    → now' ≡ now
some-image c b now now' e = sym (ap (λ o. elim o as (λ x. Bytes) [ none ↦ now | some r ↦ r.1 ]) e)

module _ (resolve : Resolver) (nt : NtHeaders) (desc name ilt iat_base : ℕ) where
  -- The loop ends: each round stays inside the image, or returns.
  pub resolve_thunks_ends :
      (fuel i : ℕ) (image : Bytes)
      → i ≤ size_of_image nt
      → size_of_image nt < fuel + i
      → (r : Bool × Bytes) × (resolve_thunks resolve nt desc name ilt iat_base fuel i image
          ≡ some r)
  unfolding resolve_thunks
  resolve_thunks_ends zero i image low enough = absurd (omega arith)
  resolve_thunks_ends (suc fuel) i image low enough =
      let ih = resolve_thunks_ends fuel (i + 1) in
      let size = thunk_size nt in
      let off = i * size in
      let value = read size image (ilt + off) in
      elim (Bool-cases (rva_range_is_valid ilt (off + size) (size_of_image nt))) [
        | inr bad ↦ rw bad ((false, image), refl)
        | inl good ↦
            let inside =
              index_fits size i (size_of_image nt) (thunk_size-cases nt)
                (omega (arith, valid-le ilt (off + size) (size_of_image nt) good)) in
            elim (Bool-cases
              (rva_range_is_valid (first_thunk image desc) (off + size) (size_of_image nt))) [
                | inr bad ↦ rw (good, bad) ((false, image), refl)
                | inl good' ↦ elim (Bool-cases (value == 0)) [
                  | inl e ↦ rw (good, good', e) ((true, image), refl)
                  | inr e ↦ elim (Option-cases (import_of resolve nt name value image)) [
                    | inl f ↦ rw (good, good', e, f) ((false, image), refl)
                    | inr f ↦
                        rw (good, good', e, f.1)
                          (ih (patched nt (iat_base + off) f.0 image) (omega arith) (omega arith))
                  ]
                ]
              ]
      ]

  -- A round returns with the image as it is, or writes what the thunk asks for and goes on.
  resolve_thunks_round :
      (fuel i : ℕ) (now now' : Bytes) (b : Bool)
      → resolve_thunks resolve nt desc name ilt iat_base (suc fuel) i now ≡ some (b, now')
      → (now' ≡ now)
        ⊎ ((addr : Option ℕ) × (read (thunk_size nt) now (ilt + i * thunk_size nt) ≢ 0)
            × (resolve_thunks resolve nt desc name ilt iat_base fuel
                  (i + 1)
                  (patched nt (iat_base + i * thunk_size nt) addr now)
                ≡ some (b, now')))
  unfolding resolve_thunks
  resolve_thunks_round fuel i now now' b e =
      let size = thunk_size nt in
      let off = i * size in
      let value = read size now (ilt + off) in
      elim (Bool-cases (
        not (rva_range_is_valid ilt (off + size) (size_of_image nt))
        || not (rva_range_is_valid (first_thunk now desc) (off + size) (size_of_image nt)))) [
          | inl bad ↦ inl (some-image false b now now' (rw bad at e))
          | inr good ↦ elim (Bool-cases (value == 0)) [
            | inl z ↦ inl (some-image true b now now' (rw (good, z) at e))
            | inr z ↦ elim (Option-cases (import_of resolve nt name value now)) [
              | inl f ↦ inl (some-image false b now now' (rw (good, z, f) at e))
              | inr f ↦ inr (f.0, ground (arith, z), rw (good, z, f.1) at e)
            ]
          ]
        ]

-- The bytes outside of a region are the same.
abbrev pub SameOutside : (ℕ → Bool) → Bytes → Bytes → Type 0
SameOutside region image image' = (a : ℕ) → region a ≡ false → image' a ≡ image a

pub read-SameOutside :
    (region : ℕ → Bool) (image image' : Bytes) (n a : ℕ)
    → SameOutside region image image'
    → ((k : ℕ) → k < n → region (a + k) ≡ false)
    → read n image' a ≡ read n image a
read-SameOutside region image image' n a same apart = read_cong n image' image a (λ i lo hi.
    let k : a + (i - a) ≡ i = omega arith in
    same i (ap region (sym k) ∙ apart (i - a) (omega arith)))

-- The IAT of the descriptor at `desc` is `count` slots inside the region, and neither the descriptor
-- nor the thunk 0 that ends its table is in it.
pub record Layout (region : ℕ → Bool) (nt : NtHeaders) (image : Bytes) (desc ilt iat_base : ℕ)
    : Type 0 where
  pub count : ℕ
  pub slots :
      (i k : ℕ) → i < count → k < thunk_size nt → region (iat_base + i * thunk_size nt + k) ≡ true
  pub ends : read (thunk_size nt) image (ilt + count * thunk_size nt) ≡ 0
  pub end_apart : (k : ℕ) → k < thunk_size nt → region (ilt + count * thunk_size nt + k) ≡ false

pub patched_outside :
    (region : ℕ → Bool) (nt : NtHeaders) (slot : ℕ) (addr : Option ℕ) (image : Bytes)
    → ((k : ℕ) → k < thunk_size nt → region (slot + k) ≡ true)
    → SameOutside region image (patched nt slot addr image)
unfolding patched
patched_outside region nt slot none image inside a out = refl
patched_outside region nt slot (some v) image inside a out =
    write_outside (thunk_size nt) image slot v a
      (elim (Bool-cases (leb slot a && ltb a (slot + thunk_size nt))) [
        | inr out' ↦ ground arith
        | inl within ↦
            let k : slot + (a - slot) ≡ a = ground arith in
            let lt : a - slot < thunk_size nt = ground arith in
            absurd (true≢false (sym (inside (a - slot) lt) ∙ ap region k ∙ out))
      ])

module _ (resolve : Resolver) (region : ℕ → Bool) (nt : NtHeaders)
    (desc name ilt iat_base : ℕ) where
  -- The loop writes into the region alone.
  pub resolve_thunks_outside :
      (image : Bytes) (l : Layout region nt image desc ilt iat_base) (fuel i : ℕ) (now now' : Bytes)
      (b : Bool)
      → SameOutside region image now
      → i ≤ l.count
      → resolve_thunks resolve nt desc name ilt iat_base fuel i now ≡ some (b, now')
      → SameOutside region image now'
  unfolding resolve_thunks
  resolve_thunks_outside image l zero i now now' b same low e = absurd cc
  resolve_thunks_outside image l (suc fuel) i now now' b same low e =
      elim (resolve_thunks_round resolve nt desc name ilt iat_base fuel i now now' b e) [
        | inl stop ↦ rw stop same
        | inr more ↦
            let size = thunk_size nt in
            let slot = iat_base + i * size in
            let below_count : i < l.count = elim (order_cases i l.count) [
              | inl lt ↦ lt
              | inr (inl here) ↦
                  let there : read size now (ilt + i * size) ≡ 0 =
                    read-SameOutside region image now size (ilt + i * size) same
                      (λ k lt. ap (λ n. region (ilt + n * size + k)) here ∙ l.end_apart k lt)
                    ∙ ap (λ n. read size image (ilt + n * size)) here
                    ∙ l.ends in
                  absurd (more.1 there)
              | inr (inr gt) ↦ absurd (omega arith)
            ] in
            let written =
              patched_outside region nt slot more.0 now (λ k lt. l.slots i k below_count lt) in
            resolve_thunks_outside image l fuel (i + 1) (patched nt slot more.0 now) now' b
              (λ a out. written a out ∙ same a out) (omega arith) more.2
      ]
