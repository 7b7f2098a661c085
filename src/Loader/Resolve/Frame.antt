-- ===== src/Loader/Resolve/Frame.antt =====
-- What pass 1 of src/loader/import_resolve.c leaves alone.
use my_wine.Prelude.{
  ℕ, zero, suc, ◌+◌, ◌*◌, ◌^◌, ◌≤◌, ◌<◌, ◌≡◌, ◌≢◌, refl, ap, sym, ◌∙◌, arith, inl, inr, Bool, true,
  false, not, ◌||◌, Option, some, ◌==◌, Bool-cases, Option-cases,
}
use my_wine.Pe.Memory.{Bytes, IsBytes, read}
use my_wine.Pe.{
  NtHeaders, DataDir, get_data_dir, size_of_image, rva_range_is_valid, rva_to_ptr, add32,
}
use my_wine.Loader.Resolve.{
  Resolver, thunk_size, first_thunk, desc_name, desc_size, ilt_rva, cstr_valid, resolve_descriptor,
  resolve_descriptors, resolve_import_pass1,
}
use my_wine.Loader.Resolve.Thunks.{
  SameOutside, Layout, read-SameOutside, resolve_thunks_outside, some-image, valid-le,
}
use my_wine.Loader.Resolve.Directory.{
  Placed, resolve_descriptors_round, rva_to_ptr-eq, size_of_image-lt, or-right, none≢some,
}

unchanged :
    {region : ℕ → Bool} {image : Bytes} (now : Bytes) (r : Bool × Bytes)
    → SameOutside region image now
    → ◌≡◌ {A = Option (Bool × Bytes)} (some (false, now)) (some r)
    → SameOutside region image r.1
unchanged now r same e = rw (some-image false r.0 now r.1 e) same

module _ (resolve : Resolver) (nt : NtHeaders) (region : ℕ → Bool) (image : Bytes)
    (import_rva dir_size : ℕ) where
  -- A field of a descriptor is what it was at first.
  field_same :
      (now : Bytes) (k o : ℕ)
      → Placed region nt image import_rva dir_size
      → SameOutside region image now
      → 20 * k + 20 ≤ dir_size
      → o ≤ 16
      → read 4 now (import_rva + 20 * k + o) ≡ read 4 image (import_rva + 20 * k + o)
  field_same now k o placed same fits small =
      read-SameOutside region image now 4 (import_rva + 20 * k + o) same (λ j lt.
        let here : import_rva + (20 * k + o + j) ≡ import_rva + 20 * k + o + j = omega arith in
        ap region (sym here) ∙ placed.table_apart (20 * k + o + j) (omega arith))

  resolve_descriptor_outside :
      (fuel k : ℕ) (now : Bytes) (r : Bool × Bytes)
      → Placed region nt image import_rva dir_size
      → SameOutside region image now
      → 20 * k + 20 ≤ dir_size
      → desc_name now (import_rva + 20 * k) ≢ 0
      → resolve_descriptor resolve nt fuel (import_rva + 20 * k) now ≡ some r
      → SameOutside region image r.1
  unfolding resolve_descriptor
  resolve_descriptor_outside fuel k now r placed same fits named e =
      let desc = import_rva + 20 * k in
      let name = desc_name now desc in
      let there = field_same now k 12 placed same fits (omega arith) in
      let iat = field_same now k 16 placed same fits (omega arith) in
      let zero_offset : desc ≡ desc + 0 = omega arith in
      let start : read 4 now desc ≡ read 4 image desc =
        ap (read 4 now) zero_offset
        ∙ field_same now k 0 placed same fits (omega arith)
        ∙ ap (read 4 image) (sym zero_offset) in
      let l = placed.each k fits (λ z. named (there ∙ z)) in
      let ilt_same : ilt_rva now desc ≡ ilt_rva image desc = rw (start, iat) refl in
      elim (Bool-cases (cstr_valid nt now name)) [
        | inr bad ↦ unchanged now r same (rw bad at e)
        | inl good ↦ elim (Option-cases (rva_to_ptr nt (ilt_rva now desc) (thunk_size nt))) [
          | inl f ↦ unchanged now r same (rw (good, f) at e)
          | inr p ↦ elim (Option-cases (rva_to_ptr nt (first_thunk now desc) (thunk_size nt))) [
            | inl f ↦ unchanged now r same (rw (good, p.1, f) at e)
            | inr q ↦
                let p_eq = rva_to_ptr-eq nt (ilt_rva now desc) (thunk_size nt) p.0 p.1 ∙ ilt_same in
                let q_eq = rva_to_ptr-eq nt (first_thunk now desc) (thunk_size nt) q.0 q.1 ∙ iat in
                let l' : Layout region nt image desc p.0 q.0 = rw (p_eq, q_eq) l in
                resolve_thunks_outside resolve region nt desc name p.0 q.0 image l' fuel 0 now r.1
                  r.0 same (omega arith) (rw (good, p.1, q.1) at e)
          ]
        ]
      ]

  -- The outer loop from descriptor `k` on.
  resolve_descriptors_outside :
      (inner fuel k : ℕ) (now now' : Bytes) (b : Bool)
      → Placed region nt image import_rva dir_size
      → SameOutside region image now
      → import_rva + dir_size < 2 ^ 32
      → resolve_descriptors resolve nt import_rva dir_size inner fuel
          (20 * k)
          (import_rva + 20 * k)
          now
        ≡ some (b, now')
      → SameOutside region image now'
  unfolding resolve_descriptors
  resolve_descriptors_outside inner zero k now now' b placed same small e =
      absurd (none≢some (b, now') e)
  resolve_descriptors_outside inner (suc fuel) k now now' b placed same small e =
      elim (resolve_descriptors_round resolve nt import_rva dir_size inner fuel (20 * k)
        (import_rva + 20 * k) now now' b e) [
          | inl stop ↦ rw stop same
          | inr d ↦
              let fits : 20 * k + 20 ≤ dir_size = d.1 in
              let same' = resolve_descriptor_outside inner k now d.0 placed same fits d.2 d.3 in
              elim d.4 [
                | inl stop ↦ rw stop same'
                | inr more ↦
                    let next : add32 (20 * k) desc_size ≡ 20 * (k + 1) = omega arith in
                    let there : add32 import_rva (20 * (k + 1)) ≡ import_rva + 20 * (k + 1) =
                      omega arith in
                    resolve_descriptors_outside inner fuel (k + 1) d.0.1 now' b placed same' small
                      (rw (next, there) at more)
              ]
        ]

-- If the directory's IATs lie in a region, its descriptors outside of it, and each table of thunks
-- ends with a 0 outside of it, then a pass 1 that returns, with success or not, has changed no byte
-- outside of that region.
pub resolve_import_pass1_outside :
    (resolve : Resolver) (nt : NtHeaders) (region : ℕ → Bool) (fuel : ℕ) (image image' : Bytes)
    (dir : DataDir) (b : Bool)
    → IsBytes nt.raw
    → get_data_dir nt 1 ≡ some dir
    → Placed region nt image dir.virtual_address dir.size
    → resolve_import_pass1 resolve nt fuel image ≡ some (b, image')
    → SameOutside region image image'
unfolding resolve_import_pass1
resolve_import_pass1_outside resolve nt region fuel image image' dir b bytes d placed e =
    let rva = dir.virtual_address in
    let size = dir.size in
    elim (Bool-cases (size == 0)) [
      | inl z ↦ λ a out.
          ap (λ m. m a) (some-image true b image image' (rw (resolve_import_pass1, d, z) at e))
      | inr z ↦
          elim (Bool-cases ((rva == 0) || not (rva_range_is_valid rva size (size_of_image nt)))) [
            | inl bad ↦ λ a out.
                ap (λ m. m a)
                  (some-image false b image image' (rw (resolve_import_pass1, d, z, bad) at e))
            | inr good ↦ elim (Option-cases (rva_to_ptr nt rva desc_size)) [
              | inl f ↦ λ a out.
                  ap (λ m. m a)
                    (some-image false b image image'
                      (rw (resolve_import_pass1, d, z, good, f) at e))
              | inr p ↦
                  let inside =
                    valid-le rva size (size_of_image nt)
                      (or-right (rva == 0) (rva_range_is_valid rva size (size_of_image nt)) good) in
                  let start : p.0 ≡ rva + 20 * 0 =
                    rva_to_ptr-eq nt rva desc_size p.0 p.1 ∙ omega arith in
                  let z0 : 0 ≡ 20 * 0 = omega arith in
                  let e' = rw (resolve_import_pass1, d, z, good, p.1) at e in
                  resolve_descriptors_outside resolve nt region image rva size fuel fuel 0 image
                    image' b placed (λ a out. refl)
                    (omega (arith, inside, size_of_image-lt nt bytes)) (rw (start) at e')
            ]
          ]
    ]
