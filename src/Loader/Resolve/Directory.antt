-- ===== src/Loader/Resolve/Directory.antt =====
-- Pass 1 of src/loader/import_resolve.c over the descriptors of an import directory.
use my_wine.Prelude.{
  ℕ, zero, suc, ◌+◌, ◌*◌, ◌^◌, ◌≤◌, ◌<◌, ◌≡◌, ◌≢◌, refl, arith, inl, inr, ◌⊎◌, Bool, true, false,
  not, ◌&&◌, ◌||◌, Option, none, some, leb, ◌==◌, Bool-cases, Option-cases,
}
use my_wine.Pe.Memory.{Bytes, IsBytes, span, read-lt-span}
use my_wine.Pe.{NtHeaders, get_data_dir, size_of_image, rva_range_is_valid, rva_to_ptr, add32}
use mathlib.Core.Bool.{true≢false}
use my_wine.Loader.Resolve.{
  Resolver, thunk_size, first_thunk, desc_name, desc_size, ilt_rva, cstr_valid, resolve_descriptor,
  resolve_descriptors, resolve_import_pass1,
}
use my_wine.Loader.Resolve.Thunks.{Layout, resolve_thunks_ends, type_cases, some-image, valid-le}

pub size_of_image-lt : (nt : NtHeaders) → IsBytes nt.raw → size_of_image nt < 2 ^ 32
unfolding size_of_image span
size_of_image-lt nt b = elim (type_cases nt.pe_type) [
  | inl e ↦ rw (size_of_image, e) (omega (arith, read-lt-span 4 nt.raw 80 b))
  | inr e ↦ rw (size_of_image, e) (omega (arith, read-lt-span 4 nt.raw 80 b))
]

pub rva_to_ptr-eq : (nt : NtHeaders) (rva len p : ℕ) → rva_to_ptr nt rva len ≡ some p → p ≡ rva
unfolding rva_to_ptr
rva_to_ptr-eq nt rva len p e = ground (arith, e)

-- The IATs of the directory lie in the region, and the descriptors outside of it.
pub record Placed (region : ℕ → Bool) (nt : NtHeaders) (image : Bytes) (import_rva dir_size : ℕ)
    : Type 0 where
  pub table_apart : (k : ℕ) → k < dir_size → region (import_rva + k) ≡ false
  pub each :
      (k : ℕ)
      → 20 * k + 20 ≤ dir_size
      → desc_name image (import_rva + 20 * k) ≢ 0
      → Layout region nt image
          (import_rva + 20 * k)
          (ilt_rva image (import_rva + 20 * k))
          (first_thunk image (import_rva + 20 * k))

pub or-right : (a b : Bool) → (a || not b) ≡ false → b ≡ true
or-right true b h = absurd (true≢false h)
or-right false true h = refl
or-right false false h = absurd (true≢false h)

pub none≢some : (r : Bool × Bytes) → ◌≢◌ {A = Option (Bool × Bytes)} none (some r)
none≢some r e = cc

module _ (resolve : Resolver) (nt : NtHeaders) where
  resolve_descriptor_ends :
      (fuel desc : ℕ) (image : Bytes)
      → size_of_image nt < fuel
      → (r : Bool × Bytes) × (resolve_descriptor resolve nt fuel desc image ≡ some r)
  unfolding resolve_descriptor
  resolve_descriptor_ends fuel desc image enough =
      let name = desc_name image desc in
      elim (Bool-cases (cstr_valid nt image name)) [
        | inr bad ↦ rw bad ((false, image), refl)
        | inl good ↦ elim (Option-cases (rva_to_ptr nt (ilt_rva image desc) (thunk_size nt))) [
          | inl e ↦ rw (good, e) ((false, image), refl)
          | inr p ↦ elim (Option-cases (rva_to_ptr nt (first_thunk image desc) (thunk_size nt))) [
            | inl e ↦ rw (good, p.1, e) ((false, image), refl)
            | inr q ↦
                rw (good, p.1, q.1)
                  (resolve_thunks_ends resolve nt desc name p.0 q.0 fuel 0 image (omega arith)
                    (omega arith))
          ]
        ]
      ]

  resolve_descriptors_ends :
      (import_rva dir_size inner fuel offset desc : ℕ) (image : Bytes)
      → size_of_image nt < inner
      → offset ≤ dir_size
      → dir_size < fuel + offset
      → dir_size < 2 ^ 32
      → (r : Bool × Bytes) × (resolve_descriptors resolve nt import_rva dir_size inner fuel offset
            desc image
          ≡ some r)
  unfolding resolve_descriptors
  resolve_descriptors_ends import_rva dir_size inner zero offset desc image i low enough small =
      absurd (omega arith)
  resolve_descriptors_ends import_rva dir_size inner (suc fuel) offset desc image i low enough
        small =
      let ih = resolve_descriptors_ends import_rva dir_size inner fuel (add32 offset desc_size) in
      elim (Bool-cases (leb (offset + desc_size) dir_size && not (desc_name image desc == 0))) [
        | inr stop ↦ rw stop ((leb (offset + desc_size) dir_size, image), refl)
        | inl on ↦
            let fits : offset + 20 ≤ dir_size = ground (arith, on) in
            let d = resolve_descriptor_ends inner desc image i in
            elim (Bool-cases d.0.0) [
              | inr bad ↦ rw (on, d.1, bad) ((false, d.0.1), refl)
              | inl good ↦
                  elim (Option-cases
                    (rva_to_ptr nt (add32 import_rva (add32 offset desc_size)) desc_size)) [
                      | inl e ↦ rw (on, d.1, good, e) ((false, d.0.1), refl)
                      | inr p ↦
                          rw (on, d.1, good, p.1) (ih p.0 d.0.1 i (omega arith) (omega arith) small)
                    ]
            ]
      ]

  -- Pass 1 comes to its end, with more fuel than the image has bytes.
  pub resolve_import_pass1_ends :
      (fuel : ℕ) (image : Bytes)
      → IsBytes nt.raw
      → size_of_image nt < fuel
      → (r : Bool × Bytes) × (resolve_import_pass1 resolve nt fuel image ≡ some r)
  unfolding resolve_import_pass1
  resolve_import_pass1_ends fuel image b enough = elim (Option-cases (get_data_dir nt 1)) [
    | inl e ↦ rw (resolve_import_pass1, e) ((true, image), refl)
    | inr d ↦
        let rva = d.0.virtual_address in
        let size = d.0.size in
        elim (Bool-cases (size == 0)) [
          | inl z ↦ rw (resolve_import_pass1, d.1, z) ((true, image), refl)
          | inr z ↦
              elim (Bool-cases
                ((rva == 0) || not (rva_range_is_valid rva size (size_of_image nt)))) [
                  | inl bad ↦ rw (resolve_import_pass1, d.1, z, bad) ((false, image), refl)
                  | inr good ↦ elim (Option-cases (rva_to_ptr nt rva desc_size)) [
                    | inl e ↦ rw (resolve_import_pass1, d.1, z, good, e) ((false, image), refl)
                    | inr p ↦
                        let inside = valid-le rva size (size_of_image nt) (
                          or-right (rva == 0) (rva_range_is_valid rva size (size_of_image nt))
                            good) in
                        rw (resolve_import_pass1, d.1, z, good, p.1)
                          (resolve_descriptors_ends rva size fuel fuel 0 p.0 image enough
                            (omega arith) (omega (arith, inside))
                            (omega (arith, inside, size_of_image-lt nt b)))
                  ]
                ]
        ]
  ]

  -- A round returns, or works on one descriptor, after which it returns or goes on.
  pub resolve_descriptors_round :
      (import_rva dir_size inner fuel offset desc : ℕ) (now now' : Bytes) (b : Bool)
      → resolve_descriptors resolve nt import_rva dir_size inner (suc fuel) offset desc now
        ≡ some (b, now')
      → (now' ≡ now)
        ⊎ ((d : Bool × Bytes) × (offset + desc_size ≤ dir_size)
            × (desc_name now desc ≢ 0)
            × (resolve_descriptor resolve nt inner desc now ≡ some d)
            × ((now' ≡ d.1)
                ⊎ (resolve_descriptors resolve nt import_rva dir_size inner fuel
                      (add32 offset desc_size)
                      (add32 import_rva (add32 offset desc_size))
                      d.1
                    ≡ some (b, now'))))
  unfolding resolve_descriptors
  resolve_descriptors_round import_rva dir_size inner fuel offset desc now now' b e =
      let next = add32 import_rva (add32 offset desc_size) in
      elim (Bool-cases (leb (offset + desc_size) dir_size && not (desc_name now desc == 0))) [
        | inr stop ↦ inl (some-image (leb (offset + desc_size) dir_size) b now now' (rw stop at e))
        | inl on ↦
            let fits : offset + desc_size ≤ dir_size = ground (arith, on) in
            let named : desc_name now desc ≢ 0 = ground (arith, on) in
            elim (Option-cases (resolve_descriptor resolve nt inner desc now)) [
              | inl f ↦ absurd (none≢some (b, now') (rw (on, f) at e))
              | inr d ↦ inr (
                d.0,
                fits,
                named,
                d.1,
                elim (Bool-cases d.0.0) [
                  | inr bad ↦ inl (some-image false b d.0.1 now' (rw (on, d.1, bad) at e))
                  | inl good ↦ elim (Option-cases (rva_to_ptr nt next desc_size)) [
                    | inl f ↦ inl (some-image false b d.0.1 now' (rw (on, d.1, good, f) at e))
                    | inr p ↦
                        let at_p = rva_to_ptr-eq nt next desc_size p.0 p.1 in
                        let e' = rw (on, d.1, good, p.1) at e in inr (rw (← at_p) e')
                  ]
                ],
              )
            ]
      ]
