-- ===== src/Pe/Relocations/Table.antt =====
-- The whole table of src/loader/relocations.c: its loops over blocks and entries.
use my_wine.Prelude.{
  ℕ, zero, suc, ◌+◌, ◌-◌, ◌*◌, ◌/◌, ◌%◌, ◌^◌, ◌≤◌, ◌<◌, ◌≡◌, ◌≢◌, refl, ◌∙◌, arith, inl, inr, Bool,
  true, false, ◌||◌, some, Option-cases, Bool-cases, ltb, leb, ◌==◌, if_ends,
}
use my_wine.Pe.Memory.{Bytes, read}
use my_wine.Pe.{
  NtHeaders, DataDir, size_of_image, image_base, characteristics, get_data_dir, rva_to_ptr,
}
use my_wine.Pe.Relocations.{
  relocate_entry, relocate_entries, relocate_blocks, relocate_dir, delta_of, apply_relocations,
}
use my_wine.Pe.Relocations.Entry.{Confined, relocate_entry-Confined}

relocate_entries-Confined :
    (nt : NtHeaders) (delta va entries rounds i : ℕ) (m : Bytes)
    → Confined (size_of_image nt) m (relocate_entries nt delta va entries rounds i m).1
unfolding relocate_entries
relocate_entries-Confined nt delta va entries zero i m j far = refl
relocate_entries-Confined nt delta va entries (suc rounds) i m j far =
    elim (Option-cases (relocate_entry nt delta va (read 2 m (entries + 2 * i)) m)) [
      | inl failed ↦ rw (failed, relocate_entries) refl
      | inr (m', done) ↦
          rw (done, relocate_entries)
            (relocate_entries-Confined nt delta va entries rounds (i + 1) m' j far
              ∙ relocate_entry-Confined nt delta va (read 2 m (entries + 2 * i)) m m' done j far)
    ]

relocate_blocks-Confined :
    (fuel : ℕ) (nt : NtHeaders) (delta block block_end : ℕ) (m : Bytes) (r : Bool × Bytes)
    → relocate_blocks fuel nt delta block block_end m ≡ some r
    → Confined (size_of_image nt) m r.1
unfolding relocate_blocks
relocate_blocks-Confined zero nt delta block block_end m r e j far = absurd (ground arith)
relocate_blocks-Confined (suc fuel) nt delta block block_end m r e j far =
    let size = read 4 m (block + 4) in
    let patched = relocate_entries nt delta (read 4 m block) (block + 8) ((size - 8) / 2) 0 m in
    let same =
      relocate_entries-Confined nt delta (read 4 m block) (block + 8) ((size - 8) / 2) 0 m j far in
    let rest = λ (h : relocate_blocks fuel nt delta (block + size) block_end patched.1 ≡ some r).
      relocate_blocks-Confined fuel nt delta (block + size) block_end patched.1 r h j far in
    ground (arith, same, rest)

-- The walk over the blocks ends: a block takes at least 8 bytes, so an eighth of the table's size,
-- and one, is fuel enough.
relocate_blocks_ends :
    (fuel : ℕ) (nt : NtHeaders) (delta block block_end : ℕ) (m : Bytes)
    → block ≤ block_end
    → block_end < fuel * 8 + block
    → (r : Bool × Bytes) × (relocate_blocks fuel nt delta block block_end m ≡ some r)
unfolding relocate_blocks
relocate_blocks_ends zero nt delta block block_end m inside enough = absurd (omega arith)
relocate_blocks_ends (suc fuel) nt delta block block_end m inside enough =
    let size = read 4 m (block + 4) in
    let patched = relocate_entries nt delta (read 4 m block) (block + 8) ((size - 8) / 2) 0 m in
    elim (Bool-cases (leb block_end block)) [
      | inl over ↦ ((true, m), rw over refl)
      | inr more ↦ elim (Bool-cases (ltb size 8)) [
        | inl short ↦ ((true, m), rw (more, short) refl)
        | inr whole ↦ elim (Bool-cases (ltb (block_end - block) size)) [
          | inl long ↦ ((false, m), rw (more, whole, long) refl)
          | inr fits ↦
              rw (more, whole, fits)
                (if_ends patched.0
                  (relocate_blocks_ends fuel nt delta (block + read 4 m (block + 4)) block_end
                    (relocate_entries nt delta (read 4 m block) (block + 8)
                      ((read 4 m (block + 4) - 8) / 2) 0 m).1
                    (ground arith) (ground arith))
                  (patched, refl))
        ]
      ]
    ]

relocate_dir_lem :
    (fuel : ℕ) (nt : NtHeaders) (delta : ℕ) (dir : DataDir) (m : Bytes)
    → dir.size < fuel * 8
    → (r : Bool × Bytes) × (relocate_dir fuel nt delta dir m ≡ some r)
      × Confined (size_of_image nt) m r.1
unfolding relocate_dir
relocate_dir_lem fuel nt delta dir m enough =
    elim (Bool-cases ((dir.virtual_address == 0) || (dir.size == 0))) [
      | inl empty ↦ ((true, m), rw empty refl, λ i far. refl)
      | inr there ↦ elim (Option-cases (rva_to_ptr nt dir.virtual_address dir.size)) [
        | inl out ↦ ((false, m), rw (there, out) refl, λ i far. refl)
        | inr (start, here) ↦
            let r =
              relocate_blocks_ends fuel nt delta start (start + dir.size) m (omega arith)
                (omega arith) in
            (
              r.0,
              rw (there, here) r.1,
              relocate_blocks-Confined fuel nt delta start (start + dir.size) m r.0 r.1,
            )
      ]
    ]

-- If the fuel is above an eighth of the directory's size, applying the relocations comes back.
-- Whatever the table holds, and whether the answer is a success or an error, no byte behind the
-- image has changed.
pub apply_relocations-Confined :
    (fuel base : ℕ) (nt : NtHeaders) (m : Bytes)
    → ((dir : DataDir) → get_data_dir nt 5 ≡ some dir → dir.size < fuel * 8)
    → (r : Bool × Bytes) × (apply_relocations fuel base nt m ≡ some r)
      × Confined (size_of_image nt) m r.1
unfolding apply_relocations
apply_relocations-Confined fuel base nt m enough = elim (Bool-cases (delta_of base nt == 0)) [
  | inl home ↦ ((true, m), rw home refl, λ i far. refl)
  | inr away ↦ elim (Bool-cases (characteristics nt % 2 == 1)) [
    | inl stripped ↦ ((false, m), rw (away, stripped) refl, λ i far. refl)
    | inr kept ↦ elim (Option-cases (get_data_dir nt 5)) [
      | inl absent ↦ ((true, m), rw (away, kept, absent) refl, λ i far. refl)
      | inr (dir, e) ↦
          let r = relocate_dir_lem fuel nt (delta_of base nt) dir m (enough dir e) in
          (r.0, rw (away, kept, e) r.1, r.2)
    ]
  ]
]

-- With 64-bit bases, an image mapped at its preferred base is left as it is, whatever its table
-- holds; one whose relocations are stripped that is mapped elsewhere is refused, and left as it is
-- too.
pub apply_relocations_unmoved :
    (fuel base : ℕ) (nt : NtHeaders) (m : Bytes)
    → base < 2 ^ 64
    → image_base nt < 2 ^ 64
    → (base ≡ image_base nt → apply_relocations fuel base nt m ≡ some (true, m))
      × (base ≢ image_base nt
          → characteristics nt % 2 ≡ 1
          → apply_relocations fuel base nt m ≡ some (false, m))
unfolding apply_relocations delta_of
apply_relocations_unmoved fuel base nt m small small' =
    (λ e. ground arith, λ ne stripped. ground arith)
