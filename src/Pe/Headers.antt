-- ===== src/Pe/Headers.antt =====
-- What parse_nt_headers of src/pe_headers.c has checked when it accepts a file.
use my_wine.Prelude.{
  ℕ, ◌+◌, ◌-◌, ◌^◌, ◌≤◌, ◌<◌, ◌≡◌, refl, arith, inl, inr, ◌⊎◌, some, Bool-cases, ◌==◌,
}
use my_wine.Pe.Memory.{Bytes, read, read-shift}
use my_wine.Pe.{
  NtHeaders, PeType, pe_type_32, pe_type_64, safe_ptr_at, add32, machine, optional_header_size,
  parse_nt_headers, nt_from_file_header, nt_branch,
}

-- The size of the structure, and of its optional header.
abbrev pub nt_size : PeType → ℕ
nt_size pe_type_32 = 248
nt_size pe_type_64 = 264

abbrev pub optional_size : PeType → ℕ
optional_size pe_type_32 = 224
optional_size pe_type_64 = 240

nt_branch_sound :
    (file : Bytes) (file_size pe_offset file_hdr : ℕ) (type : PeType) (optional size : ℕ)
    (nt : NtHeaders)
    → nt_branch file file_size pe_offset file_hdr type optional size ≡ some nt
    → (pe_offset + size < 2 ^ 32 + size)
      × (pe_offset ≤ 2 ^ 32 - 1 - size)
      × (pe_offset + size ≤ file_size)
      × (nt ≡ record { pe_type = type; raw = λ i. file (pe_offset + i) })
      × (optional ≤ read 2 file (file_hdr + 16))
unfolding nt_branch safe_ptr_at
nt_branch_sound file file_size pe_offset file_hdr type optional size nt e = ground arith

-- What is known of accepted headers.
pub record Accepted (file : Bytes) (file_size pe_offset : ℕ) (nt : NtHeaders) : Type 0 where
  pub inside : pe_offset + nt_size nt.pe_type ≤ file_size
  pub bytes : nt.raw ≡ (λ i. file (pe_offset + i))
  pub supported : (machine nt ≡ 0x8664) ⊎ (machine nt ≡ 0x14c)
  pub long_enough : optional_size nt.pe_type ≤ optional_header_size nt

abbrev copy : PeType → Bytes → ℕ → NtHeaders
copy type file pe_offset = record { pe_type = type; raw = λ i. file (pe_offset + i) }

machine-copy :
    (type : PeType) (file : Bytes) (o : ℕ) → machine (copy type file o) ≡ read 2 file (o + 4)
unfolding machine
machine-copy pe_type_32 file o = read-shift 2 file o 4
machine-copy pe_type_64 file o = read-shift 2 file o 4

optional_header_size-copy :
    (type : PeType) (file : Bytes) (o : ℕ)
    → optional_header_size (copy type file o) ≡ read 2 file (o + 20)
unfolding optional_header_size
optional_header_size-copy pe_type_32 file o = read-shift 2 file o 20
optional_header_size-copy pe_type_64 file o = read-shift 2 file o 20

copy-Accepted :
    (file : Bytes) (file_size pe_offset : ℕ) (type : PeType)
    → pe_offset + nt_size type ≤ file_size
    → pe_offset + 100 < 2 ^ 32
    → (read 2 file (add32 pe_offset 4 + 0) ≡ 0x8664) ⊎ (read 2 file (add32 pe_offset 4 + 0) ≡ 0x14c)
    → optional_size type ≤ read 2 file (add32 pe_offset 4 + 16)
    → Accepted file file_size pe_offset (copy type file pe_offset)
copy-Accepted file file_size pe_offset type inside small kind long =
    let a : add32 pe_offset 4 + 0 ≡ pe_offset + 4 = omega arith in
    let b : add32 pe_offset 4 + 16 ≡ pe_offset + 20 = omega arith in
    record {
      inside = inside;
      bytes = refl;
      supported = rw (machine-copy type file pe_offset, ← a) kind;
      long_enough = rw (optional_header_size-copy type file pe_offset, ← b) long;
    }

nt_from_file_header-Accepted :
    (file : Bytes) (file_size pe_offset : ℕ) (nt : NtHeaders)
    → nt_from_file_header file file_size pe_offset ≡ some nt
    → Accepted file file_size pe_offset nt
unfolding nt_from_file_header
nt_from_file_header-Accepted file file_size pe_offset nt e =
    let hdr = add32 pe_offset 4 in
    let kind : (read 2 file (hdr + 0) ≡ 0x8664) ⊎ (read 2 file (hdr + 0) ≡ 0x14c) = ground arith in
    elim (Bool-cases (read 2 file (add32 hdr 20) == 0x10b)) [
      | inl is32 ↦
          let b =
            nt_branch_sound file file_size pe_offset hdr pe_type_32 224 248 nt (ground arith) in
          rw b.3
            (copy-Accepted file file_size pe_offset pe_type_32 b.2 (omega (arith, b.1)) kind b.4)
      | inr other ↦
          let b =
            nt_branch_sound file file_size pe_offset hdr pe_type_64 240 264 nt (ground arith) in
          rw b.3
            (copy-Accepted file file_size pe_offset pe_type_64 b.2 (omega (arith, b.1)) kind b.4)
    ]

-- Headers that parse_nt_headers accepts lie whole inside the file, are the file's bytes from the
-- PE signature on, carry that signature, name one of the two machines, and announce an optional
-- header that is at least as long as the structure of their type.
pub parse_nt_headers_sound :
    (file : Bytes) (file_size pe_offset : ℕ) (nt : NtHeaders)
    → parse_nt_headers file file_size pe_offset ≡ some nt
    → (read 4 file pe_offset ≡ 0x4550)
      × (pe_offset + nt_size nt.pe_type ≤ file_size)
      × (nt.raw ≡ (λ i. file (pe_offset + i)))
      × ((machine nt ≡ 0x8664) ⊎ (machine nt ≡ 0x14c))
      × (optional_size nt.pe_type ≤ optional_header_size nt)
unfolding parse_nt_headers
parse_nt_headers_sound file file_size pe_offset nt e =
    let a = nt_from_file_header-Accepted file file_size pe_offset nt (ground arith) in
    (ground arith, a.inside, a.bytes, a.supported, a.long_enough)
