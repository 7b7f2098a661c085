-- ===== src/Pe/Exports.antt =====
-- src/loader/export_table.c: the cache of a module's export directory and its parser. The image is
-- its bytes by RVA; a pointer into it is an RVA, and none is NULL.
pub mod Lookup
pub mod Search
use my_wine.Prelude.{
  ℕ, zero, suc, ◌+◌, ◌-◌, ◌*◌, ◌/◌, ◌%◌, ◌^◌, Bool, true, false, not, ◌&&◌, ◌||◌, List, [], ◌∷◌,
  Option, none, some, ltb, leb, ◌==◌, if◌then◌else◌,
}
use my_wine.Pe.Memory.{Bytes, read}
use my_wine.Pe.{NtHeaders, DataDir, size_of_image, rva_range_is_valid, rva_to_ptr, get_data_dir}

-- `EXPORT_CACHE`; the tables are read by index, and are zero past what was copied.
pub record Cache : Type 0 where
  pub export_dir_rva : ℕ
  pub export_dir_size : ℕ
  pub address_of_functions : ℕ
  pub address_of_names : ℕ
  pub address_of_name_ordinals : ℕ
  pub number_of_functions : ℕ
  pub number_of_names : ℕ
  pub base_ordinal : ℕ
  pub name_table : ℕ → ℕ
  pub ordinal_table : ℕ → ℕ
  pub func_table : ℕ → ℕ

abbrev pub empty_cache : Cache
empty_cache = record {
  export_dir_rva = 0;
  export_dir_size = 0;
  address_of_functions = 0;
  address_of_names = 0;
  address_of_name_ordinals = 0;
  number_of_functions = 0;
  number_of_names = 0;
  base_ordinal = 0;
  name_table = λ i. 0;
  ordinal_table = λ i. 0;
  func_table = λ i. 0;
}

-- What the functions use of `loaded_module_t`.
pub record Module : Type 0 where
  pub nt : NtHeaders
  pub image : Bytes
  pub cache : Cache

abbrev pub max_export_names : ℕ
max_export_names = 2048

abbrev pub max_export_functions : ℕ
max_export_functions = 8192

-- The loop of image_cstr_valid over the `rounds` bytes from `off` on.
unfoldable pub has_nul : ℕ → Bytes → ℕ → Bool
has_nul zero image off = false
has_nul (suc rounds) image off =
    let rest = has_nul rounds image (off + 1) in if image off == 0 then true else rest

-- image_cstr_valid
unfoldable pub image_cstr_valid : Module → ℕ → Bool
image_cstr_valid mod' rva =
    rva_range_is_valid rva 1 (size_of_image mod'.nt)
    && has_nul (size_of_image mod'.nt - rva) mod'.image rva

-- `min` as the parser caps the two counts
abbrev capped : ℕ → ℕ → ℕ
capped limit n = if ltb limit n then limit else n

-- A copy of `count` numbers of `width` bytes.
abbrev table_copy : ℕ → Bytes → ℕ → ℕ → ℕ → ℕ
table_copy width image src count i = if ltb i count then read width image (src + width * i) else 0

-- The cache as parse_export_table fills it from the directory `dir` at `exp`, before the copies.
filled : Bytes → DataDir → ℕ → Cache
filled image dir exp = record {
  export_dir_rva = dir.virtual_address;
  export_dir_size = dir.size;
  address_of_functions = read 4 image (exp + 28);
  address_of_names = read 4 image (exp + 32);
  address_of_name_ordinals = read 4 image (exp + 36);
  number_of_functions = capped max_export_functions (read 4 image (exp + 20));
  number_of_names = capped max_export_names (read 4 image (exp + 24));
  base_ordinal = read 4 image (exp + 16);
  name_table = λ i. 0;
  ordinal_table = λ i. 0;
  func_table = λ i. 0;
}

-- One of its three copies: none where the source is out of bounds.
copied : NtHeaders → Bytes → ℕ → ℕ → ℕ → Option (ℕ → ℕ)
copied nt image width address count =
    if (count == 0) || (address == 0)
    then some (λ i. 0)
    else elim (rva_to_ptr nt address (count * width)) [
      | none ↦ none
      | some src ↦ some (table_copy width image src count)
    ]

-- The three copies in order. A cache that fails is left zeroed.
copy_tables : NtHeaders → Bytes → Cache → Bool × Cache
unfolding copied
copy_tables nt image c = elim (copied nt image 4 c.address_of_names c.number_of_names) [
  | none ↦ (false, empty_cache)
  | some names ↦ elim (copied nt image 2 c.address_of_name_ordinals c.number_of_names) [
    | none ↦ (false, empty_cache)
    | some ordinals ↦ elim (copied nt image 4 c.address_of_functions c.number_of_functions) [
      | none ↦ (false, empty_cache)
      | some functions ↦
          (true, record c { name_table = names; ordinal_table = ordinals; func_table = functions })
    ]
  ]
]

-- What parse_export_table does with the directory at `exp`.
parse_directory : Module → DataDir → ℕ → Bool × Cache
unfolding filled copy_tables
parse_directory m dir exp =
    let c = filled m.image dir exp in
    if (ltb 0 c.number_of_names && ((c.address_of_names == 0) || (c.address_of_name_ordinals == 0)))
      || (ltb 0 c.number_of_functions && (c.address_of_functions == 0))
    then (false, empty_cache)
    else copy_tables m.nt m.image c

-- parse_export_table: whether it returned 0, and the cache.
unfoldable pub parse_export_table : Module → Bool × Cache
unfolding parse_directory
parse_export_table m = elim (get_data_dir m.nt 0) [
  | none ↦ (false, m.cache)
  | some dir ↦
      if (dir.virtual_address == 0) || ltb dir.size 40
      then (false, m.cache)
      else elim (rva_to_ptr m.nt dir.virtual_address 40) [
        | none ↦ (false, m.cache)
        | some exp ↦ parse_directory m dir exp
      ]
]

-- reset_export_cache
unfoldable pub reset_export_cache : Module → Module
reset_export_cache m = record m { cache = empty_cache }
