-- ===== src/Loader/ImportTable.antt =====
-- src/loader/import_table.c: the functions that the loader itself offers to programs. Where the linker
-- puts a symbol is an argument.
pub mod Entry
pub mod Kernel32
pub mod Msvcrt
pub mod User32
pub mod Media
pub mod Coherent
pub mod Resolved
pub mod Shims
use my_wine.Prelude.{ℕ, List, ◌++◌, map}
use my_wine.Loader.Imports.{ImportEntry}
use Entry.{TableEntry}
use Kernel32.{ntdll_imports, kernel32_imports}
use Msvcrt.{
  msvcrt_start, msvcrt_data_32, msvcrt_data_64, msvcrt_functions, msvcrt_pointers_32,
  msvcrt_pointers_64,
}
use User32.{user32_imports, user32_upper_imports}
use Media.{
  direct_imports, common_imports, gdi32_imports, winmm_imports, advapi32_imports, play_imports,
}

-- Which of the two builds, by MY_WINE32.
pub data Build : Type 0 where
  build_32 build_64 : Build

abbrev msvcrt_imports : Build → List TableEntry
msvcrt_imports build_32 = msvcrt_start ++ msvcrt_data_32 ++ msvcrt_functions ++ msvcrt_pointers_32
msvcrt_imports build_64 = msvcrt_start ++ msvcrt_data_64 ++ msvcrt_functions ++ msvcrt_pointers_64

-- `import_table` as it is written
unfoldable pub source_table : Build → List TableEntry
source_table build =
    ntdll_imports
    ++ kernel32_imports
    ++ msvcrt_imports build
    ++ user32_imports
    ++ direct_imports
    ++ user32_upper_imports
    ++ common_imports
    ++ gdi32_imports
    ++ winmm_imports
    ++ advapi32_imports
    ++ play_imports

-- `import_table` as it is linked
unfoldable pub import_table : (List ℕ → ℕ) → Build → List ImportEntry
unfolding source_table
import_table linked build =
    map (λ e. record { dll_name = e.table_dll; name = e.table_name; address = linked e.symbol })
      (source_table build)
