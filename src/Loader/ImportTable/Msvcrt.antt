-- ===== src/Loader/ImportTable/Msvcrt.antt =====
-- The entries of src/loader/import_table.c for msvcrt. The 32-bit build has its own for the data that
-- the CRT exports.
use my_wine.Prelude.{List, [], ◌∷◌}
use my_wine.Loader.ImportTable.Entry.{TableEntry, table_entry}

abbrev pub msvcrt_start : List TableEntry
msvcrt_start =
    table_entry "msvcrt.dll" "__C_specific_handler" "__C_specific_handler"
    ∷ table_entry "msvcrt.dll" "__getmainargs" "__getmainargs"
    ∷ table_entry "msvcrt.dll" "__mb_cur_max" "&__mb_cur_max"
    ∷ table_entry "msvcrt.dll" "__iob_func" "__iob_func"
    ∷ table_entry "msvcrt.dll" "__acrt_iob_func" "__acrt_iob_func"
    ∷ table_entry "msvcrt.dll" "__lconv_init" "__lconv_init"
    ∷ table_entry "msvcrt.dll" "__set_app_type" "__set_app_type"
    ∷ table_entry "msvcrt.dll" "__setusermatherr" "__setusermatherr"
    ∷ []

abbrev pub msvcrt_data_32 : List TableEntry
msvcrt_data_32 =
    table_entry "msvcrt.dll" "_acmdln" "&_acmdln"
    ∷ table_entry "msvcrt.dll" "_commode" "&_commode"
    ∷ table_entry "msvcrt.dll" "_fmode" "&_fmode"
    ∷ []

abbrev pub msvcrt_data_64 : List TableEntry
msvcrt_data_64 =
    table_entry "msvcrt.dll" "_acmdln" "&g_crt.acmdln"
    ∷ table_entry "msvcrt.dll" "_commode" "&g_crt.commode"
    ∷ table_entry "msvcrt.dll" "_fmode" "&g_crt.fmode"
    ∷ []

abbrev pub msvcrt_functions : List TableEntry
msvcrt_functions =
    table_entry "msvcrt.dll" "_amsg_exit" "_amsg_exit"
    ∷ table_entry "msvcrt.dll" "_cexit" "_cexit"
    ∷ table_entry "msvcrt.dll" "_initterm" "_initterm"
    ∷ table_entry "msvcrt.dll" "_onexit" "_onexit"
    ∷ table_entry "msvcrt.dll" "___lc_codepage_func" "___lc_codepage_func"
    ∷ table_entry "msvcrt.dll" "___mb_cur_max_func" "___mb_cur_max_func"
    ∷ table_entry "msvcrt.dll" "_errno" "_errno"
    ∷ table_entry "msvcrt.dll" "_lock" "_lock"
    ∷ table_entry "msvcrt.dll" "_unlock" "_unlock"
    ∷ table_entry "msvcrt.dll" "abort" "_m_abort"
    ∷ table_entry "msvcrt.dll" "atoi" "_m_atoi"
    ∷ table_entry "msvcrt.dll" "exit" "_m_exit"
    ∷ table_entry "msvcrt.dll" "malloc" "_m_malloc"
    ∷ table_entry "msvcrt.dll" "free" "_m_free"
    ∷ table_entry "msvcrt.dll" "calloc" "_m_calloc"
    ∷ table_entry "msvcrt.dll" "realloc" "_m_realloc"
    ∷ table_entry "msvcrt.dll" "memcpy" "_m_memcpy"
    ∷ table_entry "msvcrt.dll" "memcmp" "_m_memcmp"
    ∷ table_entry "msvcrt.dll" "memset" "_m_memset"
    ∷ table_entry "msvcrt.dll" "strlen" "_m_strlen"
    ∷ table_entry "msvcrt.dll" "strcmp" "_m_strcmp"
    ∷ table_entry "msvcrt.dll" "strncmp" "_m_strncmp"
    ∷ table_entry "msvcrt.dll" "wcslen" "_m_wcslen"
    ∷ table_entry "msvcrt.dll" "signal" "_m_signal"
    ∷ table_entry "msvcrt.dll" "setlocale" "_m_setlocale"
    ∷ table_entry "msvcrt.dll" "strchr" "_m_strchr"
    ∷ table_entry "msvcrt.dll" "fprintf" "_m_fprintf"
    ∷ table_entry "msvcrt.dll" "fwrite" "_m_fwrite"
    ∷ table_entry "msvcrt.dll" "vfprintf" "_m_vfprintf"
    ∷ table_entry "msvcrt.dll" "fputc" "_m_fputc"
    ∷ table_entry "msvcrt.dll" "localeconv" "_m_localeconv"
    ∷ table_entry "msvcrt.dll" "strerror" "_m_strerror"
    ∷ []

abbrev pub msvcrt_pointers_32 : List TableEntry
msvcrt_pointers_32 =
    table_entry "msvcrt.dll" "__initenv" "&__initenv"
    ∷ table_entry "msvcrt.dll" "__p__acmdln" "__p__acmdln_func"
    ∷ table_entry "msvcrt.dll" "__p__commode" "__p__commode_func"
    ∷ table_entry "msvcrt.dll" "__p__fmode" "__p__fmode_func"
    ∷ table_entry "msvcrt.dll" "_iob" "__iob_func"
    ∷ []

abbrev pub msvcrt_pointers_64 : List TableEntry
msvcrt_pointers_64 =
    table_entry "msvcrt.dll" "__initenv" "&g_crt.initenv"
    ∷ table_entry "msvcrt.dll" "__p__acmdln" "__p__acmdln_func"
    ∷ table_entry "msvcrt.dll" "__p__commode" "__p__commode_func"
    ∷ table_entry "msvcrt.dll" "__p__fmode" "__p__fmode_func"
    ∷ table_entry "msvcrt.dll" "_iob" "__iob_func"
    ∷ []
