-- ===== src/Loader/ImportTable/Media.antt =====
-- The entries of src/loader/import_table.c for the other libraries.
use my_wine.Prelude.{List, [], ◌∷◌}
use my_wine.Loader.ImportTable.Entry.{TableEntry, table_entry}

abbrev pub direct_imports : List TableEntry
direct_imports =
    table_entry "ddraw.dll" "DirectDrawCreate" "DirectDrawCreate"
    ∷ table_entry "dsound.dll" "DirectSoundCreate" "DirectSoundCreate"
    ∷ []

abbrev pub common_imports : List TableEntry
common_imports =
    table_entry "comctl32.dll" "InitCommonControls" "InitCommonControls"
    ∷ table_entry "comctl32.dll" "PropertySheetA" "PropertySheetA"
    ∷ table_entry "comdlg32.dll" "CommDlgExtendedError" "CommDlgExtendedError"
    ∷ table_entry "comdlg32.dll" "GetOpenFileNameA" "GetOpenFileNameA"
    ∷ table_entry "comdlg32.dll" "GetSaveFileNameA" "GetSaveFileNameA"
    ∷ []

abbrev pub gdi32_imports : List TableEntry
gdi32_imports =
    table_entry "gdi32.dll" "CreateDCA" "CreateDCA"
    ∷ table_entry "gdi32.dll" "CreateDIBitmap" "CreateDIBitmap"
    ∷ table_entry "gdi32.dll" "CreateFontA" "CreateFontA"
    ∷ table_entry "gdi32.dll" "CreatePalette" "CreatePalette"
    ∷ table_entry "gdi32.dll" "DeleteDC" "DeleteDC"
    ∷ table_entry "gdi32.dll" "DeleteObject" "DeleteObject"
    ∷ table_entry "gdi32.dll" "GetDeviceCaps" "GetDeviceCaps"
    ∷ table_entry "gdi32.dll" "GetObjectA" "GetObjectA"
    ∷ table_entry "gdi32.dll" "GetStockObject" "GetStockObject"
    ∷ table_entry "gdi32.dll" "GetSystemPaletteEntries" "GetSystemPaletteEntries"
    ∷ table_entry "gdi32.dll" "RealizePalette" "RealizePalette"
    ∷ table_entry "gdi32.dll" "SelectPalette" "SelectPalette"
    ∷ table_entry "gdi32.dll" "SetBkColor" "SetBkColor"
    ∷ table_entry "gdi32.dll" "SetTextColor" "SetTextColor"
    ∷ table_entry "gdi32.dll" "StretchDIBits" "StretchDIBits"
    ∷ table_entry "gdi32.dll" "UnrealizeObject" "UnrealizeObject"
    ∷ table_entry "gdi32.DLL" "CreateDCA" "CreateDCA"
    ∷ table_entry "gdi32.DLL" "CreateDIBitmap" "CreateDIBitmap"
    ∷ table_entry "gdi32.DLL" "CreateFontA" "CreateFontA"
    ∷ table_entry "gdi32.DLL" "CreatePalette" "CreatePalette"
    ∷ table_entry "gdi32.DLL" "DeleteDC" "DeleteDC"
    ∷ table_entry "gdi32.DLL" "DeleteObject" "DeleteObject"
    ∷ table_entry "gdi32.DLL" "GetDeviceCaps" "GetDeviceCaps"
    ∷ table_entry "gdi32.DLL" "GetObjectA" "GetObjectA"
    ∷ table_entry "gdi32.DLL" "GetStockObject" "GetStockObject"
    ∷ table_entry "gdi32.DLL" "GetSystemPaletteEntries" "GetSystemPaletteEntries"
    ∷ table_entry "gdi32.DLL" "RealizePalette" "RealizePalette"
    ∷ table_entry "gdi32.DLL" "SelectPalette" "SelectPalette"
    ∷ table_entry "gdi32.DLL" "SetBkColor" "SetBkColor"
    ∷ table_entry "gdi32.DLL" "SetTextColor" "SetTextColor"
    ∷ table_entry "gdi32.DLL" "StretchDIBits" "StretchDIBits"
    ∷ table_entry "gdi32.DLL" "UnrealizeObject" "UnrealizeObject"
    ∷ []

abbrev pub winmm_imports : List TableEntry
winmm_imports =
    table_entry "winmm.dll" "joyGetDevCapsA" "joyGetDevCapsA"
    ∷ table_entry "winmm.dll" "joyGetNumDevs" "joyGetNumDevs"
    ∷ table_entry "winmm.dll" "joyGetPosEx" "joyGetPosEx"
    ∷ table_entry "winmm.dll" "midiOutGetNumDevs" "midiOutGetNumDevs"
    ∷ table_entry "winmm.dll" "midiOutPrepareHeader" "midiOutPrepareHeader"
    ∷ table_entry "winmm.dll" "midiOutReset" "midiOutReset"
    ∷ table_entry "winmm.dll" "midiOutSetVolume" "midiOutSetVolume"
    ∷ table_entry "winmm.dll" "midiOutUnprepareHeader" "midiOutUnprepareHeader"
    ∷ table_entry "winmm.dll" "midiStreamClose" "midiStreamClose"
    ∷ table_entry "winmm.dll" "midiStreamOpen" "midiStreamOpen"
    ∷ table_entry "winmm.dll" "midiStreamOut" "midiStreamOut"
    ∷ table_entry "winmm.dll" "midiStreamPause" "midiStreamPause"
    ∷ table_entry "winmm.dll" "midiStreamProperty" "midiStreamProperty"
    ∷ table_entry "winmm.dll" "midiStreamRestart" "midiStreamRestart"
    ∷ table_entry "winmm.dll" "timeGetTime" "timeGetTime"
    ∷ table_entry "winmm.DLL" "joyGetDevCapsA" "joyGetDevCapsA"
    ∷ table_entry "winmm.DLL" "joyGetNumDevs" "joyGetNumDevs"
    ∷ table_entry "winmm.DLL" "joyGetPosEx" "joyGetPosEx"
    ∷ table_entry "winmm.DLL" "midiOutGetNumDevs" "midiOutGetNumDevs"
    ∷ table_entry "winmm.DLL" "midiOutPrepareHeader" "midiOutPrepareHeader"
    ∷ table_entry "winmm.DLL" "midiOutReset" "midiOutReset"
    ∷ table_entry "winmm.DLL" "midiOutSetVolume" "midiOutSetVolume"
    ∷ table_entry "winmm.DLL" "midiOutUnprepareHeader" "midiOutUnprepareHeader"
    ∷ table_entry "winmm.DLL" "midiStreamClose" "midiStreamClose"
    ∷ table_entry "winmm.DLL" "midiStreamOpen" "midiStreamOpen"
    ∷ table_entry "winmm.DLL" "midiStreamOut" "midiStreamOut"
    ∷ table_entry "winmm.DLL" "midiStreamPause" "midiStreamPause"
    ∷ table_entry "winmm.DLL" "midiStreamProperty" "midiStreamProperty"
    ∷ table_entry "winmm.DLL" "midiStreamRestart" "midiStreamRestart"
    ∷ table_entry "winmm.DLL" "timeGetTime" "timeGetTime"
    ∷ []

abbrev pub advapi32_imports : List TableEntry
advapi32_imports =
    table_entry "advapi32.dll" "RegCloseKey" "RegCloseKey"
    ∷ table_entry "advapi32.dll" "GetUserNameA" "GetUserNameA"
    ∷ table_entry "advapi32.dll" "RegCreateKeyA" "RegCreateKeyA"
    ∷ table_entry "advapi32.dll" "RegDeleteKeyA" "RegDeleteKeyA"
    ∷ table_entry "advapi32.dll" "RegEnumKeyExA" "RegEnumKeyExA"
    ∷ table_entry "advapi32.dll" "RegOpenKeyA" "RegOpenKeyA"
    ∷ table_entry "advapi32.dll" "RegQueryValueExA" "RegQueryValueExA"
    ∷ table_entry "advapi32.dll" "RegSetValueExA" "RegSetValueExA"
    ∷ table_entry "advapi32.DLL" "RegCloseKey" "RegCloseKey"
    ∷ table_entry "advapi32.DLL" "GetUserNameA" "GetUserNameA"
    ∷ table_entry "advapi32.DLL" "RegCreateKeyA" "RegCreateKeyA"
    ∷ table_entry "advapi32.DLL" "RegDeleteKeyA" "RegDeleteKeyA"
    ∷ table_entry "advapi32.DLL" "RegEnumKeyExA" "RegEnumKeyExA"
    ∷ table_entry "advapi32.DLL" "RegOpenKeyA" "RegOpenKeyA"
    ∷ table_entry "advapi32.DLL" "RegQueryValueExA" "RegQueryValueExA"
    ∷ table_entry "advapi32.DLL" "RegSetValueExA" "RegSetValueExA"
    ∷ []

abbrev pub play_imports : List TableEntry
play_imports =
    table_entry "dplay.dll" "DPCreate" "DPCreate"
    ∷ table_entry "dplay.dll" "DirectPlayEnumerateA" "DirectPlayEnumerateA"
    ∷ table_entry "dplay.DLL" "DPCreate" "DPCreate"
    ∷ table_entry "dplay.DLL" "DirectPlayEnumerateA" "DirectPlayEnumerateA"
    ∷ table_entry "ddraw.DLL" "DirectDrawCreate" "DirectDrawCreate"
    ∷ table_entry "dsound.DLL" "DirectSoundCreate" "DirectSoundCreate"
    ∷ []
