-- ===== src/Loader/Ordinals.antt =====
-- src/loader/ordinal_table.c: the names behind ordinal imports.
pub mod Complete
use my_wine.Prelude.{
  ℕ, Bool, true, false, ◌&&◌, List, [], ◌∷◌, ◌++◌, Option, none, some, ◌==◌, if◌then◌else◌,
}
use my_wine.Strings.{String, codes, same_nocase}

-- `ordinal_entry_t`
pub record OrdinalEntry : Type 0 where
  pub dll_name : List ℕ
  pub ordinal : ℕ
  pub func_name : List ℕ

abbrev ordinal_entry : String → ℕ → String → OrdinalEntry
ordinal_entry dll ordinal func = record {
  dll_name = codes dll;
  ordinal = ordinal;
  func_name = codes func;
}

abbrev pub ntdll_ordinals : List OrdinalEntry
ntdll_ordinals =
    ordinal_entry "ntdll.dll" 1 "NtAccessCheck"
    ∷ ordinal_entry "ntdll.dll" 5 "NtCallbackReturn"
    ∷ ordinal_entry "ntdll.dll" 7 "NtQueryInformationProcess"
    ∷ ordinal_entry "ntdll.dll" 9 "NtCreateDebugObject"
    ∷ ordinal_entry "ntdll.dll" 11 "NtSuspendThread"
    ∷ ordinal_entry "ntdll.dll" 12 "NtResumeThread"
    ∷ ordinal_entry "ntdll.dll" 14 "NtQuerySystemTime"
    ∷ ordinal_entry "ntdll.dll" 17 "NtEnumerateValueKey"
    ∷ ordinal_entry "ntdll.dll" 18 "NtEnumerateSystemEnvironmentValuesEx"
    ∷ ordinal_entry "ntdll.dll" 19 "NtClose"
    ∷ ordinal_entry "ntdll.dll" 20 "NtQueryDefaultLocale"
    ∷ ordinal_entry "ntdll.dll" 21 "NtQueryValueKey"
    ∷ ordinal_entry "ntdll.dll" 24 "NtQueryInformationThread"
    ∷ ordinal_entry "ntdll.dll" 26 "NtDelayExecution"
    ∷ ordinal_entry "ntdll.dll" 29 "NtTerminateThread"
    ∷ ordinal_entry "ntdll.dll" 31 "NtRaiseException"
    ∷ ordinal_entry "ntdll.dll" 37 "NtSetInformationFile"
    ∷ ordinal_entry "ntdll.dll" 40 "NtQueryInformationFile"
    ∷ ordinal_entry "ntdll.dll" 41 "NtFlushBuffersFile"
    ∷ ordinal_entry "ntdll.dll" 45 "NtPulseEvent"
    ∷ ordinal_entry "ntdll.dll" 46 "NtSetTimer"
    ∷ ordinal_entry "ntdll.dll" 48 "NtMapViewOfSection"
    ∷ ordinal_entry "ntdll.dll" 49 "NtUnmapViewOfSection"
    ∷ ordinal_entry "ntdll.dll" 52 "NtAllocateVirtualMemory"
    ∷ ordinal_entry "ntdll.dll" 56 "NtWriteVirtualMemory"
    ∷ ordinal_entry "ntdll.dll" 57 "NtWriteFile"
    ∷ ordinal_entry "ntdll.dll" 58 "NtDuplicateObject"
    ∷ ordinal_entry "ntdll.dll" 59 "NtQueryAttributesFile"
    ∷ ordinal_entry "ntdll.dll" 60 "NtClearEvent"
    ∷ ordinal_entry "ntdll.dll" 61 "NtReadVirtualMemory"
    ∷ ordinal_entry "ntdll.dll" 63 "NtReleaseSemaphore"
    ∷ ordinal_entry "ntdll.dll" 65 "NtOpenProcess"
    ∷ ordinal_entry "ntdll.dll" 66 "NtOpenThread"
    ∷ ordinal_entry "ntdll.dll" 68 "NtCreateMutex"
    ∷ ordinal_entry "ntdll.dll" 71 "NtCreateSection"
    ∷ ordinal_entry "ntdll.dll" 73 "NtFlushBuffersFile"
    ∷ ordinal_entry "ntdll.dll" 75 "NtCreateProcess"
    ∷ ordinal_entry "ntdll.dll" 76 "NtCreateSemaphore"
    ∷ ordinal_entry "ntdll.dll" 77 "NtCreateTimer"
    ∷ ordinal_entry "ntdll.dll" 78 "NtProtectVirtualMemory"
    ∷ ordinal_entry "ntdll.dll" 82 "NtLockVirtualMemory"
    ∷ ordinal_entry "ntdll.dll" 84 "NtQueryEvent"
    ∷ ordinal_entry "ntdll.dll" 85 "NtQueryPerformanceCounter"
    ∷ ordinal_entry "ntdll.dll" 86 "NtQueryPerformanceFrequency"
    ∷ ordinal_entry "ntdll.dll" 87 "NtQueryVolumeInformationFile"
    ∷ ordinal_entry "ntdll.dll" 88 "NtWaitForMultipleObjects"
    ∷ ordinal_entry "ntdll.dll" 89 "NtCreateFile"
    ∷ ordinal_entry "ntdll.dll" 90 "NtQueryFullAttributesFile"
    ∷ ordinal_entry "ntdll.dll" 91 "NtCancelIoFile"
    ∷ ordinal_entry "ntdll.dll" 92 "NtSetEvent"
    ∷ ordinal_entry "ntdll.dll" 94 "NtResetEvent"
    ∷ ordinal_entry "ntdll.dll" 95 "NtCancelTimer"
    ∷ ordinal_entry "ntdll.dll" 97 "NtSignalAndWaitForSingleObject"
    ∷ ordinal_entry "ntdll.dll" 99 "NtOpenKey"
    ∷ ordinal_entry "ntdll.dll" 100 "NtQueryDirectoryFile"
    ∷ ordinal_entry "ntdll.dll" 101 "NtUnlockVirtualMemory"
    ∷ ordinal_entry "ntdll.dll" 102 "NtQueryVirtualMemory"
    ∷ ordinal_entry "ntdll.dll" 105 "NtSetSystemTime"
    ∷ ordinal_entry "ntdll.dll" 107 "NtSetValueKey"
    ∷ ordinal_entry "ntdll.dll" 108 "NtCreateKey"
    ∷ ordinal_entry "ntdll.dll" 109 "NtDeleteKey"
    ∷ ordinal_entry "ntdll.dll" 111 "NtDeleteValueKey"
    ∷ ordinal_entry "ntdll.dll" 113 "NtCreateKeyedEvent"
    ∷ ordinal_entry "ntdll.dll" 115 "NtCreateNamedPipeFile"
    ∷ ordinal_entry "ntdll.dll" 116 "NtCreatePagingFile"
    ∷ ordinal_entry "ntdll.dll" 119 "NtCreateThread"
    ∷ ordinal_entry "ntdll.dll" 122 "NtNotifyChangeDirectoryFile"
    ∷ ordinal_entry "ntdll.dll" 123 "NtNotifyChangeKey"
    ∷ ordinal_entry "ntdll.dll" 124 "NtOpenFile"
    ∷ ordinal_entry "ntdll.dll" 127 "NtCreateEvent"
    ∷ ordinal_entry "ntdll.dll" 128 "NtCreateThreadEx"
    ∷ ordinal_entry "ntdll.dll" 129 "NtWaitForSingleObject"
    ∷ ordinal_entry "ntdll.dll" 130 "NtQueryInformationFile"
    ∷ ordinal_entry "ntdll.dll" 132 "NtQueryOpenSubKeys"
    ∷ ordinal_entry "ntdll.dll" 133 "NtQueryOpenSubKeysEx"
    ∷ ordinal_entry "ntdll.dll" 134 "NtReleaseMutant"
    ∷ []

abbrev pub kernel32_ordinals : List OrdinalEntry
kernel32_ordinals =
    ordinal_entry "kernel32.dll" 2 "GetVersion"
    ∷ ordinal_entry "kernel32.dll" 6 "GetStdHandle"
    ∷ ordinal_entry "kernel32.dll" 7 "InterlockedExchange"
    ∷ ordinal_entry "kernel32.dll" 10 "GetTickCount"
    ∷ ordinal_entry "kernel32.dll" 15 "GetCommandLineA"
    ∷ ordinal_entry "kernel32.dll" 17 "WriteFile"
    ∷ ordinal_entry "kernel32.dll" 18 "GetFileType"
    ∷ ordinal_entry "kernel32.dll" 19 "ReadFile"
    ∷ ordinal_entry "kernel32.dll" 21 "SetLastError"
    ∷ ordinal_entry "kernel32.dll" 30 "GetCommandLineW"
    ∷ ordinal_entry "kernel32.dll" 32 "GetStartupInfoA"
    ∷ ordinal_entry "kernel32.dll" 33 "GetStartupInfoW"
    ∷ ordinal_entry "kernel32.dll" 34 "GetModuleHandleA"
    ∷ ordinal_entry "kernel32.dll" 35 "GetModuleHandleW"
    ∷ ordinal_entry "kernel32.dll" 37 "ExitProcess"
    ∷ ordinal_entry "kernel32.dll" 38 "GetVersionExA"
    ∷ ordinal_entry "kernel32.dll" 39 "SetUnhandledExceptionFilter"
    ∷ ordinal_entry "kernel32.dll" 42 "CreateFileA"
    ∷ ordinal_entry "kernel32.dll" 43 "CloseHandle"
    ∷ ordinal_entry "kernel32.dll" 44 "GetModuleFileNameA"
    ∷ ordinal_entry "kernel32.dll" 48 "GetModuleFileNameW"
    ∷ ordinal_entry "kernel32.dll" 50 "GetFileAttributesA"
    ∷ ordinal_entry "kernel32.dll" 51 "GetFileAttributesW"
    ∷ ordinal_entry "kernel32.dll" 60 "GetFileAttributesExA"
    ∷ ordinal_entry "kernel32.dll" 64 "GetTickCount64"
    ∷ ordinal_entry "kernel32.dll" 78 "GetEnvironmentStrings"
    ∷ ordinal_entry "kernel32.dll" 100 "FreeLibrary"
    ∷ ordinal_entry "kernel32.dll" 113 "GetProcAddress"
    ∷ ordinal_entry "kernel32.dll" 125 "LoadLibraryA"
    ∷ ordinal_entry "kernel32.dll" 126 "LoadLibraryW"
    ∷ ordinal_entry "kernel32.dll" 134 "LoadLibraryExA"
    ∷ ordinal_entry "kernel32.dll" 135 "LoadLibraryExW"
    ∷ ordinal_entry "kernel32.dll" 147 "TlsAlloc"
    ∷ ordinal_entry "kernel32.dll" 148 "TlsGetValue"
    ∷ ordinal_entry "kernel32.dll" 149 "TlsSetValue"
    ∷ ordinal_entry "kernel32.dll" 150 "TlsFree"
    ∷ ordinal_entry "kernel32.dll" 169 "EnterCriticalSection"
    ∷ ordinal_entry "kernel32.dll" 170 "InitializeCriticalSection"
    ∷ ordinal_entry "kernel32.dll" 171 "LeaveCriticalSection"
    ∷ ordinal_entry "kernel32.dll" 172 "DeleteCriticalSection"
    ∷ ordinal_entry "kernel32.dll" 190 "GetLastError"
    ∷ ordinal_entry "kernel32.dll" 191 "GetSystemTime"
    ∷ ordinal_entry "kernel32.dll" 192 "GetSystemTimeAsFileTime"
    ∷ ordinal_entry "kernel32.dll" 193 "Sleep"
    ∷ ordinal_entry "kernel32.dll" 194 "QueryPerformanceCounter"
    ∷ ordinal_entry "kernel32.dll" 195 "QueryPerformanceFrequency"
    ∷ ordinal_entry "kernel32.dll" 200 "CreateMutexA"
    ∷ ordinal_entry "kernel32.dll" 201 "CreateMutexW"
    ∷ ordinal_entry "kernel32.dll" 202 "ReleaseMutex"
    ∷ ordinal_entry "kernel32.dll" 231 "CreateFileW"
    ∷ ordinal_entry "kernel32.dll" 237 "CreateFileMappingA"
    ∷ ordinal_entry "kernel32.dll" 263 "CreateEventA"
    ∷ ordinal_entry "kernel32.dll" 264 "CreateEventW"
    ∷ ordinal_entry "kernel32.dll" 265 "SetEvent"
    ∷ ordinal_entry "kernel32.dll" 266 "ResetEvent"
    ∷ ordinal_entry "kernel32.dll" 268 "WaitForSingleObject"
    ∷ ordinal_entry "kernel32.dll" 270 "WaitForMultipleObjects"
    ∷ ordinal_entry "kernel32.dll" 289 "VirtualProtect"
    ∷ ordinal_entry "kernel32.dll" 290 "VirtualAlloc"
    ∷ ordinal_entry "kernel32.dll" 291 "VirtualFree"
    ∷ ordinal_entry "kernel32.dll" 292 "VirtualQuery"
    ∷ ordinal_entry "kernel32.dll" 293 "VirtualQueryEx"
    ∷ ordinal_entry "kernel32.dll" 296 "HeapAlloc"
    ∷ ordinal_entry "kernel32.dll" 297 "HeapCreate"
    ∷ ordinal_entry "kernel32.dll" 298 "HeapFree"
    ∷ ordinal_entry "kernel32.dll" 299 "HeapReAlloc"
    ∷ ordinal_entry "kernel32.dll" 300 "HeapSize"
    ∷ ordinal_entry "kernel32.dll" 301 "HeapWalk"
    ∷ ordinal_entry "kernel32.dll" 302 "GetProcessHeap"
    ∷ ordinal_entry "kernel32.dll" 303 "HeapDestroy"
    ∷ ordinal_entry "kernel32.dll" 304 "GetProcessHeaps"
    ∷ []

abbrev pub comctl32_ordinals : List OrdinalEntry
comctl32_ordinals = ordinal_entry "comctl32.dll" 17 "InitCommonControls" ∷ []

abbrev pub dplay_ordinals : List OrdinalEntry
dplay_ordinals =
    ordinal_entry "dplay.dll" 1 "DPCreate" ∷ ordinal_entry "dplay.dll" 2 "DirectPlayEnumerateA" ∷ []

abbrev pub msvcrt_ordinals : List OrdinalEntry
msvcrt_ordinals =
    ordinal_entry "msvcrt.dll" 1 "abort"
    ∷ ordinal_entry "msvcrt.dll" 5 "_amsg_exit"
    ∷ ordinal_entry "msvcrt.dll" 14 "_commode"
    ∷ ordinal_entry "msvcrt.dll" 15 "_fmode"
    ∷ ordinal_entry "msvcrt.dll" 20 "calloc"
    ∷ ordinal_entry "msvcrt.dll" 26 "exit"
    ∷ ordinal_entry "msvcrt.dll" 34 "fprintf"
    ∷ ordinal_entry "msvcrt.dll" 35 "free"
    ∷ ordinal_entry "msvcrt.dll" 36 "fwrite"
    ∷ ordinal_entry "msvcrt.dll" 42 "malloc"
    ∷ ordinal_entry "msvcrt.dll" 43 "memcpy"
    ∷ ordinal_entry "msvcrt.dll" 57 "signal"
    ∷ ordinal_entry "msvcrt.dll" 58 "sleep"
    ∷ ordinal_entry "msvcrt.dll" 65 "strlen"
    ∷ ordinal_entry "msvcrt.dll" 66 "strncmp"
    ∷ ordinal_entry "msvcrt.dll" 67 "strcmp"
    ∷ ordinal_entry "msvcrt.dll" 68 "strcpy"
    ∷ ordinal_entry "msvcrt.dll" 69 "strncpy"
    ∷ ordinal_entry "msvcrt.dll" 77 "vfprintf"
    ∷ ordinal_entry "msvcrt.dll" 78 "sprintf"
    ∷ ordinal_entry "msvcrt.dll" 84 "vsprintf"
    ∷ []

-- `ordinal_table`
abbrev pub ordinal_table : List OrdinalEntry
ordinal_table =
    ntdll_ordinals ++ kernel32_ordinals ++ comctl32_ordinals ++ dplay_ordinals ++ msvcrt_ordinals

-- The loop of ordinal_lookup.
unfoldable pub ordinal_find : List OrdinalEntry → List ℕ → ℕ → Option (List ℕ)
ordinal_find [] dll ordinal = none
ordinal_find (e ∷ entries) dll ordinal =
    let rest = ordinal_find entries dll ordinal in
    if same_nocase e.dll_name dll && (e.ordinal == ordinal) then some e.func_name else rest

-- ordinal_lookup
unfoldable pub ordinal_lookup : List ℕ → ℕ → Option (List ℕ)
unfolding ordinal_find
ordinal_lookup dll ordinal = ordinal_find ordinal_table dll ordinal
