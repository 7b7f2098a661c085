-- ===== src/Loader/ImportTable/Kernel32.antt =====
-- The entries of src/loader/import_table.c for ntdll and kernel32.
use my_wine.Prelude.{List, [], ◌∷◌}
use my_wine.Loader.ImportTable.Entry.{TableEntry, table_entry}

abbrev pub ntdll_imports : List TableEntry
ntdll_imports =
    table_entry "ntdll.dll" "NtWriteFile" "handler_NtWriteFile"
    ∷ table_entry "ntdll.dll" "NtReadFile" "handler_NtReadFile"
    ∷ table_entry "ntdll.dll" "NtClose" "handler_NtClose"
    ∷ table_entry "ntdll.dll" "NtTerminateProcess" "handler_NtTerminateProcess"
    ∷ table_entry "ntdll.dll" "NtCallbackReturn" "handler_NtCallbackReturn"
    ∷ table_entry "ntdll.dll" "NtQueryInformationProcess" "handler_NtQueryInformationProcess"
    ∷ table_entry "ntdll.dll" "NtAllocateVirtualMemory" "handler_NtAllocateVirtualMemory"
    ∷ table_entry "ntdll.dll" "NtFreeVirtualMemory" "handler_NtFreeVirtualMemory"
    ∷ table_entry "ntdll.dll" "NtCreateSection" "handler_NtCreateSection"
    ∷ table_entry "ntdll.dll" "NtMapViewOfSection" "handler_NtMapViewOfSection"
    ∷ table_entry "ntdll.dll" "NtUnmapViewOfSection" "handler_NtUnmapViewOfSection"
    ∷ table_entry "ntdll.dll" "NtCreateEvent" "handler_NtCreateEvent"
    ∷ table_entry "ntdll.dll" "NtCreateSemaphore" "handler_NtCreateSemaphore"
    ∷ table_entry "ntdll.dll" "NtCreateThreadEx" "handler_NtCreateThreadEx"
    ∷ table_entry "ntdll.dll" "NtOpenFile" "handler_NtOpenFile"
    ∷ table_entry "ntdll.dll" "NtGetContextThread" "handler_NtGetContextThread"
    ∷ table_entry "ntdll.dll" "NtSetContextThread" "handler_NtSetContextThread"
    ∷ []

abbrev pub kernel32_imports : List TableEntry
kernel32_imports =
    table_entry "kernel32.dll" "GetStdHandle" "GetStdHandle"
    ∷ table_entry "kernel32.dll" "CloseHandle" "CloseHandle"
    ∷ table_entry "kernel32.dll" "WriteFile" "WriteFile"
    ∷ table_entry "kernel32.dll" "ReadFile" "ReadFile"
    ∷ table_entry "kernel32.dll" "CreateFileA" "CreateFileA"
    ∷ table_entry "kernel32.dll" "DeleteFileA" "DeleteFileA"
    ∷ table_entry "kernel32.dll" "ExitProcess" "ExitProcess"
    ∷ table_entry "kernel32.dll" "GetProcAddress" "GetProcAddress"
    ∷ table_entry "kernel32.dll" "GetCurrentThreadId" "GetCurrentThreadId"
    ∷ table_entry "kernel32.dll" "GetSystemInfo" "GetSystemInfo"
    ∷ table_entry "kernel32.dll" "GetTickCount" "GetTickCount"
    ∷ table_entry "kernel32.dll" "GlobalAlloc" "GlobalAlloc"
    ∷ table_entry "kernel32.dll" "LoadLibraryA" "LoadLibraryA"
    ∷ table_entry "kernel32.dll" "LoadResource" "LoadResource"
    ∷ table_entry "kernel32.dll" "LocalAlloc" "LocalAlloc"
    ∷ table_entry "kernel32.dll" "LocalFree" "LocalFree"
    ∷ table_entry "kernel32.dll" "LockResource" "LockResource"
    ∷ table_entry "kernel32.dll" "SearchPathA" "SearchPathA"
    ∷ table_entry "kernel32.dll" "SizeofResource" "SizeofResource"
    ∷ table_entry "kernel32.dll" "GetModuleHandleA" "GetModuleHandleA"
    ∷ table_entry "kernel32.dll" "GetModuleHandleW" "GetModuleHandleW"
    ∷ table_entry "kernel32.dll" "GetCommandLineA" "GetCommandLineA"
    ∷ table_entry "kernel32.dll" "GetEnvironmentStrings" "GetEnvironmentStrings"
    ∷ table_entry "kernel32.dll" "GetEnvironmentStringsA" "GetEnvironmentStringsA"
    ∷ table_entry "kernel32.dll" "FindResourceA" "FindResourceA"
    ∷ table_entry "kernel32.dll" "DeviceIoControl" "DeviceIoControl"
    ∷ table_entry "kernel32.dll" "FreeLibrary" "FreeLibraryA"
    ∷ table_entry "kernel32.dll" "FreeLibraryA" "FreeLibraryA"
    ∷ table_entry "kernel32.dll" "GetProcessHeap" "GetProcessHeap"
    ∷ table_entry "kernel32.dll" "lstrlenA" "lstrlenA"
    ∷ table_entry "kernel32.dll" "lstrcpyA" "lstrcpyA"
    ∷ table_entry "kernel32.dll" "lstrcatA" "lstrcatA"
    ∷ table_entry "kernel32.dll" "DeleteCriticalSection" "DeleteCriticalSection"
    ∷ table_entry "kernel32.dll" "EnterCriticalSection" "EnterCriticalSection"
    ∷ table_entry "kernel32.dll" "GetLastError" "GetLastError"
    ∷ table_entry "kernel32.dll" "IsTNT" "IsTNT"
    ∷ table_entry "kernel32.dll" "GetStartupInfoA" "GetStartupInfoA"
    ∷ table_entry "kernel32.dll" "HeapAlloc" "HeapAlloc"
    ∷ table_entry "kernel32.dll" "HeapCreate" "HeapCreate"
    ∷ table_entry "kernel32.dll" "HeapDestroy" "HeapDestroy"
    ∷ table_entry "kernel32.dll" "HeapFree" "HeapFree"
    ∷ table_entry "kernel32.dll" "HeapReAlloc" "HeapReAlloc"
    ∷ table_entry "kernel32.dll" "HeapSize" "HeapSize"
    ∷ table_entry "kernel32.dll" "InitializeCriticalSection" "InitializeCriticalSection"
    ∷ table_entry "kernel32.dll" "LeaveCriticalSection" "LeaveCriticalSection"
    ∷ table_entry "kernel32.dll" "SetUnhandledExceptionFilter" "SetUnhandledExceptionFilter"
    ∷ table_entry "kernel32.dll" "Sleep" "Sleep"
    ∷ table_entry "kernel32.dll" "GetSystemTimeAsFileTime" "GetSystemTimeAsFileTime"
    ∷ table_entry "kernel32.dll" "QueryPerformanceCounter" "QueryPerformanceCounter"
    ∷ table_entry "kernel32.dll" "QueryPerformanceFrequency" "QueryPerformanceFrequency"
    ∷ table_entry "kernel32.dll" "CreateEventA" "CreateEventA"
    ∷ table_entry "kernel32.dll" "SetEvent" "SetEvent"
    ∷ table_entry "kernel32.dll" "ResetEvent" "ResetEvent"
    ∷ table_entry "kernel32.dll" "WaitForSingleObject" "WaitForSingleObject"
    ∷ table_entry "kernel32.dll" "CreateMutexA" "CreateMutexA"
    ∷ table_entry "kernel32.dll" "ReleaseMutex" "ReleaseMutex"
    ∷ table_entry "kernel32.dll" "CreateDirectoryA" "CreateDirectoryA"
    ∷ table_entry "kernel32.dll" "CreateThread" "CreateThread"
    ∷ table_entry "kernel32.dll" "DosDateTimeToFileTime" "DosDateTimeToFileTime"
    ∷ table_entry "kernel32.dll" "ExitThread" "ExitThread"
    ∷ table_entry "kernel32.dll" "FileTimeToDosDateTime" "FileTimeToDosDateTime"
    ∷ table_entry "kernel32.dll" "FileTimeToLocalFileTime" "FileTimeToLocalFileTime"
    ∷ table_entry "kernel32.dll" "FileTimeToSystemTime" "FileTimeToSystemTime"
    ∷ table_entry "kernel32.dll" "FindClose" "FindClose"
    ∷ table_entry "kernel32.dll" "FindNextFileA" "FindNextFileA"
    ∷ table_entry "kernel32.dll" "FlushFileBuffers" "FlushFileBuffers"
    ∷ table_entry "kernel32.dll" "GetACP" "GetACP"
    ∷ table_entry "kernel32.dll" "GetCPInfo" "GetCPInfo"
    ∷ table_entry "kernel32.dll" "GetConsoleMode" "GetConsoleMode"
    ∷ table_entry "kernel32.dll" "GetCurrentDirectoryA" "GetCurrentDirectoryA"
    ∷ table_entry "kernel32.dll" "GetCurrentProcessId" "GetCurrentProcessId"
    ∷ table_entry "kernel32.dll" "GetCurrentThread" "GetCurrentThread"
    ∷ table_entry "kernel32.dll" "DebugBreak" "DebugBreak"
    ∷ table_entry "kernel32.dll" "GetFileAttributesA" "GetFileAttributesA"
    ∷ table_entry "kernel32.dll" "GetFileSize" "GetFileSize"
    ∷ table_entry "kernel32.dll" "GetFileTime" "GetFileTime"
    ∷ table_entry "kernel32.dll" "GetFileType" "GetFileType"
    ∷ table_entry "kernel32.dll" "GetModuleFileNameA" "GetModuleFileNameA"
    ∷ table_entry "kernel32.dll" "GetTimeZoneInformation" "GetTimeZoneInformation"
    ∷ table_entry "kernel32.dll" "GetVersion" "GetVersion"
    ∷ table_entry "kernel32.dll" "GetEnvironmentStringsW" "GetEnvironmentStringsW"
    ∷ table_entry "kernel32.dll" "FreeEnvironmentStringsA" "FreeEnvironmentStringsA"
    ∷ table_entry "kernel32.dll" "FreeEnvironmentStringsW" "FreeEnvironmentStringsW"
    ∷ table_entry "kernel32.dll" "GetOEMCP" "GetOEMCP"
    ∷ table_entry "kernel32.dll" "LocalFileTimeToFileTime" "LocalFileTimeToFileTime"
    ∷ table_entry "kernel32.dll" "ReadConsoleInputA" "ReadConsoleInputA"
    ∷ table_entry "kernel32.dll" "RtlUnwind" "RtlUnwind"
    ∷ table_entry "kernel32.dll" "SetCurrentDirectoryA" "SetCurrentDirectoryA"
    ∷ table_entry "kernel32.dll" "SetConsoleMode" "SetConsoleMode"
    ∷ table_entry "kernel32.dll" "SetEnvironmentVariableA" "SetEnvironmentVariableA"
    ∷ table_entry "kernel32.dll" "SetErrorMode" "SetErrorMode"
    ∷ table_entry "kernel32.dll" "SetEndOfFile" "SetEndOfFile"
    ∷ table_entry "kernel32.dll" "SetFilePointer" "SetFilePointer"
    ∷ table_entry "kernel32.dll" "SetHandleCount" "SetHandleCount"
    ∷ table_entry "kernel32.dll" "SetLastError" "SetLastError"
    ∷ table_entry "kernel32.dll" "SetStdHandle" "SetStdHandle"
    ∷ table_entry "kernel32.dll" "CompareStringA" "CompareStringA"
    ∷ table_entry "kernel32.dll" "CompareStringW" "CompareStringW"
    ∷ table_entry "kernel32.dll" "FindFirstFileA" "FindFirstFileA"
    ∷ table_entry "kernel32.dll" "GetStringTypeA" "GetStringTypeA"
    ∷ table_entry "kernel32.dll" "GetStringTypeW" "GetStringTypeW"
    ∷ table_entry "kernel32.dll" "IsBadCodePtr" "IsBadCodePtr"
    ∷ table_entry "kernel32.dll" "IsBadReadPtr" "IsBadReadPtr"
    ∷ table_entry "kernel32.dll" "IsBadWritePtr" "IsBadWritePtr"
    ∷ table_entry "kernel32.dll" "LCMapStringA" "LCMapStringA"
    ∷ table_entry "kernel32.dll" "LCMapStringW" "LCMapStringW"
    ∷ table_entry "kernel32.dll" "TlsAlloc" "TlsAlloc"
    ∷ table_entry "kernel32.dll" "TlsFree" "TlsFree"
    ∷ table_entry "kernel32.dll" "TlsGetValue" "TlsGetValue"
    ∷ table_entry "kernel32.dll" "TlsSetValue" "TlsSetValue"
    ∷ table_entry "kernel32.dll" "WriteConsoleA" "WriteConsoleA"
    ∷ table_entry "kernel32.dll" "VirtualProtect" "VirtualProtect"
    ∷ table_entry "kernel32.dll" "VirtualQuery" "VirtualQuery"
    ∷ table_entry "kernel32.dll" "VirtualAlloc" "VirtualAlloc"
    ∷ table_entry "kernel32.dll" "VirtualFree" "VirtualFree"
    ∷ table_entry "kernel32.dll" "IsDBCSLeadByteEx" "IsDBCSLeadByteEx"
    ∷ table_entry "kernel32.dll" "MultiByteToWideChar" "MultiByteToWideChar"
    ∷ table_entry "kernel32.dll" "WideCharToMultiByte" "WideCharToMultiByte"
    ∷ []
