-- ===== src/Loader/ImportTable/User32.antt =====
-- The entries of src/loader/import_table.c for user32, in both spellings of the name.
use my_wine.Prelude.{List, [], ◌∷◌}
use my_wine.Loader.ImportTable.Entry.{TableEntry, table_entry}

abbrev pub user32_imports : List TableEntry
user32_imports =
    table_entry "user32.dll" "AppendMenuA" "AppendMenuA"
    ∷ table_entry "user32.dll" "DialogBoxParamA" "DialogBoxParamA"
    ∷ table_entry "user32.dll" "EndDialog" "EndDialog"
    ∷ table_entry "user32.dll" "FindWindowA" "FindWindowA"
    ∷ table_entry "user32.dll" "GetDialogBaseUnits" "GetDialogBaseUnits"
    ∷ table_entry "user32.dll" "GetDlgCtrlID" "GetDlgCtrlID"
    ∷ table_entry "user32.dll" "GetDlgItemInt" "GetDlgItemInt"
    ∷ table_entry "user32.dll" "GetDlgItemTextA" "GetDlgItemTextA"
    ∷ table_entry "user32.dll" "GetParent" "GetParent"
    ∷ table_entry "user32.dll" "GetSystemMenu" "GetSystemMenu"
    ∷ table_entry "user32.dll" "GetWindowPlacement" "GetWindowPlacement"
    ∷ table_entry "user32.dll" "GetWindowTextA" "GetWindowTextA"
    ∷ table_entry "user32.dll" "IsIconic" "IsIconic"
    ∷ table_entry "user32.dll" "IsWindowEnabled" "EnableWindow"
    ∷ table_entry "user32.dll" "IsWindowVisible" "IsWindowVisible"
    ∷ table_entry "user32.dll" "RegisterClassA" "RegisterClassA"
    ∷ table_entry "user32.dll" "CreateWindowExA" "CreateWindowExA"
    ∷ table_entry "user32.dll" "DestroyWindow" "DestroyWindow"
    ∷ table_entry "user32.dll" "ShowWindow" "ShowWindow"
    ∷ table_entry "user32.dll" "SetWindowPos" "SetWindowPos"
    ∷ table_entry "user32.dll" "MoveWindow" "MoveWindow"
    ∷ table_entry "user32.dll" "SetWindowTextA" "SetWindowTextA"
    ∷ table_entry "user32.dll" "GetWindowRect" "GetWindowRect"
    ∷ table_entry "user32.dll" "GetClientRect" "GetClientRect"
    ∷ table_entry "user32.dll" "GetWindowLongA" "GetWindowLongA"
    ∷ table_entry "user32.dll" "SetWindowLongA" "SetWindowLongA"
    ∷ table_entry "user32.dll" "GetWindowLongPtrA" "GetWindowLongPtrA"
    ∷ table_entry "user32.dll" "SetWindowLongPtrA" "SetWindowLongPtrA"
    ∷ table_entry "user32.dll" "IsWindow" "IsWindow"
    ∷ table_entry "user32.dll" "EnableWindow" "EnableWindow"
    ∷ table_entry "user32.dll" "GetDesktopWindow" "GetDesktopWindow"
    ∷ table_entry "user32.dll" "GetActiveWindow" "GetActiveWindow"
    ∷ table_entry "user32.dll" "GetLastActivePopup" "GetLastActivePopup"
    ∷ table_entry "user32.dll" "GetFocus" "GetFocus"
    ∷ table_entry "user32.dll" "SetFocus" "SetFocus"
    ∷ table_entry "user32.dll" "UpdateWindow" "UpdateWindow"
    ∷ table_entry "user32.dll" "InvalidateRect" "InvalidateRect"
    ∷ table_entry "user32.dll" "ValidateRect" "ValidateRect"
    ∷ table_entry "user32.dll" "BeginPaint" "BeginPaint"
    ∷ table_entry "user32.dll" "EndPaint" "EndPaint"
    ∷ table_entry "user32.dll" "MapWindowPoints" "MapWindowPoints"
    ∷ table_entry "user32.dll" "GetSystemMetrics" "GetSystemMetrics"
    ∷ table_entry "user32.dll" "AdjustWindowRect" "AdjustWindowRect"
    ∷ table_entry "user32.dll" "AdjustWindowRectEx" "AdjustWindowRectEx"
    ∷ table_entry "user32.dll" "GetDC" "GetDC"
    ∷ table_entry "user32.dll" "ReleaseDC" "ReleaseDC"
    ∷ table_entry "user32.dll" "GetMessageA" "GetMessageA"
    ∷ table_entry "user32.dll" "PeekMessageA" "PeekMessageA"
    ∷ table_entry "user32.dll" "DispatchMessageA" "DispatchMessageA"
    ∷ table_entry "user32.dll" "TranslateMessage" "TranslateMessage"
    ∷ table_entry "user32.dll" "PostMessageA" "PostMessageA"
    ∷ table_entry "user32.dll" "PostThreadMessageA" "PostThreadMessageA"
    ∷ table_entry "user32.dll" "PostQuitMessage" "PostQuitMessage"
    ∷ table_entry "user32.dll" "SendMessageA" "SendMessageA"
    ∷ table_entry "user32.dll" "DefWindowProcA" "DefWindowProcA"
    ∷ table_entry "user32.dll" "CallWindowProcA" "CallWindowProcA"
    ∷ table_entry "user32.dll" "CheckDlgButton" "CheckDlgButton"
    ∷ table_entry "user32.dll" "SetWindowsHookExA" "SetWindowsHookExA"
    ∷ table_entry "user32.dll" "UnhookWindowsHookEx" "UnhookWindowsHookEx"
    ∷ table_entry "user32.dll" "CallNextHookEx" "CallNextHookEx"
    ∷ table_entry "user32.dll" "CopyRect" "CopyRect"
    ∷ table_entry "user32.dll" "CreateDialogIndirectParamA" "CreateDialogIndirectParamA"
    ∷ table_entry "user32.dll" "CreateDialogParamA" "CreateDialogParamA"
    ∷ table_entry "user32.dll" "GetDlgItem" "GetDlgItem"
    ∷ table_entry "user32.dll" "IsDialogMessageA" "IsDialogMessageA"
    ∷ table_entry "user32.dll" "IsDlgButtonChecked" "IsDlgButtonChecked"
    ∷ table_entry "user32.dll" "LoadStringA" "LoadStringA"
    ∷ table_entry "user32.dll" "MapVirtualKeyA" "MapVirtualKeyA"
    ∷ table_entry "user32.dll" "MessageBoxA" "MessageBoxA"
    ∷ table_entry "user32.dll" "SendDlgItemMessageA" "SendDlgItemMessageA"
    ∷ table_entry "user32.dll" "SetDlgItemInt" "SetDlgItemInt"
    ∷ table_entry "user32.dll" "SetForegroundWindow" "SetForegroundWindow"
    ∷ table_entry "user32.dll" "SetDlgItemTextA" "SetDlgItemTextA"
    ∷ table_entry "user32.dll" "SetWindowPlacement" "SetWindowPlacement"
    ∷ table_entry "user32.dll" "SystemParametersInfoA" "SystemParametersInfoA"
    ∷ table_entry "user32.dll" "WinHelpA" "WinHelpA"
    ∷ table_entry "user32.dll" "GetAsyncKeyState" "GetAsyncKeyState"
    ∷ table_entry "user32.dll" "LoadCursorA" "LoadCursorA"
    ∷ table_entry "user32.dll" "SetCursor" "SetCursor"
    ∷ table_entry "user32.dll" "SetCursorPos" "SetCursorPos"
    ∷ table_entry "user32.dll" "ClipCursor" "ClipCursor"
    ∷ table_entry "user32.dll" "LoadIconA" "LoadIconA"
    ∷ table_entry "user32.dll" "wsprintfA" "wsprintfA"
    ∷ table_entry "user32.dll" "SetRect" "SetRect"
    ∷ []

abbrev pub user32_upper_imports : List TableEntry
user32_upper_imports =
    table_entry "user32.DLL" "AppendMenuA" "AppendMenuA"
    ∷ table_entry "user32.DLL" "DialogBoxParamA" "DialogBoxParamA"
    ∷ table_entry "user32.DLL" "EndDialog" "EndDialog"
    ∷ table_entry "user32.DLL" "FindWindowA" "FindWindowA"
    ∷ table_entry "user32.DLL" "GetDialogBaseUnits" "GetDialogBaseUnits"
    ∷ table_entry "user32.DLL" "GetDlgCtrlID" "GetDlgCtrlID"
    ∷ table_entry "user32.DLL" "GetDlgItemInt" "GetDlgItemInt"
    ∷ table_entry "user32.DLL" "GetDlgItemTextA" "GetDlgItemTextA"
    ∷ table_entry "user32.DLL" "GetParent" "GetParent"
    ∷ table_entry "user32.DLL" "GetSystemMenu" "GetSystemMenu"
    ∷ table_entry "user32.DLL" "GetWindowPlacement" "GetWindowPlacement"
    ∷ table_entry "user32.DLL" "GetWindowTextA" "GetWindowTextA"
    ∷ table_entry "user32.DLL" "IsIconic" "IsIconic"
    ∷ table_entry "user32.DLL" "IsWindowEnabled" "EnableWindow"
    ∷ table_entry "user32.DLL" "IsWindowVisible" "IsWindowVisible"
    ∷ table_entry "user32.DLL" "RegisterClassA" "RegisterClassA"
    ∷ table_entry "user32.DLL" "CreateWindowExA" "CreateWindowExA"
    ∷ table_entry "user32.DLL" "DestroyWindow" "DestroyWindow"
    ∷ table_entry "user32.DLL" "ShowWindow" "ShowWindow"
    ∷ table_entry "user32.DLL" "SetWindowPos" "SetWindowPos"
    ∷ table_entry "user32.DLL" "MoveWindow" "MoveWindow"
    ∷ table_entry "user32.DLL" "SetWindowTextA" "SetWindowTextA"
    ∷ table_entry "user32.DLL" "GetWindowRect" "GetWindowRect"
    ∷ table_entry "user32.DLL" "GetClientRect" "GetClientRect"
    ∷ table_entry "user32.DLL" "GetWindowLongA" "GetWindowLongA"
    ∷ table_entry "user32.DLL" "SetWindowLongA" "SetWindowLongA"
    ∷ table_entry "user32.DLL" "GetWindowLongPtrA" "GetWindowLongPtrA"
    ∷ table_entry "user32.DLL" "SetWindowLongPtrA" "SetWindowLongPtrA"
    ∷ table_entry "user32.DLL" "IsWindow" "IsWindow"
    ∷ table_entry "user32.DLL" "EnableWindow" "EnableWindow"
    ∷ table_entry "user32.DLL" "GetDesktopWindow" "GetDesktopWindow"
    ∷ table_entry "user32.DLL" "GetActiveWindow" "GetActiveWindow"
    ∷ table_entry "user32.DLL" "GetLastActivePopup" "GetLastActivePopup"
    ∷ table_entry "user32.DLL" "GetFocus" "GetFocus"
    ∷ table_entry "user32.DLL" "SetFocus" "SetFocus"
    ∷ table_entry "user32.DLL" "UpdateWindow" "UpdateWindow"
    ∷ table_entry "user32.DLL" "InvalidateRect" "InvalidateRect"
    ∷ table_entry "user32.DLL" "ValidateRect" "ValidateRect"
    ∷ table_entry "user32.DLL" "BeginPaint" "BeginPaint"
    ∷ table_entry "user32.DLL" "EndPaint" "EndPaint"
    ∷ table_entry "user32.DLL" "MapWindowPoints" "MapWindowPoints"
    ∷ table_entry "user32.DLL" "GetSystemMetrics" "GetSystemMetrics"
    ∷ table_entry "user32.DLL" "AdjustWindowRect" "AdjustWindowRect"
    ∷ table_entry "user32.DLL" "AdjustWindowRectEx" "AdjustWindowRectEx"
    ∷ table_entry "user32.DLL" "GetDC" "GetDC"
    ∷ table_entry "user32.DLL" "ReleaseDC" "ReleaseDC"
    ∷ table_entry "user32.DLL" "GetMessageA" "GetMessageA"
    ∷ table_entry "user32.DLL" "PeekMessageA" "PeekMessageA"
    ∷ table_entry "user32.DLL" "DispatchMessageA" "DispatchMessageA"
    ∷ table_entry "user32.DLL" "TranslateMessage" "TranslateMessage"
    ∷ table_entry "user32.DLL" "PostMessageA" "PostMessageA"
    ∷ table_entry "user32.DLL" "PostThreadMessageA" "PostThreadMessageA"
    ∷ table_entry "user32.DLL" "PostQuitMessage" "PostQuitMessage"
    ∷ table_entry "user32.DLL" "SendMessageA" "SendMessageA"
    ∷ table_entry "user32.DLL" "DefWindowProcA" "DefWindowProcA"
    ∷ table_entry "user32.DLL" "CallWindowProcA" "CallWindowProcA"
    ∷ table_entry "user32.DLL" "CheckDlgButton" "CheckDlgButton"
    ∷ table_entry "user32.DLL" "SetWindowsHookExA" "SetWindowsHookExA"
    ∷ table_entry "user32.DLL" "UnhookWindowsHookEx" "UnhookWindowsHookEx"
    ∷ table_entry "user32.DLL" "CallNextHookEx" "CallNextHookEx"
    ∷ table_entry "user32.DLL" "CopyRect" "CopyRect"
    ∷ table_entry "user32.DLL" "CreateDialogIndirectParamA" "CreateDialogIndirectParamA"
    ∷ table_entry "user32.DLL" "CreateDialogParamA" "CreateDialogParamA"
    ∷ table_entry "user32.DLL" "GetDlgItem" "GetDlgItem"
    ∷ table_entry "user32.DLL" "IsDialogMessageA" "IsDialogMessageA"
    ∷ table_entry "user32.DLL" "IsDlgButtonChecked" "IsDlgButtonChecked"
    ∷ table_entry "user32.DLL" "LoadStringA" "LoadStringA"
    ∷ table_entry "user32.DLL" "MapVirtualKeyA" "MapVirtualKeyA"
    ∷ table_entry "user32.DLL" "MessageBoxA" "MessageBoxA"
    ∷ table_entry "user32.DLL" "SendDlgItemMessageA" "SendDlgItemMessageA"
    ∷ table_entry "user32.DLL" "SetDlgItemInt" "SetDlgItemInt"
    ∷ table_entry "user32.DLL" "SetForegroundWindow" "SetForegroundWindow"
    ∷ table_entry "user32.DLL" "SetDlgItemTextA" "SetDlgItemTextA"
    ∷ table_entry "user32.DLL" "SetWindowPlacement" "SetWindowPlacement"
    ∷ table_entry "user32.DLL" "SystemParametersInfoA" "SystemParametersInfoA"
    ∷ table_entry "user32.DLL" "WinHelpA" "WinHelpA"
    ∷ table_entry "user32.DLL" "GetAsyncKeyState" "GetAsyncKeyState"
    ∷ table_entry "user32.DLL" "LoadCursorA" "LoadCursorA"
    ∷ table_entry "user32.DLL" "SetCursor" "SetCursor"
    ∷ table_entry "user32.DLL" "SetCursorPos" "SetCursorPos"
    ∷ table_entry "user32.DLL" "ClipCursor" "ClipCursor"
    ∷ table_entry "user32.DLL" "LoadIconA" "LoadIconA"
    ∷ table_entry "user32.DLL" "wsprintfA" "wsprintfA"
    ∷ table_entry "user32.DLL" "SetRect" "SetRect"
    ∷ []
