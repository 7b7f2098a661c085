-- ===== src/Kernel/Close.antt =====
-- handler_NtClose of src/msvcrt/ntdll_handle.c.
use my_wine.Prelude.{ℕ, ◌||◌, List, [], ◌∷◌, leb, ◌==◌, if◌then◌else◌}
use my_wine.Handles.{Table, alloc, type_event, type_mutex, type_semaphore, type_file, type_section}
use my_wine.Handles
use my_wine.Kernel.{Section, Kernel, Status, low32, success, invalid_handle}

-- The system calls that NtClose makes.
pub data Effect : Type 0 where
  close_fd : ℕ → Effect
  unmap : ℕ → ℕ → Effect

free_handle_of : Kernel → ℕ → Kernel
free_handle_of k handle = record k { handles = Handles.free k.handles (low32 handle) }

-- `*(sections + p) = s`
abbrev put_section : (ℕ → Section) → ℕ → Section → ℕ → Section
put_section f p s q = if p == q then s else f q

-- The branch of handler_NtClose for a file: descriptor 0 is not closed.
close_file : ℕ → Kernel → Status × List Effect × Kernel
unfolding free_handle_of
close_file handle k =
    let object = Handles.get k.handles (low32 handle) in
    (success, (if object == 0 then [] else close_fd (low32 object) ∷ []), free_handle_of k handle)

-- Its branch for a section, whose mapping is removed once.
close_section : ℕ → Kernel → Status × List Effect × Kernel
unfolding free_handle_of
close_section handle k =
    let object = Handles.get k.handles (low32 handle) in
    let sec = k.sections object in
    if object == 0
    then (success, [], free_handle_of k handle)
    else if sec.base == 0
    then (success, [], free_handle_of k handle)
    else (
      success,
      unmap sec.base sec.size ∷ [],
      free_handle_of
          (record k { sections = put_section k.sections object (record sec { base = 0 }) }) handle,
    )

-- handler_NtClose: the pseudo handles and the standard streams are left alone; the other types only
-- lose their entry in the handle table.
unfoldable pub close : ℕ → Kernel → Status × List Effect × Kernel
unfolding close_file close_section free_handle_of
close handle k =
    let type = Handles.get_type k.handles (low32 handle) in
    if (handle == 0x7fffffff) || (handle == 0x7ffffffe) || (handle == 0x7ffffffd)
    then (success, [], k)
    else if leb handle 2
    then (success, [], k)
    else if type == 0
    then (invalid_handle, [], k)
    else if type == type_file
    then close_file handle k
    else if type == type_section
    then close_section handle k
    else (success, [], free_handle_of k handle)
