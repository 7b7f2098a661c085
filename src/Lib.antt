-- ===== src/Lib.antt =====
-- my_wine runs Windows programs on Linux: a loader maps a PE image, relocates and links it, and the
-- system libraries that the program calls are written again on Linux system calls. This library
-- models the parts of it that keep state or decide what is safe to touch.
--
-- The parts and how they meet:
--   - the handle table gives out the numbers by which every object is known. The NT handlers store
--     events, mutexes, semaphores and files in it, USER32 its windows, and the registry its keys;
--   - the NT handlers keep fixed arrays of kernel objects beside the table, and wait on events;
--   - the USER32 message loop takes messages from two rings and from the host, and asks the handle
--     table whether a message's window is still there;
--   - the loader reads headers, sections, relocations, exports and imports of a file or an image that
--     it does not trust, and keeps a registry of the images that it has loaded;
--   - the SDL2 backend routes its events to windows, whose handles it looks up in the handle table,
--     queues messages of its own, and mixes the sound buffers that programs lock and fill;
--   - the heap of the 32-bit build gives every block a mapping of its own, behind a table of handles;
--   - paths, window classes and registry values are small stores of strings that programs use.
--
-- Files:
--   - Prelude: what the modules share. Prelude/Tests has Boolean tests on numbers and the lemmas on
--     them, Prelude/Lists the operations on lists, Prelude/Search the search for
--     the first entry that passes a test.
--   - Handles: src/msvcrt/handle_manager.c and handle_manager_runtime.c. A table is the list of its
--     512 slots; `alloc`, `get`, `get_type`, `add_ref`, `free` and `init` are the functions of the
--     same names. Handles/Scan is about the search for a free slot, Handles/Invariant about what
--     every call keeps, Handles/Laws about what the calls promise of each other.
--   - Kernel: src/msvcrt/ntdll_objects.c and ntdll_synchronization.c, with the types of ntdll_priv.h;
--     `create_event`, `set_event`, `release_mutex` and the others are the handler_Nt functions.
--     Kernel/Close is handler_NtClose of ntdll_handle.c, Kernel/Wait handler_NtWaitForSingleObject.
--     Kernel/Events, Kernel/Invariant, Kernel/Stale and Kernel/Wait/Relative hold theorems.
--   - Messages: the rings and filters of src/msvcrt/user32_message_queue.c. Messages/Fetching has the
--     quit flag, user32_fetch_queued_message, PostMessageA, PostQuitMessage, GetMessageA and
--     PeekMessageA of the same file and of user32_message.c. Messages/Ring reads a ring as a list;
--     Messages/Ring/Shift, Messages/Take, Messages/Fetch and Messages/Quit hold theorems.
--   - Pe: src/pe_priv.h and src/pe_headers.c on the structures of include/pe.h. Pe/Memory has bytes
--     and numbers in memory, Pe/Headers a theorem on headers, Pe/Sections the section table and the
--     translation of RVAs, with its theorems in Pe/Sections/Bounds.
--   - Pe/Relocations: src/loader/relocations.c, with theorems on one entry, on what an entry moves, and
--     on the table.
--   - Pe/Exports: src/loader/export_table.c, the cache and its parser; Pe/Exports/Lookup has the
--     lookups by name and by ordinal, Pe/Exports/Search theorems on the first.
--   - Strings: the string functions of include/syscall_safe_utils.h, and the bytes of a literal.
--   - Loader/Modules: src/loader/module_list.c with the types of module_list.h. Loader/Modules/Find is
--     about the searches, Loader/Modules/Gap about adding and removing.
--   - Loader/Ordinals: src/loader/ordinal_table.c; Loader/Ordinals/Complete is about its table.
--   - Loader/Imports: src/loader/import_lookup.c and the operations of src/loader/import_table.c.
--     Loader/Imports/Order is about the order of names, Loader/Imports/Sort about init_import_table,
--     Loader/Imports/Search about the binary search.
--   - Loader/ImportTable: the table of src/loader/import_table.c, its entries in the files below it;
--     Loader/ImportTable/Coherent is about its duplicates, Loader/ImportTable/Shims has
--     src/loader/import_init.c and the sort of the 64-bit build, Loader/ImportTable/Resolved is about
--     the resolution of its names.
--   - Loader/Resolve: pass 1 of src/loader/import_resolve.c. Loader/Resolve/Thunks is about the loop over
--     the thunks of a descriptor, Loader/Resolve/Filled about what it stores,
--     Loader/Resolve/Directory about the end of the loops and Loader/Resolve/Frame about what they
--     leave alone.
--   - Events/Routes and Events/Synthetic: the routes between windows and the queue of synthetic messages
--     of src/backend/sdl2/rb_event_state.c, with theorems in Events/Routes/Bind and
--     Events/Synthetic/Fifo.
--   - Sound/Lock: dsound_buffer_Lock of src/msvcrt/dsound_buffer_control.c over rb_audio_buffer_lock of
--     src/backend/sdl2/rb_audio.c, with theorems in Sound/Regions. Sound/Mix: the loops of
--     src/backend/sdl2/rb_audio_mix.c, with theorems in Sound/Playback; Sound/Frames: how that file reads
--     and adds a frame, with theorems in Sound/Stream.
--   - Heap/Backend: src/heap/pe32_mmap_heap_backend.c, with theorems in Heap/Blocks; Heap/Handles:
--     src/heap/wine_heap.c in the 32-bit build, with theorems in Heap/Lifetime, and in Heap/History,
--     which uses the frames of Heap/Calls.
--   - Path: wine_resolve_path of src/msvcrt/kernel32_path.c, with theorems in Path/Resolve.
--   - Classes: src/msvcrt/user32_class_registry.c, with theorems in Classes/Laws.
--   - Registry: the values of src/msvcrt/advapi32_registry.c; Registry/Calls has the calls on keys
--     and values; Registry/Find, Registry/Values and Registry/Frame hold theorems.
--   - Tests: concrete inputs.
--
-- How the code is read: a pointer is a number and 0 is NULL, or an offset into the file or image
-- that it points into. Integers are natural numbers, and an operation that may wrap around in the
-- code is written with its remainder. An int that may be negative is its bit pattern. The
-- two builds differ in the size of a pointer; where that matters, a part that both use is read in the 64-bit build, but
-- for the sizes of raw data, which Pe/Sections reads in both, and the heap, which is that of the
-- 32-bit build. A string is
-- the bytes in front of its NUL. A function that writes through an optional pointer answers with
-- what it would write. Code that holds a lock from its first read to its last write is one step.
--
-- Parameters: the answers of nanosleep and what the other threads do during it, the host's events,
-- whether an allocation succeeds and the address that it gives, the addresses of the arrays of
-- kernel objects, and the addresses at which the linker puts the loader's own functions, the
-- fields of the backend's windows, how a sample is scaled, the answers of mmap, and the C library's qsort.
--
-- Fuel: the loops of the waits, of the relocation blocks, of the search for an export, of the
-- doubling of a capacity and of closing a gap in a ring run on fuel, and a model that runs out of
-- it answers none. An eighth of the relocation directory's size, and one, is enough for its
-- blocks, which are 8 bytes long or more; the number of names, and one, for the search; 64 rounds
-- for the gap, where a ring has 64 places; one for the doubling; a thousandth of the nanoseconds,
-- and one, for a wait; the number of entries, and one, for the search of the import table; the
-- size of the image, and one, for each of the two loops over the imports, each round of which
-- stays inside the image or returns; one for the growth of the two tables of the backend, which at
-- least double; 2 ^ 32 for the cursor of a sound buffer, which has 64 bits and loses 32 of them in
-- each round.
--
-- Not modelled: the mapping of images and the start of the process, the patching of jump targets
-- in machine code (pass 2 of the imports), the loading of other files, the dispatch of system
-- calls, the C runtime, graphics, the rest of the sound and of the SDL2 backend, dialogs, file
-- access and the memory allocator of the 64-bit build. Most of that is system calls, calls of
-- other libraries or machine code. Diagnostics are dropped.
pub mod Prelude
pub mod Handles
pub mod Kernel
pub mod Messages
pub mod Pe
pub mod Strings
pub mod Loader
pub mod Events
pub mod Sound
pub mod Heap
pub mod Path
pub mod Classes
pub mod Registry
pub mod Tests
