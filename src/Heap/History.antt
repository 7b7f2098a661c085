-- ===== src/Heap/History.antt =====
-- A heap of src/heap/wine_heap.c from HeapCreate to HeapDestroy.
use my_wine.Prelude.{ℕ, ◌<◌, ◌≡◌, length, get_or}
use my_wine.Pe.Memory.{read}
use my_wine.Heap.Handles.{Heaps}

-- The heap stands in the table of handles, and is valid.
record Lives (h : ℕ) (s : Heaps) : Type 0 where
  slot : ℕ
  inside : slot < length s.handles
  listed : get_or s.handles slot 0 ≡ h
  valid : read 4 s.memory h ≡ 1
