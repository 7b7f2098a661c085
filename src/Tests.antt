-- ===== src/Tests.antt =====
-- The theorems at concrete inputs.
mod HandlesTests
mod KernelTests
mod WaitTests
mod MessagesTests
mod PeTests
mod ImageTests
mod ProgramTests
mod LoaderTests
mod ResolveTests
mod EventsTests
mod SoundTests
mod HeapTests
