-- ===== src/Tests/Contexts.antt =====
-- The theorems on ring buffers at a buffer of three slots.
use open_race.Prelude.{none, some, [], ◌∷◌, ◌≡◌, refl}
use open_race.RingBuffer.{PtrRingBuffer, empty_buffer, items}

-- After four pushes into three slots.
abbrev wrapped : PtrRingBuffer
wrapped = record { buffer = some 4 ∷ some 2 ∷ some 3 ∷ []; last = 1 }

wrapped-items : items 3 wrapped ≡ some (some 2 ∷ some 3 ∷ some 4 ∷ [])
unfolding items
wrapped-items = refl

empty_buffer-items : items 3 (empty_buffer 3) ≡ some (none ∷ none ∷ none ∷ [])
unfolding items empty_buffer
empty_buffer-items = refl

abbrev first_context : PtrRingBuffer
first_context = record { buffer = some 7 ∷ none ∷ none ∷ []; last = 1 }
