-- ===== src/Contexts/Once.antt =====
-- A context of src/PointerAnalysis/Context is kept once: the same steps give the same pointer.
use open_race.Prelude.{ℕ, ◌<◌, some, List, [], ◌∷◌, ◌≡◌, ◌≢◌, All, get_elem?}
use open_race.RingBuffer.{PtrRingBuffer, push, items}
use open_race.Contexts.{Ctx, buffer_of}

-- The contexts of a set have different call sites, and an index inside the buffer.
abbrev pub IsContextSet : ℕ → List PtrRingBuffer → Type 0
IsContextSet size [] = Unit
IsContextSet size (x ∷ xs) =
    (x.last < size) × All (λ y. items size x ≢ items size y) xs × IsContextSet size xs

module _ (size : ℕ) (positive : 0 < size) where
  -- The context that a step gives, and the set after it.
  abbrev pub IsPushed : PtrRingBuffer → ℕ → List PtrRingBuffer → Ctx → List PtrRingBuffer → Type 0
  IsPushed b inst set c set' =
      ((y : PtrRingBuffer) × (buffer_of size set' c ≡ some y)
        × (items size y ≡ items size (push size b (some inst)).1))
      × IsContextSet size set'
      × ((n : ℕ) (z : PtrRingBuffer) → get_elem? set n ≡ some z → get_elem? set' n ≡ some z)
