-- ===== src/MemoryModel/Indexing/Placed.antt =====
-- Where `indexObject` of src/PointerAnalysis/Models/MemoryModel/FieldSensitive/MemBlock.h leads: the objects
-- of an aggregate stand at their fields.
use open_race.Prelude.{ℕ, ◌+◌, ◌-◌, ◌≤◌, ◌<◌, true, Option, none, some, ◌≡◌, length, get_elem?}
use open_race.Trace.Build.States.{Built, done}
use open_race.MemoryModel.{word, MemLayout, index_physical_offset, get_logical_offset}
use open_race.MemoryModel.Canonical.{FitsArrays}
use open_race.MemoryModel.Block.{FsObject, AggregateMemBlock}
use open_race.MemoryModel.Indexing.{Index, no_gep, forward, backward, variable}

-- The arrays fit, the first field is at 0, and none is at the largest number.
abbrev pub IsLayout : MemLayout → Type 0
IsLayout m =
    FitsArrays m.sub_arrays 0 m.max_p_offset
    × (m.max_p_offset < word)
    × (0 < m.max_p_offset)
    × (get_logical_offset m.element_layout 0 0 ≡ some 0)
    × (get_logical_offset m.element_layout 0 (word - 1) ≡ none)

-- An offset that stays, at the layout offset of a field.
abbrev pub IsAt : MemLayout → ℕ → ℕ → Type 0
IsAt m field q =
    (l : ℕ) × (index_physical_offset m q ≡ done (l, q))
    × (get_logical_offset m.element_layout 0 l ≡ some field)

-- There is room for all fields, and each object has an offset of its field.
abbrev pub IsPlaced : AggregateMemBlock → Type 0
IsPlaced b =
    (length b.layout.element_layout ≤ length b.field_objs)
    × ((field : ℕ) (o : FsObject)
        → get_elem? b.field_objs field ≡ some (some o)
        → IsAt b.layout field o.p_offset)

-- What a block gives for a field.
abbrev pub Gives : Built (Option FsObject × AggregateMemBlock × ℕ) → AggregateMemBlock → ℕ → Type 0
Gives run b field =
    (o : FsObject) × (b' : AggregateMemBlock) × (id' : ℕ) × (run ≡ done (some o, b', id'))
    × (b'.layout ≡ b.layout)
    × IsPlaced b'
    × (get_elem? b'.field_objs field ≡ some (some o))

-- The object for an offset has the layout offset of this offset.
abbrev pub GivesAt :
    Built (Option FsObject × AggregateMemBlock × ℕ) → AggregateMemBlock → ℕ → Type 0
GivesAt run b l =
    (o : FsObject) × (b' : AggregateMemBlock) × (id' : ℕ) × (run ≡ done (some o, b', id'))
    × (b'.layout ≡ b.layout)
    × IsPlaced b'
    × (index_physical_offset b.layout o.p_offset ≡ done (l, o.p_offset))

-- Where an index that is constant leads from an offset.
unfoldable pub Moves : ℕ → Index → ℕ → Type 0
Moves p no_gep k = ⊥
Moves p (forward fits n) k = (fits ≡ true) × (k ≡ p + n)
Moves p (backward n) k = k + n ≡ p
Moves p (variable step) k = ⊥
