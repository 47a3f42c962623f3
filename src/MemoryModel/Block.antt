-- ===== src/MemoryModel/Block.antt =====
-- The memory block of an aggregate, AggregateMemBlock of
-- src/PointerAnalysis/Models/MemoryModel/FieldSensitive/MemBlock.h, with its lazily created objects.
pub mod Fields
use open_race.Prelude.{
  ℕ, zero, suc, ◌-◌, ◌==◌, if◌then◌else◌, Bool, true, false, not, ◌||◌, Option, none, some, List,
  [], ◌∷◌, length, get_elem?,
}
use open_race.Trace.Build.States.{Built, done, fails, ◌>>=◌, contains}
use open_race.PointsTo.{modify}
use open_race.MemoryModel.{word, MemLayout, index_physical_offset, get_logical_offset}

-- FSObject, with the id that its constructor takes from the counter.
pub record FsObject : Type 0 where
  pub object_id : ℕ
  pub p_offset : ℕ
  pub is_immutable : Bool

pub record AggregateMemBlock : Type 0 where
  pub is_immutable : Bool
  pub layout : MemLayout
  pub field_objs : List (Option FsObject)

unfoldable pub no_objects : ℕ → List (Option FsObject)
no_objects zero = []
no_objects (suc n) = none ∷ no_objects n

-- The constructor
unfoldable pub aggregate : MemLayout → AggregateMemBlock
unfolding no_objects
aggregate layout =
    let size = length layout.element_layout in
    record {
      is_immutable = false;
      layout = layout;
      field_objs = no_objects (if size == 0 then 1 else size);
    }

unfoldable pub offset_is_ptr : MemLayout → ℕ → Bool
unfolding contains
offset_is_ptr layout l = contains l layout.pointer_layout

unfoldable pub make_immutable : Option FsObject → Option FsObject
make_immutable none = none
make_immutable (some o) = some (record o { is_immutable = true })

unfoldable pub all_immutable : List (Option FsObject) → List (Option FsObject)
unfolding make_immutable
all_immutable [] = []
all_immutable (o ∷ os) = make_immutable o ∷ all_immutable os

unfoldable pub set_immutable : AggregateMemBlock → AggregateMemBlock
unfolding all_immutable
set_immutable block = record block {
  is_immutable = true;
  field_objs = all_immutable block.field_objs;
}

-- The object of a field, which is created where there is none; with the next id.
unfoldable pub get_or_create :
    ℕ → ℕ → Bool → AggregateMemBlock → ℕ → Built (Option FsObject × AggregateMemBlock × ℕ)
unfolding modify
get_or_create field p immutable block id = elim (get_elem? block.field_objs field) [
  | none ↦ fails
  | some found ↦ elim found [
    | none ↦
        let o : FsObject = record { object_id = id; p_offset = p; is_immutable = immutable } in
        done (
          some o,
          record block {
            field_objs = modify field (λ (x : Option FsObject). some o) block.field_objs;
          },
          suc id,
        )
    | some o ↦ done (some o, block, id)
  ]
]

-- The object at a layout offset
unfoldable pub get_field :
    Bool → ℕ → ℕ → AggregateMemBlock → ℕ → Built (Option FsObject × AggregateMemBlock × ℕ)
unfolding offset_is_ptr
get_field ensure_ptr l q block id =
    if l == word - 1
    then done (none, block, id)
    else (elim (get_logical_offset block.layout.element_layout 0 l) [
      | none ↦ done (none, block, id)
      | some field ↦
          if not ensure_ptr || offset_is_ptr block.layout l
          then get_or_create field q block.is_immutable block id
          else done (none, block, id)
    ])

unfoldable pub index_memory_block :
    ℕ → Bool → AggregateMemBlock → ℕ → Built (Option FsObject × AggregateMemBlock × ℕ)
unfolding offset_is_ptr
index_memory_block p ensure_ptr block id =
    if p == 0
    then (if not ensure_ptr || offset_is_ptr block.layout 0
        then get_or_create 0 0 false block id
        else done (none, block, id))
    else (index_physical_offset block.layout p >>= λ (found : ℕ × ℕ).
        get_field ensure_ptr found.0 found.1 block id)
