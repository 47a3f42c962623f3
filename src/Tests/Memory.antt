-- ===== src/Tests/Memory.antt =====
-- The theorems about the layouts and blocks of the memory model at concrete inputs.
use open_race.Prelude.{ℕ, ◌-◌, ◌≤◌, ◌<◌, true, false, none, some, [], ◌∷◌, ◌≡◌, ◌≢◌, refl, arith}
use open_race.Trace.Build.States.{done, contains}
use open_race.PointsTo.{modify}
use open_race.MemoryModel.{
  word, ArrayLayout, array, no_arrays, array_at, get_array_size, layout_size, index_array,
  index_between_arrays, MemLayout, has_array, index_physical_offset, get_logical_offset,
}
use open_race.MemoryModel.Canonical.{FitsArray, FitsArrays, index_physical_offset-stays}
use open_race.MemoryModel.Block.{
  FsObject, AggregateMemBlock, no_objects, aggregate, offset_is_ptr, get_or_create, get_field,
  index_memory_block,
}
use open_race.MemoryModel.Block.Fields.{index_memory_block-again}
use open_race.MemoryModel.Indexing.{
  aggregate_block, put_object, initialize_offset_with, get_object_at, variable, index_object,
  validate_step_size, is_array_exist_at_offset, find_at, exist_inside, search_before,
  get_element_size,
}
use open_race.MemoryModel.Indexing.Variable.{HasArrayAt, index_object-HasArrayAt}
use open_race.MemoryModel.Indexing.Special.{initialize_offset_with-get_object_at}

-- Eight bytes, then an array of four elements of eight bytes, each with an array of two of four bytes.
abbrev inner : ArrayLayout
inner = array 2 4 4 no_arrays

abbrev sample : MemLayout
sample = record {
  element_layout = 0 ∷ 8 ∷ 12 ∷ [];
  pointer_layout = 8 ∷ [];
  sub_arrays = array_at 8 (array 4 8 4 (array_at 0 inner no_arrays)) no_arrays;
  max_p_offset = 40;
}

sample-FitsArrays : FitsArrays sample.sub_arrays 0 sample.max_p_offset
unfolding FitsArray FitsArrays get_array_size layout_size
sample-FitsArrays = (
  omega arith,
  omega arith,
  omega arith,
  omega arith,
  omega arith,
  (
    omega arith,
    omega arith,
    (
      omega arith,
      omega arith,
      omega arith,
      omega arith,
      omega arith,
      (omega arith, omega arith, tt),
      tt,
    ),
  ),
  tt,
)

index_physical_offset-stays_example :
    (l : ℕ) × (q : ℕ) × (index_physical_offset sample 22 ≡ done (l, q))
    × (index_physical_offset sample q ≡ done (l, q))
    × (q ≤ 22)
    × (has_array sample.sub_arrays ≡ false → (l ≡ 22) × (q ≡ 22))
    × (has_array sample.sub_arrays ≡ true → 22 < sample.max_p_offset → (l ≤ q) × (l < word - 1))
    × (has_array sample.sub_arrays ≡ true → sample.max_p_offset ≤ 22 → (l ≡ word - 1) × (q ≡ 22))
index_physical_offset-stays_example =
    index_physical_offset-stays sample 22 sample-FitsArrays (omega arith)

abbrev created : FsObject
created = record { object_id = 7; p_offset = 8; is_immutable = false }

abbrev with_created : AggregateMemBlock
with_created = record {
  is_immutable = false;
  layout = sample;
  field_objs = none ∷ some created ∷ none ∷ [];
}

same_place : index_physical_offset sample 20 ≡ index_physical_offset sample 24
unfolding index_physical_offset index_array index_between_arrays has_array get_array_size
    layout_size
same_place = refl

first_time : index_memory_block 20 true (aggregate sample) 7 ≡ done (some created, with_created, 8)
unfolding index_memory_block get_field get_or_create offset_is_ptr contains get_logical_offset
    index_physical_offset index_array index_between_arrays has_array get_array_size layout_size
    aggregate no_objects modify
first_time = refl

-- An array of two pointers and what follows it: the first element at 0, the second at 8.
abbrev pointers : MemLayout
pointers = record {
  element_layout = 0 ∷ 8 ∷ [];
  pointer_layout = 0 ∷ [];
  sub_arrays = array_at 0 (array 2 8 8 no_arrays) no_arrays;
  max_p_offset = 24;
}

abbrev at_start : FsObject
at_start = record { object_id = 7; p_offset = 0; is_immutable = false }

abbrev with_start : AggregateMemBlock
with_start = record {
  is_immutable = false;
  layout = pointers;
  field_objs = some at_start ∷ none ∷ [];
}

one_place : index_physical_offset pointers 0 ≡ index_physical_offset pointers 8
unfolding index_physical_offset index_array index_between_arrays has_array get_array_size
    layout_size
one_place = refl

first_pointer :
    index_memory_block 0 true (aggregate pointers) 7 ≡ done (some at_start, with_start, 8)
unfolding index_memory_block get_or_create offset_is_ptr contains aggregate no_objects modify
first_pointer = refl

index_memory_block-again_example :
    index_memory_block 8 true with_start 8 ≡ done (some at_start, with_start, 8)
unfolding aggregate no_objects get_logical_offset
index_memory_block-again_example =
    index_memory_block-again 0 8 true (aggregate pointers) with_start 7 8 at_start refl one_place
      first_pointer

-- From 32 back to 20, in the first element of the inner array in an element of the outer one.
abbrev start : FsObject
start = record { object_id = 3; p_offset = 32; is_immutable = false }

put_created : initialize_offset_with 20 created (aggregate sample) ≡ done with_created
unfolding initialize_offset_with put_object get_logical_offset index_physical_offset index_array
    index_between_arrays has_array get_array_size layout_size aggregate no_objects modify
put_created = refl

no_last : get_logical_offset (0 ∷ 8 ∷ 12 ∷ []) 0 (word - 1) ≡ none
unfolding get_logical_offset
no_last = refl

initialize_offset_with-get_object_at_example :
    get_object_at false 20 (aggregate_block with_created) 9
    ≡ done (some created, aggregate_block with_created, 9)
unfolding aggregate
initialize_offset_with-get_object_at_example =
    initialize_offset_with-get_object_at 20 created (aggregate sample) with_created 9 no_last
      put_created

-- The elements of the inner array, at the start of the outer one.
abbrev at_array : FsObject
at_array = record { object_id = 3; p_offset = 8; is_immutable = false }

by_four :
    index_object at_array (variable 4) true (aggregate_block (aggregate sample)) 7
    ≡ done (some at_array, aggregate_block (aggregate sample), 7)
unfolding index_object validate_step_size is_array_exist_at_offset find_at exist_inside
    search_before get_element_size get_array_size aggregate no_objects
by_four = refl

index_object-HasArrayAt_example :
    (at_array ≡ at_array)
    × (aggregate_block (aggregate sample) ≡ aggregate_block (aggregate sample))
    × ◌≡◌ {A = ℕ} 7 7
    × (4 ≢ word - 1)
    × HasArrayAt (aggregate sample).layout.sub_arrays 8 4
index_object-HasArrayAt_example =
    index_object-HasArrayAt at_array 4 true (aggregate sample) (aggregate_block (aggregate sample))
      7 7 at_array by_four
