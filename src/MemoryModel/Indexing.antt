-- ===== src/MemoryModel/Indexing.antt =====
-- Indexing a block of memory: MemBlock, FIMemBlock and ScalarMemBlock with the rest of AggregateMemBlock in
-- src/PointerAnalysis/Models/MemoryModel/FieldSensitive/MemBlock.h, and isArrayExistAtOffset of
-- Layout/Util.cpp there. What LLVM answers about an instruction is an `Index`.
pub mod Placed
pub mod Variable
pub mod Special
use open_race.Prelude.{
  ℕ, zero, suc, ◌+◌, ◌-◌, ◌%◌, ◌==◌, ltb, leb, if◌then◌else◌, Bool, true, false, not, ◌&&◌, ◌||◌,
  Option, none, some, List, [], ◌∷◌, get_elem?,
}
use open_race.Trace.Build.States.{Built, done, fails, ◌>>=◌}
use open_race.PointsTo.{modify}
use open_race.MemoryModel.{
  word, ArrayLayout, Arrays, array, no_arrays, array_at, get_array_size, MemLayout,
  index_physical_offset, get_logical_offset,
}
use open_race.MemoryModel.Block
use open_race.MemoryModel.Block.{FsObject, AggregateMemBlock, make_immutable, index_memory_block}

unfoldable pub get_element_size : ArrayLayout → ℕ
get_element_size (array num size layout subs) = size

-- `find_at` is the lookup by the key and what follows it, `search_before` the loop.
unfoldable mutual
  unfolding get_element_size get_array_size

  pub exist_inside : ArrayLayout → ℕ → ℕ → Bool
  exist_inside (array num size layout subs) p step = elim (find_at subs p step) [
    | none ↦ search_before subs p step
    | some found ↦ found
  ]

  pub find_at : Arrays → ℕ → ℕ → Option Bool
  find_at no_arrays p step = none
  find_at (array_at offset a rest) p step =
      let nested = exist_inside a 0 step in
      let later = find_at rest p step in
      if offset == p
      then some (
          if get_element_size a == step
          then true
          else if ltb (get_element_size a) step
          then get_element_size a == 1
          else nested)
      else later

  pub search_before : Arrays → ℕ → ℕ → Bool
  search_before no_arrays p step = false
  search_before (array_at offset a rest) p step =
      let nested = exist_inside a (p - offset) step in
      let later = search_before rest p step in
      if ltb offset p && leb step ((offset + get_array_size a) % word) then nested else later

unfoldable pub is_array_exist_at_offset : Arrays → ℕ → ℕ → Bool
unfolding find_at search_before
is_array_exist_at_offset subs p step = elim (find_at subs p step) [
  | none ↦ search_before subs p step
  | some found ↦ found
]

-- A special object is put at an offset, where there is none.
unfoldable pub put_object : ℕ → FsObject → AggregateMemBlock → Built AggregateMemBlock
unfolding modify
put_object field o block = elim (get_elem? block.field_objs field) [
  | none ↦ fails
  | some found ↦ elim found [
    | none ↦ done (record block {
      field_objs = modify field (λ (x : Option FsObject). some o) block.field_objs;
    })
    | some old ↦ fails
  ]
]

unfoldable pub initialize_offset_with : ℕ → FsObject → AggregateMemBlock → Built AggregateMemBlock
unfolding put_object
initialize_offset_with p o block =
    if p == 0
    then put_object 0 o block
    else (index_physical_offset block.layout p >>= λ (found : ℕ × ℕ).
        elim (get_logical_offset block.layout.element_layout 0 found.0) [
          | none ↦ fails
          | some field ↦ if ltb 0 field then put_object field o block else fails
        ])

-- The classes of MemBlock
pub data MemBlock : Type 0 where
  aggregate_block : AggregateMemBlock → MemBlock
  fi_block : FsObject → MemBlock
  scalar_block : FsObject → MemBlock

-- getObjectAt, and getPtrObjectAt where the flag is set
unfoldable pub get_object_at : Bool → ℕ → MemBlock → ℕ → Built (Option FsObject × MemBlock × ℕ)
get_object_at ensure_ptr p (aggregate_block b) id =
    index_memory_block p ensure_ptr b id >>= λ (r : Option FsObject × AggregateMemBlock × ℕ).
    done (r.0, aggregate_block r.1, r.2)
get_object_at ensure_ptr p (fi_block o) id = done (some o, fi_block o, id)
get_object_at ensure_ptr p (scalar_block o) id =
    done (if p == 0 then some o else none, scalar_block o, id)

unfoldable pub set_block_immutable : MemBlock → MemBlock
unfolding Block.set_immutable
set_block_immutable (aggregate_block b) = aggregate_block (Block.set_immutable b)
set_block_immutable (fi_block o) = fi_block (record o { is_immutable = true })
set_block_immutable (scalar_block o) = scalar_block (record o { is_immutable = true })

unfoldable pub validate_step_size : ℕ → ℕ → MemBlock → Bool
unfolding is_array_exist_at_offset
validate_step_size p step (aggregate_block b) = is_array_exist_at_offset b.layout.sub_arrays p step
validate_step_size p step (fi_block o) = true
validate_step_size p step (scalar_block o) = false

-- A constant offset, forward with the answer of the filter on types, or backward; or the step of a
-- variable index, which is the largest number where it is not known.
pub data Index : Type 0 where
  no_gep : Index
  forward : Bool → ℕ → Index
  backward : ℕ → Index
  variable : ℕ → Index

-- The sum is below 2 ^ 63; an `unsigned int` has 32 bits.
unfoldable pub index_object :
    FsObject → Index → Bool → MemBlock → ℕ → Built (Option FsObject × MemBlock × ℕ)
unfolding get_object_at validate_step_size
index_object o index ensure_ptr (fi_block object) id = done (some object, fi_block object, id)
index_object o index ensure_ptr (scalar_block object) id = done (none, scalar_block object, id)
index_object o no_gep ensure_ptr (aggregate_block b) id = done (none, aggregate_block b, id)
index_object o (forward fits n) ensure_ptr (aggregate_block b) id =
    if fits
    then get_object_at ensure_ptr ((o.p_offset + n) % 4294967296) (aggregate_block b) id
    else done (none, aggregate_block b, id)
index_object o (backward n) ensure_ptr (aggregate_block b) id =
    if ltb o.p_offset n
    then done (none, aggregate_block b, id)
    else get_object_at ensure_ptr ((o.p_offset - n) % 4294967296) (aggregate_block b) id
index_object o (variable step) ensure_ptr (aggregate_block b) id =
    if step == word - 1
    then done (none, aggregate_block b, id)
    else done (
      if validate_step_size o.p_offset step (aggregate_block b) then some o else none,
      aggregate_block b,
      id,
    )
