-- ===== src/MemoryModel/Indexing/Variable.antt =====
-- What a variable index finds: `isArrayExistAtOffset` of src/PointerAnalysis/Models/MemoryModel/
-- FieldSensitive/Layout/Util.cpp under `indexObject` of MemBlock.h there.
use open_race.Prelude.{
  ℕ, ◌%◌, ◌+◌, ◌-◌, ◌≤◌, ◌==◌, ltb, leb, Bool, true, ◌&&◌, some, ◌≡◌, ◌≢◌, ◌⊎◌, inl, inr, arith,
  Bool-cases, Option-cases, ==_iff,
}
use open_race.Trace.Build.States.{done}
use open_race.MemoryModel.{word, ArrayLayout, Arrays, array, no_arrays, array_at, get_array_size}
use open_race.MemoryModel.Block.{FsObject, AggregateMemBlock}
use open_race.MemoryModel.Indexing.{
  get_element_size, exist_inside, find_at, search_before, is_array_exist_at_offset, MemBlock,
  aggregate_block, validate_step_size, variable, index_object,
}

-- An array with elements of a size, or of bytes, begins at an offset, maybe in an element of others.
pub data HasArrayAt : Arrays → ℕ → ℕ → Type 0 where
  here :
      {a : ArrayLayout} {rest : Arrays} {p step : ℕ}
      → (get_element_size a ≡ step) ⊎ (get_element_size a ≡ 1)
      → HasArrayAt (array_at p a rest) p step
  inside :
      {num size layout offset p step : ℕ} {subs rest : Arrays}
      → offset ≤ p
      → HasArrayAt subs (p - offset) step
      → HasArrayAt (array_at offset (array num size layout subs) rest) p step
  later :
      {offset p step : ℕ} {a : ArrayLayout} {rest : Arrays}
      → HasArrayAt rest p step
      → HasArrayAt (array_at offset a rest) p step

abbrev subs_of : ArrayLayout → Arrays
subs_of (array num size layout subs) = subs

nested :
    (offset p step : ℕ) (a : ArrayLayout) (rest : Arrays)
    → offset ≤ p
    → HasArrayAt (subs_of a) (p - offset) step
    → HasArrayAt (array_at offset a rest) p step
nested offset p step (array num size layout subs) rest h found = inside h found

mutual
  unfolding exist_inside find_at search_before

  exist_inside-HasArrayAt :
      (a : ArrayLayout) (p step : ℕ) → exist_inside a p step ≡ true → HasArrayAt (subs_of a) p step
  exist_inside-HasArrayAt (array num size layout subs) p step h =
      elim (Option-cases (find_at subs p step)) [
        | inl absent ↦ search_before-HasArrayAt subs p step (ground arith)
        | inr (found, there) ↦ find_at-HasArrayAt subs p step (ground arith)
      ]

  find_at-HasArrayAt :
      (subs : Arrays) (p step : ℕ) → find_at subs p step ≡ some true → HasArrayAt subs p step
  find_at-HasArrayAt no_arrays p step h = absurd (ground arith)
  find_at-HasArrayAt (array_at offset a rest) p step h = elim (Bool-cases (offset == p)) [
    | inr other ↦ later (find_at-HasArrayAt rest p step (ground arith))
    | inl at_key ↦
        let e : offset ≡ p = (==_iff offset p).0 at_key in
        elim (Bool-cases (get_element_size a == step)) [
          | inl same ↦ rw e (here (inl ((==_iff (get_element_size a) step).0 same)))
          | inr differ ↦ elim (Bool-cases (ltb (get_element_size a) step)) [
            | inl smaller ↦ rw e (here (inr (ground arith)))
            | inr larger ↦
                let found = exist_inside-HasArrayAt a 0 step (ground arith) in
                let zero_left : p - offset ≡ 0 = omega arith in
                nested offset p step a rest (omega arith) (rw zero_left found)
          ]
        ]
  ]

  search_before-HasArrayAt :
      (subs : Arrays) (p step : ℕ) → search_before subs p step ≡ true → HasArrayAt subs p step
  search_before-HasArrayAt no_arrays p step h = absurd (ground arith)
  search_before-HasArrayAt (array_at offset a rest) p step h =
      elim (Bool-cases (ltb offset p && leb step ((offset + get_array_size a) % word))) [
        | inl before ↦
            nested offset p step a rest (ground arith)
              (exist_inside-HasArrayAt a (p - offset) step (ground arith))
        | inr behind ↦ later (search_before-HasArrayAt rest p step (ground arith))
      ]

-- Where a variable index of an aggregate gives an object, its step is known, the object is the one that is
-- indexed, at whose offset an array with elements of the step or of bytes begins, maybe in an element of
-- others, and neither the block nor the next id of an object changes.
pub index_object-HasArrayAt :
    (object : FsObject) (step : ℕ) (ensure_ptr : Bool) (b : AggregateMemBlock) (block' : MemBlock)
    (id id' : ℕ) (o : FsObject)
    → index_object object (variable step) ensure_ptr (aggregate_block b) id
      ≡ done (some o, block', id')
    → (o ≡ object)
      × (block' ≡ aggregate_block b)
      × (id' ≡ id)
      × (step ≢ word - 1)
      × HasArrayAt b.layout.sub_arrays object.p_offset step
unfolding index_object validate_step_size is_array_exist_at_offset
index_object-HasArrayAt object step ensure_ptr b block' id id' o h =
    elim (Bool-cases (step == word - 1)) [
      | inl unknown ↦ absurd (ground arith)
      | inr known ↦
          elim (Bool-cases (is_array_exist_at_offset b.layout.sub_arrays object.p_offset step)) [
            | inr absent ↦ absurd (ground arith)
            | inl exists ↦
                let found : HasArrayAt b.layout.sub_arrays object.p_offset step =
                  elim (Option-cases (find_at b.layout.sub_arrays object.p_offset step)) [
                    | inl missing ↦
                        search_before-HasArrayAt b.layout.sub_arrays object.p_offset step
                          (ground arith)
                    | inr (at, there) ↦
                        find_at-HasArrayAt b.layout.sub_arrays object.p_offset step (ground arith)
                  ] in
                (ground arith, ground arith, ground arith, λ e. absurd (ground arith), found)
          ]
    ]
