-- ===== src/MemoryModel/Indexing/Special.antt =====
-- `initializeOffsetWith` of src/PointerAnalysis/Models/MemoryModel/FieldSensitive/MemBlock.h puts an object
-- where `getObjectAt` finds it.
use open_race.Prelude.{
  ℕ, ◌-◌, ◌==◌, ltb, if◌then◌else◌, Bool, false, Option, none, some, ◌≡◌, inl, inr, refl, ap, ◌∙◌,
  arith, get_elem?, Bool-cases, Option-cases,
}
use open_race.Trace.Build.States.{Built, done, fails, out_of_fuel, ◌>>=◌}
use open_race.PointsTo.{modify}
use open_race.MemoryModel.{word, MemLayout, index_physical_offset, get_logical_offset}
use open_race.MemoryModel.Block.{
  FsObject, AggregateMemBlock, get_or_create, get_field, index_memory_block,
}
use open_race.MemoryModel.Block.Fields.{modify_at}
use open_race.MemoryModel.Indexing.{
  aggregate_block, put_object, initialize_offset_with, get_object_at,
}

put_object-get_or_create :
    (field q : ℕ) (o : FsObject) (immutable : Bool) (b b' : AggregateMemBlock) (id : ℕ)
    → put_object field o b ≡ done b'
    → (get_or_create field q immutable b' id ≡ done (some o, b', id)) × (b'.layout ≡ b.layout)
unfolding put_object get_or_create
put_object-get_or_create field q o immutable b b' id h =
    elim (Option-cases (get_elem? b.field_objs field)) [
      | inl out ↦ absurd (ground arith)
      | inr (found, at_field) ↦ elim (Option-cases found) [
        | inl empty ↦
            let e : b'.field_objs ≡ modify field (λ (x : Option FsObject). some o) b.field_objs =
              ground arith in
            let there : get_elem? b'.field_objs field ≡ some (some o) =
              rw e (modify_at field (some o) found b.field_objs at_field) in
            (ground arith, ground arith)
        | inr (old, taken) ↦ absurd (ground arith)
      ]
    ]

-- A field that has a number is not at the largest offset.
module _ (o : FsObject) (b b' : AggregateMemBlock) (id : ℕ)
    (last : get_logical_offset b.layout.element_layout 0 (word - 1) ≡ none) where
  abbrev put_at : ℕ × ℕ → Built AggregateMemBlock
  put_at found = elim (get_logical_offset b.layout.element_layout 0 found.0) [
    | none ↦ fails
    | some field ↦ if ltb 0 field then put_object field o b else fails
  ]

  put_at-get_field :
      (l q : ℕ)
      → put_at (l, q) ≡ done b'
      → (get_field false l q b' id ≡ done (some o, b', id)) × (b'.layout ≡ b.layout)
  unfolding get_field
  put_at-get_field l q h = elim (Option-cases (get_logical_offset b.layout.element_layout 0 l)) [
    | inl nowhere ↦ absurd (ground arith)
    | inr (field, there) ↦
        let put : put_object field o b ≡ done b' = ground arith in
        let (found, layout) = put_object-get_or_create field q o b'.is_immutable b b' id put in
        let there' : get_logical_offset b'.layout.element_layout 0 l ≡ some field =
          ap (λ (m : MemLayout). get_logical_offset m.element_layout 0 l) layout ∙ there in
        elim (Bool-cases (l == 18446744073709551615)) [
          | inl invalid ↦ absurd (ground arith)
          | inr valid ↦ (rw (valid, there') found, layout)
        ]
  ]

  put_all :
      (run : Built (ℕ × ℕ))
      → (run >>= put_at) ≡ done b'
      → ((run >>= λ (found : ℕ × ℕ). get_field false found.0 found.1 b' id) ≡ done (some o, b', id))
        × (b'.layout ≡ b.layout)
  put_all fails h = absurd (ground arith)
  put_all out_of_fuel h = absurd (ground arith)
  put_all (done (l, q)) h = put_at-get_field l q h

-- An object that is put at an offset is the object there, in the block that results. No field has the
-- largest number as its layout offset.
pub initialize_offset_with-get_object_at :
    (p : ℕ) (o : FsObject) (b b' : AggregateMemBlock) (id : ℕ)
    → get_logical_offset b.layout.element_layout 0 (word - 1) ≡ none
    → initialize_offset_with p o b ≡ done b'
    → get_object_at false p (aggregate_block b') id ≡ done (some o, aggregate_block b', id)
unfolding initialize_offset_with get_object_at index_memory_block
initialize_offset_with-get_object_at p o b b' id last h = elim (Bool-cases (p == 0)) [
  | inl at_start ↦
      let put : put_object 0 o b ≡ done b' = ground arith in
      let (found, layout) = put_object-get_or_create 0 0 o false b b' id put in
      rw (at_start, found) refl
  | inr later ↦
      let (found, layout) =
        put_all o b b' id last (index_physical_offset b.layout p) (ground arith) in
      let same : index_physical_offset b'.layout p ≡ index_physical_offset b.layout p =
        ap (λ (m : MemLayout). index_physical_offset m p) layout in
      rw (later, same, found) refl
]
