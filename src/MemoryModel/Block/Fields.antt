-- ===== src/MemoryModel/Block/Fields.antt =====
-- `indexMemoryBlock` of src/PointerAnalysis/Models/MemoryModel/FieldSensitive/MemBlock.h gives one object
-- for all offsets of a field.
use open_race.Prelude.{
  ℕ, zero, suc, ◌==◌, Bool, true, false, not, ◌||◌, Option, some, List, [], ◌∷◌, ◌≡◌, leb, inl, inr,
  refl, ap, sym, ◌∙◌, get_elem?, arith, Bool-cases, Option-cases,
}
use open_race.Trace.Build.States.{Built, done, fails, out_of_fuel, ◌>>=◌, contains}
use open_race.PointsTo.{modify}
use open_race.MemoryModel.{
  has_array, index_between_arrays, Arrays, no_arrays, array_at, MemLayout, index_physical_offset,
  get_logical_offset,
}
use open_race.MemoryModel.Block.{
  FsObject, AggregateMemBlock, get_or_create, get_field, index_memory_block,
}

pub modify_at :
    (i : ℕ) (x y : Option FsObject) (xs : List (Option FsObject))
    → get_elem? xs i ≡ some y
    → get_elem? (modify i (λ (z : Option FsObject). x) xs) i ≡ some x
unfolding modify
modify_at i x y [] h = absurd (ground arith)
modify_at zero x y (z ∷ xs) h = refl
modify_at (suc i) x y (z ∷ xs) h = modify_at i x y xs h

-- An object that has been given is given again, also for another offset or flag of creation.
get_or_create-again :
    (field p p' : ℕ) (immutable immutable' : Bool) (block block' : AggregateMemBlock) (id id' : ℕ)
    (o : FsObject)
    → get_or_create field p immutable block id ≡ done (some o, block', id')
    → (get_or_create field p' immutable' block' id' ≡ done (some o, block', id'))
      × (block'.layout ≡ block.layout)
unfolding get_or_create
get_or_create-again field p p' immutable immutable' block block' id id' o h =
    elim (Option-cases (get_elem? block.field_objs field)) [
      | inl out ↦ absurd (ground arith)
      | inr (found, at_field) ↦ elim (Option-cases found) [
        | inl empty ↦
            let o1 : FsObject = record { object_id = id; p_offset = p; is_immutable = immutable } in
            let same : o1 ≡ o = ground arith in
            let e1 : block'.field_objs
                ≡ modify field (λ (x : Option FsObject). some o1) block.field_objs =
              ground arith in
            let there : get_elem? block'.field_objs field ≡ some (some o) = rw e1 (
              modify_at field (some o1) found block.field_objs at_field
              ∙ ap (λ (x : FsObject). some (some x)) same) in
            (ground arith, ground arith)
        | inr (o', there) ↦ (ground arith, ground arith)
      ]
    ]

get_field-again :
    (ensure_ptr : Bool) (l q : ℕ) (block block' : AggregateMemBlock) (id id' : ℕ) (o : FsObject)
    → get_field ensure_ptr l q block id ≡ done (some o, block', id')
    → (get_field ensure_ptr l q block' id' ≡ done (some o, block', id'))
      × (block'.layout ≡ block.layout)
unfolding get_field
get_field-again ensure_ptr l q block block' id id' o h =
    elim (Bool-cases (l == 18446744073709551615)) [
      | inl invalid ↦ absurd (ground arith)
      | inr valid ↦ elim (Option-cases (get_logical_offset block.layout.element_layout 0 l)) [
        | inl nowhere ↦ absurd (ground arith)
        | inr (field, there) ↦
            elim (Bool-cases (not ensure_ptr || contains l block.layout.pointer_layout)) [
              | inl allowed ↦
                  let (again, layout) =
                    get_or_create-again field q q block.is_immutable block'.is_immutable block
                      block' id id' o (ground arith) in
                  (ground arith, layout)
              | inr refused ↦ absurd (ground arith)
            ]
      ]
    ]

bind_again :
    (run : Built (ℕ × ℕ)) (ensure_ptr : Bool) (block block' : AggregateMemBlock) (id id' : ℕ)
    (o : FsObject)
    → (run >>= λ (found : ℕ × ℕ). get_field ensure_ptr found.0 found.1 block id)
      ≡ done (some o, block', id')
    → ((run >>= λ (found : ℕ × ℕ). get_field ensure_ptr found.0 found.1 block' id')
        ≡ done (some o, block', id'))
      × (block'.layout ≡ block.layout)
bind_again fails ensure_ptr block block' id id' o h = absurd (ground arith)
bind_again out_of_fuel ensure_ptr block block' id id' o h = absurd (ground arith)
bind_again (done (l, q)) ensure_ptr block block' id id' o h =
    get_field-again ensure_ptr l q block block' id id' o h

-- Two offsets that both are 0 or both are not.
repeat_apart :
    (p p' : ℕ) (ensure_ptr : Bool) (block block' : AggregateMemBlock) (id id' : ℕ) (o : FsObject)
    → (p == 0) ≡ (p' == 0)
    → index_physical_offset block.layout p ≡ index_physical_offset block.layout p'
    → index_memory_block p ensure_ptr block id ≡ done (some o, block', id')
    → index_memory_block p' ensure_ptr block' id' ≡ done (some o, block', id')
unfolding index_memory_block
repeat_apart p p' ensure_ptr block block' id id' o zeros same h = elim (Bool-cases (p == 0)) [
  | inl at_start ↦
      let allowed : (not ensure_ptr || contains 0 block.layout.pointer_layout) ≡ true =
        ground arith in
      let (again, layout) =
        get_or_create-again 0 0 0 false false block block' id id' o (ground arith) in
      ground arith
  | inr later ↦
      let (again, layout) =
        bind_again (index_physical_offset block.layout p) ensure_ptr block block' id id' o
          (ground arith) in
      let e : index_physical_offset block'.layout p' ≡ index_physical_offset block.layout p =
        ap (λ (m : MemLayout). index_physical_offset m p') layout ∙ sym same in
      rw (← zeros, later, e) again
]

pub between_at_start : (subs : Arrays) → index_between_arrays subs 0 0 0 ≡ done (0, 0)
unfolding index_between_arrays
between_at_start no_arrays = refl
between_at_start (array_at offset a rest) = ground arith

index_at_start :
    (m : MemLayout) (p : ℕ)
    → (p == 0) ≡ false
    → index_physical_offset m 0 ≡ index_physical_offset m p
    → index_physical_offset m 0 ≡ done (0, 0)
unfolding index_physical_offset
index_at_start m p later same = elim (Bool-cases (has_array m.sub_arrays)) [
  | inr simple ↦ ground arith
  | inl arrays ↦ elim (Bool-cases (leb m.max_p_offset 0)) [
    | inl empty ↦ absurd (ground (arith, same))
    | inr some_size ↦ ground (arith, between_at_start m.sub_arrays)
  ]
]

-- At the layout offset 0 the object of the first field is given.
object_at_start :
    (p : ℕ) (ensure_ptr : Bool) (block block' : AggregateMemBlock) (id id' : ℕ) (o : FsObject)
    → (p == 0) ≡ false
    → index_physical_offset block.layout p ≡ done (0, 0)
    → get_logical_offset block.layout.element_layout 0 0 ≡ some 0
    → index_memory_block p ensure_ptr block id ≡ done (some o, block', id')
    → (get_or_create 0 0 block.is_immutable block id ≡ done (some o, block', id'))
      × ((not ensure_ptr || contains 0 block.layout.pointer_layout) ≡ true)
unfolding index_memory_block get_field
object_at_start p ensure_ptr block block' id id' o later e first h =
    elim (Bool-cases (not ensure_ptr || contains 0 block.layout.pointer_layout)) [
      | inl allowed ↦ (rw (later, e, first, allowed) at h, allowed)
      | inr refused ↦ absurd (ground (arith, rw (later, e, first, refused) at h))
    ]

-- Where an object is given for an offset, the same object is given for each offset that the layout takes
-- to the same field, and nothing is created then. The first field is at the layout offset 0.
pub index_memory_block-again :
    (p p' : ℕ) (ensure_ptr : Bool) (block block' : AggregateMemBlock) (id id' : ℕ) (o : FsObject)
    → get_logical_offset block.layout.element_layout 0 0 ≡ some 0
    → index_physical_offset block.layout p ≡ index_physical_offset block.layout p'
    → index_memory_block p ensure_ptr block id ≡ done (some o, block', id')
    → index_memory_block p' ensure_ptr block' id' ≡ done (some o, block', id')
unfolding index_memory_block get_field
index_memory_block-again p p' ensure_ptr block block' id id' o first same h =
    elim (Bool-cases (p == 0)) [
      | inl at_start ↦ elim (Bool-cases (p' == 0)) [
        | inl at_start' ↦
            repeat_apart p p' ensure_ptr block block' id id' o (at_start ∙ sym at_start') same h
        | inr later' ↦
            let zero_p : p ≡ 0 = ground arith in
            let start = index_at_start block.layout p' later' (rw zero_p at same) in
            let allowed : (not ensure_ptr || contains 0 block.layout.pointer_layout) ≡ true =
              ground arith in
            let (again, layout) =
              get_or_create-again 0 0 0 false block'.is_immutable block block' id id' o
                (ground arith) in
            let e : index_physical_offset block'.layout p' ≡ done (0, 0) =
              ap (λ (m : MemLayout). index_physical_offset m p') layout
              ∙ sym (rw zero_p at same)
              ∙ start in
            let there : get_logical_offset block'.layout.element_layout 0 0 ≡ some 0 =
              ap (λ (m : MemLayout). get_logical_offset m.element_layout 0 0) layout ∙ first in
            let allowed' : (not ensure_ptr || contains 0 block'.layout.pointer_layout) ≡ true =
              ap (λ (m : MemLayout). not ensure_ptr || contains 0 m.pointer_layout) layout
              ∙ allowed in
            rw (later', e, there, allowed') again
      ]
      | inr later ↦ elim (Bool-cases (p' == 0)) [
        | inr later' ↦
            repeat_apart p p' ensure_ptr block block' id id' o (later ∙ sym later') same h
        | inl at_start' ↦
            let zero_p : p' ≡ 0 = ground arith in
            let start = index_at_start block.layout p later (sym (rw zero_p at same)) in
            let e : index_physical_offset block.layout p ≡ done (0, 0) =
              rw zero_p at same ∙ start in
            let (given, allowed) =
              object_at_start p ensure_ptr block block' id id' o later e first h in
            let (again, layout) =
              get_or_create-again 0 0 0 block.is_immutable false block block' id id' o given in
            let allowed' : (not ensure_ptr || contains 0 block'.layout.pointer_layout) ≡ true =
              ap (λ (m : MemLayout). not ensure_ptr || contains 0 m.pointer_layout) layout
              ∙ allowed in
            rw (at_start', allowed') again
      ]
    ]
