-- ===== src/MemoryModel.antt =====
-- The field-sensitive memory model: the layouts of src/PointerAnalysis/Models/MemoryModel/
-- FieldSensitive/Layout (ArrayLayout.h, MemLayout.h, Layouts.cpp).
pub mod Canonical
pub mod Block
pub mod Indexing
use open_race.Prelude.{
  ℕ, zero, suc, ◌+◌, ◌-◌, ◌*◌, ◌%◌, ◌==◌, ltb, leb, if◌then◌else◌, Bool, true, false, not, ◌&&◌,
  Option, none, some, List, [], ◌∷◌, ◌++◌, length, get_elem?,
}
use open_race.Trace.Build.States.{Built, done, fails, ◌>>=◌, contains}

-- A `size_t` has 64 bits.
abbrev pub word : ℕ
word = 18446744073709551616

-- An array: the number of its elements, their size, the size of its layout and the arrays in an
-- element, each with its physical offset, in ascending order.
mutual
  pub data ArrayLayout : Type 0 where
    array : ℕ → ℕ → ℕ → Arrays → ArrayLayout

  pub data Arrays : Type 0 where
    no_arrays : Arrays
    array_at : ℕ → ArrayLayout → Arrays → Arrays

unfoldable pub get_array_size : ArrayLayout → ℕ
get_array_size (array num size layout subs) =
    if num == word - 1 then word - 1 else (num * size) % word

unfoldable pub layout_size : ArrayLayout → ℕ
layout_size (array num size layout subs) = layout

-- The results are the layout offset and the physical offset that the reference holds in the end.
-- A sum stays below the word where the offsets do.
unfoldable mutual
  unfolding get_array_size layout_size

  pub index_array : ArrayLayout → ℕ → Built (ℕ × ℕ)
  index_array (array num size layout no_arrays) p =
      if leb p (get_array_size (array num size layout no_arrays)) && ltb 0 size
      then done (p % size, p % size)
      else fails
  index_array (array num size layout (array_at offset a rest)) p =
      let inside = index_between_arrays (array_at offset a rest) 0 0 (p % size) in
      if ltb 0 size then inside else fails

  pub index_between_arrays : Arrays → ℕ → ℕ → ℕ → Built (ℕ × ℕ)
  index_between_arrays no_arrays l cur p = done (l + (p - cur), p)
  index_between_arrays (array_at offset a rest) l cur p =
      let end = (offset + get_array_size a) % word in
      let beyond = index_between_arrays rest (l + (offset - cur) + layout_size a) end p in
      let inside = index_array a (p - offset) in
      if leb p offset
      then done (l + (p - cur), p)
      else if ltb offset cur
      then fails
      else if leb end p
      then (if layout_size a == 0 then fails else beyond)
      else (inside >>= λ (found : ℕ × ℕ). done (found.0 + (l + (offset - cur)), offset + found.1))

-- MemLayout, with the offsets of the elements in ascending order and those of the pointers.
pub record MemLayout : Type 0 where
  pub element_layout : List ℕ
  pub pointer_layout : List ℕ
  pub sub_arrays : Arrays
  pub max_p_offset : ℕ

unfoldable pub has_array : Arrays → Bool
has_array no_arrays = false
has_array (array_at offset a rest) = true

unfoldable pub index_physical_offset : MemLayout → ℕ → Built (ℕ × ℕ)
unfolding has_array
index_physical_offset m p =
    if not (has_array m.sub_arrays)
    then done (p, p)
    else if leb m.max_p_offset p
    then done (word - 1, p)
    else index_between_arrays m.sub_arrays 0 0 p

-- The number of an element among the elements; `none` is -1.
unfoldable pub get_logical_offset : List ℕ → ℕ → ℕ → Option ℕ
get_logical_offset [] num l = none
get_logical_offset (element ∷ elements) num l =
    if element == l then some num else get_logical_offset elements (suc num) l
