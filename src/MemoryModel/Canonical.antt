-- ===== src/MemoryModel/Canonical.antt =====
-- `indexPhysicalOffset` of src/PointerAnalysis/Models/MemoryModel/FieldSensitive/Layout/Layouts.cpp takes
-- each offset to one that stays.
use open_race.Prelude.{
  ℕ, zero, suc, false, true, ◌+◌, ◌-◌, ◌%◌, ◌≤◌, ◌<◌, leb, ◌≡◌, inl, inr, refl, ap, ◌∙◌, arith,
  Bool-cases,
}
use open_race.Trace.Build.States.{Built, done}
use native.Mathlib.Nat.{mod-lt, mod-le, mod-eq_of_lt}
use open_race.MemoryModel.{
  word, ArrayLayout, Arrays, array, no_arrays, array_at, get_array_size, layout_size, index_array,
  index_between_arrays, MemLayout, has_array, index_physical_offset,
}

-- The arrays are apart, in ascending order and not empty, and end before a limit; an array's layout is
-- no larger than the array.
unfoldable mutual
  pub FitsArray : ArrayLayout → Type 0
  FitsArray (array num size layout subs) = (0 < size) × (size < word) × FitsArrays subs 0 size

  pub FitsArrays : Arrays → ℕ → ℕ → Type 0
  FitsArrays no_arrays cur limit = Unit
  FitsArrays (array_at offset a rest) cur limit =
      (cur ≤ offset)
      × (0 < get_array_size a)
      × (offset + get_array_size a ≤ limit)
      × (0 < layout_size a)
      × (layout_size a ≤ get_array_size a)
      × FitsArray a
      × FitsArrays rest (offset + get_array_size a) limit

-- The layout offset and the offset that stays.
abbrev pub Indexed : (ℕ → Built (ℕ × ℕ)) → ℕ → ℕ → Type 0
Indexed index low p =
    (l : ℕ) × (q : ℕ) × (index p ≡ done (l, q))
    × (index q ≡ done (l, q))
    × (low ≤ q)
    × (q ≤ p)
    × (l ≤ q)

module _ (offset : ℕ) (a : ArrayLayout) (rest : Arrays) (l cur p : ℕ) where
  at_before :
      p ≤ offset → index_between_arrays (array_at offset a rest) l cur p ≡ done (l + (p - cur), p)
  unfolding index_between_arrays
  at_before h = ground arith

  at_beyond :
      offset < p
      → cur ≤ offset
      → offset + get_array_size a < word
      → offset + get_array_size a ≤ p
      → 0 < layout_size a
      → index_between_arrays (array_at offset a rest) l cur p
        ≡ index_between_arrays rest
            (l + (offset - cur) + layout_size a)
            (offset + get_array_size a)
            p
  unfolding index_between_arrays
  at_beyond h apart small ends pos =
      let e : (offset + get_array_size a) % word ≡ offset + get_array_size a = omega arith in
      rw e (ground arith)

  at_inside :
      (r q : ℕ)
      → offset < p
      → cur ≤ offset
      → offset + get_array_size a < word
      → p < offset + get_array_size a
      → index_array a (p - offset) ≡ done (r, q)
      → index_between_arrays (array_at offset a rest) l cur p
        ≡ done (r + (l + (offset - cur)), offset + q)
  unfolding index_between_arrays
  at_inside r q h apart small ends e =
      let e' : (offset + get_array_size a) % word ≡ offset + get_array_size a = omega arith in
      rw e' (ground arith)

done_both : (x y u w : ℕ) → x ≡ u → y ≡ w → ◌≡◌ {A = Built (ℕ × ℕ)} (done (x, y)) (done (u, w))
done_both x y u w p q = rw (p, q) refl

simple_at :
    (num size layout p : ℕ)
    → 0 < size
    → p ≤ get_array_size (array num size layout no_arrays)
    → index_array (array num size layout no_arrays) p ≡ done (p % size, p % size)
unfolding index_array
simple_at num size layout p pos h = ground arith

nested_at :
    (num size layout offset : ℕ) (a : ArrayLayout) (rest : Arrays) (p : ℕ)
    → 0 < size
    → index_array (array num size layout (array_at offset a rest)) p
      ≡ index_between_arrays (array_at offset a rest) 0 0 (p % size)
unfolding index_array
nested_at num size layout offset a rest p pos = ground arith

at_end : (l cur p : ℕ) → cur ≤ p → l ≤ cur → Indexed (index_between_arrays no_arrays l cur) cur p
unfolding index_between_arrays
at_end l cur p low under = (l + (p - cur), p, refl, refl, low, omega arith, omega arith)

-- The three cases of the loop's body.
module _ (offset : ℕ) (a : ArrayLayout) (rest : Arrays) (l cur p : ℕ) (apart : cur ≤ offset)
    (low : cur ≤ p) (under : l ≤ cur) where
  before_Indexed : p ≤ offset → Indexed (index_between_arrays (array_at offset a rest) l cur) cur p
  before_Indexed h =
      let e = at_before offset a rest l cur p h in
      (l + (p - cur), p, e, e, low, omega arith, omega arith)

  beyond_Indexed :
      0 < get_array_size a
      → offset + get_array_size a < word
      → offset + get_array_size a ≤ p
      → 0 < layout_size a
      → Indexed
          (index_between_arrays rest
            (l + (offset - cur) + layout_size a)
            (offset + get_array_size a))
          (offset + get_array_size a)
          p
      → Indexed (index_between_arrays (array_at offset a rest) l cur) cur p
  beyond_Indexed some_size small ends pos (l', q, e, e', low', high, under') = (
    l',
    q,
    at_beyond offset a rest l cur p (omega arith) apart small ends pos ∙ e,
    at_beyond offset a rest l cur q (omega arith) apart small low' pos ∙ e',
    omega arith,
    high,
    under',
  )

  inside_Indexed :
      offset < p
      → offset + get_array_size a < word
      → p < offset + get_array_size a
      → Indexed (index_array a) 0 (p - offset)
      → Indexed (index_between_arrays (array_at offset a rest) l cur) cur p
  inside_Indexed h small ends (r, zero, e, e', low', high, under') = (
    r + (l + (offset - cur)),
    offset + 0,
    at_inside offset a rest l cur p r 0 h apart small ends e,
    at_before offset a rest l cur (offset + 0) (omega arith) ∙ done_both _ _ _ _ (omega arith) refl,
    omega arith,
    omega arith,
    omega arith,
  )
  inside_Indexed h small ends (r, suc q, e, e', low', high, under') = (
    r + (l + (offset - cur)),
    offset + suc q,
    at_inside offset a rest l cur p r (suc q) h apart small ends e,
    at_inside offset a rest l cur (offset + suc q) r (suc q) (omega arith) apart small (omega arith)
        (ap (index_array a) back ∙ e'),
    omega arith,
    omega arith,
    omega arith,
  )
    where
      back : offset + suc q - offset ≡ suc q
      back = omega arith

-- The arrays in an element, or none.
simple_Indexed :
    (num size layout p : ℕ)
    → 0 < size
    → p < get_array_size (array num size layout no_arrays)
    → Indexed (index_array (array num size layout no_arrays)) 0 p
simple_Indexed num size layout p pos below =
    let lt : p % size < size = mod-lt p pos in
    let le : p % size ≤ p = mod-le p size in
    (
      p % size,
      p % size,
      simple_at num size layout p pos (omega arith),
      simple_at num size layout (p % size) pos (omega arith)
          ∙ done_both _ _ _ _ (mod-eq_of_lt lt) (mod-eq_of_lt lt),
      omega arith,
      le,
      omega arith,
    )

nested_Indexed :
    (num size layout offset : ℕ) (a : ArrayLayout) (rest : Arrays) (p : ℕ)
    → 0 < size
    → Indexed (index_between_arrays (array_at offset a rest) 0 0) 0 (p % size)
    → Indexed (index_array (array num size layout (array_at offset a rest))) 0 p
nested_Indexed num size layout offset a rest p pos (l, q, e, e', low, high, under) =
    let lt : p % size < size = mod-lt p pos in
    let le : p % size ≤ p = mod-le p size in
    let stays : q % size ≡ q = mod-eq_of_lt (omega arith) in
    (
      l,
      q,
      nested_at num size layout offset a rest p pos ∙ e,
      nested_at num size layout offset a rest q pos
          ∙ ap (index_between_arrays (array_at offset a rest) 0 0) stays
          ∙ e',
      low,
      omega arith,
      under,
    )

mutual
  unfolding FitsArray FitsArrays

  index_array-Indexed :
      (a : ArrayLayout) (p : ℕ) → FitsArray a → p < get_array_size a → Indexed (index_array a) 0 p
  index_array-Indexed (array num size layout no_arrays) p (pos, small, fits) below =
      simple_Indexed num size layout p pos below
  index_array-Indexed (array num size layout (array_at offset a rest)) p (pos, small, fits) below =
      nested_Indexed num size layout offset a rest p pos (
        index_between_arrays-Indexed (array_at offset a rest) 0 0 size (p % size) fits small
          (omega arith) (omega arith) (mod-lt p pos))

  index_between_arrays-Indexed :
      (subs : Arrays) (l cur limit p : ℕ)
      → FitsArrays subs cur limit
      → limit < word
      → cur ≤ p
      → l ≤ cur
      → p < limit
      → Indexed (index_between_arrays subs l cur) cur p
  index_between_arrays-Indexed no_arrays l cur limit p fits w low under below =
      at_end l cur p low under
  index_between_arrays-Indexed (array_at offset a rest) l cur limit p
        (apart, some_size, ends, some_layout, small, fit, fits) w low under below =
      elim (Bool-cases (leb p offset)) [
        | inl before ↦ before_Indexed offset a rest l cur p apart low under (ground arith)
        | inr after ↦ elim (Bool-cases (leb (offset + get_array_size a) p)) [
          | inl beyond ↦
              beyond_Indexed offset a rest l cur p apart low under some_size (omega arith)
                (ground arith) some_layout
                (index_between_arrays-Indexed rest (l + (offset - cur) + layout_size a)
                  (offset + get_array_size a) limit p fits w (ground arith) (omega arith) below)
          | inr inside ↦
              inside_Indexed offset a rest l cur p apart low under (ground arith) (omega arith)
                (ground arith) (index_array-Indexed a (p - offset) fit (ground arith))
        ]
      ]

-- Where the arrays of a layout fit below its size, `indexPhysicalOffset` meets no assertion that fails.
-- It takes each physical offset to one that is not larger and that it takes to itself, with the same
-- layout offset. That is the offset itself where there are no arrays. With arrays it is the largest
-- number exactly for the offsets that are not below the size, and for the others it is not larger than
-- the offset that stays.
pub index_physical_offset-stays :
    (m : MemLayout) (p : ℕ)
    → FitsArrays m.sub_arrays 0 m.max_p_offset
    → m.max_p_offset < word
    → (l : ℕ) × (q : ℕ) × (index_physical_offset m p ≡ done (l, q))
      × (index_physical_offset m q ≡ done (l, q))
      × (q ≤ p)
      × (has_array m.sub_arrays ≡ false → (l ≡ p) × (q ≡ p))
      × (has_array m.sub_arrays ≡ true → p < m.max_p_offset → (l ≤ q) × (l < word - 1))
      × (has_array m.sub_arrays ≡ true → m.max_p_offset ≤ p → (l ≡ word - 1) × (q ≡ p))
unfolding index_physical_offset
index_physical_offset-stays m p fits small = elim (Bool-cases (has_array m.sub_arrays)) [
  | inl arrays ↦ elim (Bool-cases (leb m.max_p_offset p)) [
    | inl beyond ↦ (
      word - 1,
      p,
      ground arith,
      ground arith,
      omega arith,
      λ h. absurd (ground arith),
      λ h k. absurd (ground arith),
      λ h k. (refl, refl),
    )
    | inr below ↦
        let (l, q, e, e', low, high, under) =
          index_between_arrays-Indexed m.sub_arrays 0 0 m.max_p_offset p fits small (omega arith)
            (omega arith) (ground arith) in
        (
          l,
          q,
          ground arith,
          ground arith,
          high,
          λ h. absurd (ground arith),
          λ h k. (under, omega arith),
          λ h k. absurd (ground arith),
        )
  ]
  | inr none_there ↦ (
    p,
    p,
    ground arith,
    ground arith,
    omega arith,
    λ h. (refl, refl),
    λ h k. absurd (ground arith),
    λ h k. absurd (ground arith),
  )
]
