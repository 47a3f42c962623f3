-- ===== src/RingBuffer.antt =====
-- src/PointerAnalysis/Context/PtrRingBuffer.h, and the contexts of KCallSite.h that it holds. A null
-- pointer is `none`, and an instruction is a number.
pub mod Items
use open_race.Prelude.{
  ℕ, zero, suc, ◌+◌, ◌-◌, ◌%◌, ◌≤◌, ◌<◌, ◌==◌, ltb, if◌then◌else◌, Bool, true, false, Option, none,
  some, List, [], ◌∷◌, ◌≡◌, ◌↔◌, refl, length, get_elem?, arith, Bool-cases,
}

pub record PtrRingBuffer : Type 0 where
  pub buffer : List (Option ℕ)
  pub last : ℕ

-- `buffer[n]`
unfoldable pub slot : PtrRingBuffer → ℕ → Option ℕ
slot b n = elim (get_elem? b.buffer n) [ none ↦ none | some p ↦ p ]

unfoldable pub store_at : List (Option ℕ) → ℕ → Option ℕ → List (Option ℕ)
store_at [] n p = []
store_at (q ∷ qs) zero p = p ∷ qs
store_at (q ∷ qs) (suc n) p = q ∷ store_at qs n p

-- `fill(nullptr)`
unfoldable pub nulls : ℕ → List (Option ℕ)
nulls zero = []
nulls (suc n) = none ∷ nulls n

module _ (size : ℕ) where
  unfoldable pub empty_buffer : PtrRingBuffer
  unfolding nulls
  empty_buffer = record { buffer = nulls size; last = 0 }

  -- The item that is popped, and the buffer after it.
  unfoldable pub push : PtrRingBuffer → Option ℕ → Option ℕ × PtrRingBuffer
  unfolding slot store_at
  push b p =
      (slot b b.last, record { buffer = store_at b.buffer b.last p; last = (b.last + 1) % size })

  -- The iterator's `operator++`.
  unfoldable pub next_index : ℕ → ℕ → ℕ
  next_index last index = if (index + 1) % size == last then size else (index + 1) % size

  -- The items from an index on to `end()`; `none` where the fuel runs out.
  unfoldable pub items_from : ℕ → PtrRingBuffer → ℕ → Option (List (Option ℕ))
  unfolding next_index slot
  items_from zero b index = if index == size then some [] else none
  items_from (suc fuel) b index =
      let rest = items_from fuel b (next_index b.last index) in
      if index == size
      then some []
      else elim rest [ none ↦ none | some ps ↦ some (slot b index ∷ ps) ]

  -- The range from `begin()` to `end()`.
  unfoldable pub items : PtrRingBuffer → Option (List (Option ℕ))
  unfolding items_from
  items b = items_from size b b.last

-- `KCallSite::getLast` and `empty` on the items.
unfoldable pub get_last_from : Option ℕ → List (Option ℕ) → Option ℕ
get_last_from found [] = found
get_last_from found (none ∷ ps) = get_last_from found ps
get_last_from found (some i ∷ ps) = get_last_from (some i) ps

unfoldable pub get_last : List (Option ℕ) → Option ℕ
unfolding get_last_from
get_last = get_last_from none

unfoldable pub is_empty : List (Option ℕ) → Bool
unfolding get_last
is_empty ps = elim (get_last ps) [ none ↦ true | some _ ↦ false ]

unfoldable pub pointer_eq : Option ℕ → Option ℕ → Bool
pointer_eq none none = true
pointer_eq none (some j) = false
pointer_eq (some i) none = false
pointer_eq (some i) (some j) = i == j

-- The loop of `KCallSite::operator==` on the items of the two contexts.
unfoldable pub call_site_eq : List (Option ℕ) → List (Option ℕ) → Bool
unfolding pointer_eq
call_site_eq [] qs = true
call_site_eq (p ∷ ps) [] = false
call_site_eq (p ∷ ps) (q ∷ qs) =
    let rest = call_site_eq ps qs in if pointer_eq p q then rest else false
