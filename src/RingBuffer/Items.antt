-- ===== src/RingBuffer/Items.antt =====
-- The iteration over the buffer of src/PointerAnalysis/Context/PtrRingBuffer.h and the equality of
-- contexts in KCallSite.h.
use native.Mathlib.Nat.{mod-eq_of_lt, mod_self, mod-lt}
use open_race.Prelude.{
  All, ℕ, zero, suc, ◌+◌, ◌-◌, ◌%◌, ◌≤◌, ◌<◌, ◌==◌, ltb, if◌then◌else◌, true, Option, none, some,
  List, [], ◌∷◌, ◌≡◌, ◌⊎◌, inl, inr, ◌↔◌, refl, length, arith, Bool-cases, sym, ap, ◌∙◌,
}
use open_race.RingBuffer.{
  push, store_at, get_last, get_last_from, is_empty, PtrRingBuffer, slot, items_from, items,
  next_index, pointer_eq, call_site_eq,
}

mod_step :
    (n i : ℕ) → i < n → ((i + 1 ≡ n) × ((i + 1) % n ≡ 0)) ⊎ ((i + 1 < n) × ((i + 1) % n ≡ i + 1))
mod_step n i h = elim (Bool-cases (ltb (i + 1) n)) [
  | inl less ↦ inr (ground arith, mod-eq_of_lt (ground arith))
  | inr not_less ↦ let e : i + 1 ≡ n = ground arith in inl (e, ap (λ z. z % n) e ∙ mod_self n)
]

-- The items that are left at an index.
abbrev left : ℕ → ℕ → ℕ → ℕ
left size last index = if ltb index last then last - index else (size - index) + last

module _ (size : ℕ) (b : PtrRingBuffer) (valid : b.last < size) where
  next_index-left :
      (index : ℕ)
      → index < size
      → ((next_index size b.last index ≡ size) × (left size b.last index ≡ 1))
        ⊎ ((next_index size b.last index < size)
            × (left size b.last index ≡ suc (left size b.last (next_index size b.last index))))
  unfolding next_index
  next_index-left index h = elim (mod_step size index h) [
    | inl (wraps, e) ↦ elim (Bool-cases (0 == b.last)) [
      | inl ends ↦ inl (ground (arith, e, wraps, ends), ground arith)
      | inr goes ↦
          let e' : next_index size b.last index ≡ 0 = ground (arith, e, goes) in
          inr (ground arith, ground arith)
    ]
    | inr (stays, e) ↦ elim (Bool-cases (index + 1 == b.last)) [
      | inl ends ↦ inl (ground (arith, e, ends), ground arith)
      | inr goes ↦
          let e' : next_index size b.last index ≡ index + 1 = ground (arith, e, goes) in
          inr (ground arith, ground arith)
    ]
  ]

  items_from-end : (fuel : ℕ) → items_from size fuel b size ≡ some []
  unfolding items_from
  items_from-end zero = ground arith
  items_from-end (suc fuel) = ground arith

  items_from-left :
      (fuel index : ℕ)
      → index < size
      → left size b.last index ≤ fuel
      → (ps : List (Option ℕ)) × (items_from size fuel b index ≡ some ps)
        × (length ps ≡ left size b.last index)
  unfolding items_from
  items_from-left zero index h k = absurd (ground arith)
  items_from-left (suc fuel) index h k = elim (next_index-left index h) [
    | inl (ends, one) ↦
        let last_one = items_from-end fuel in
        (slot b index ∷ [], ground (arith, last_one, ends), omega (arith, one))
    | inr (inside, less) ↦
        let (ps, e, l) =
          items_from-left fuel (next_index size b.last index) inside (omega (arith, less, k)) in
        (slot b index ∷ ps, ground (arith, e), omega (arith, l, less))
  ]

  -- The range-based loop over a ring buffer ends, and sees as many items as the buffer has slots.
  pub items-length : (ps : List (Option ℕ)) × (items size b ≡ some ps) × (length ps ≡ size)
  unfolding items
  items-length =
      let (ps, e, l) = items_from-left size b.last valid (ground arith) in (ps, e, ground arith)

pointer_eq_iff : (p q : Option ℕ) → (pointer_eq p q ≡ true) ↔ (p ≡ q)
unfolding pointer_eq
pointer_eq_iff none none = (λ h. refl, λ h. refl)
pointer_eq_iff none (some j) = (λ h. cc, λ h. cc)
pointer_eq_iff (some i) none = (λ h. cc, λ h. cc)
pointer_eq_iff (some i) (some j) = ground arith

call_site_eq_iff :
    (ps qs : List (Option ℕ)) → length ps ≡ length qs → (call_site_eq ps qs ≡ true) ↔ (ps ≡ qs)
unfolding call_site_eq
call_site_eq_iff [] [] h = (λ e. refl, λ e. refl)
call_site_eq_iff [] (q ∷ qs) h = absurd (omega (arith, h))
call_site_eq_iff (p ∷ ps) [] h = absurd (omega (arith, h))
call_site_eq_iff (p ∷ ps) (q ∷ qs) h = ground (arith, pointer_eq_iff p q, call_site_eq_iff ps qs)

-- For two buffers of one size, the equality of contexts is that of the items that their loops see.
pub call_site_eq-items :
    (size : ℕ) (b c : PtrRingBuffer)
    → b.last < size
    → c.last < size
    → (ps : List (Option ℕ)) × (qs : List (Option ℕ)) × (items size b ≡ some ps)
      × (items size c ≡ some qs)
      × ((call_site_eq ps qs ≡ true) ↔ (ps ≡ qs))
call_site_eq-items size b c h k =
    let (ps, e, l) = items-length size b h in
    let (qs, f, m) = items-length size c k in (ps, qs, e, f, call_site_eq_iff ps qs (l ∙ sym m))

get_last_from-some : (i : ℕ) (ps : List (Option ℕ)) → (j : ℕ) × (get_last_from (some i) ps ≡ some j)
unfolding get_last_from
get_last_from-some i [] = (i, refl)
get_last_from-some i (none ∷ ps) = get_last_from-some i ps
get_last_from-some i (some j ∷ ps) = get_last_from-some j ps

-- A context is empty exactly where all its items are null.
is_empty_iff : (ps : List (Option ℕ)) → (is_empty ps ≡ true) ↔ All (λ p. p ≡ none) ps
unfolding is_empty get_last get_last_from
is_empty_iff [] = (λ h. tt, λ h. refl)
is_empty_iff (none ∷ ps) = let (to, from) = is_empty_iff ps in (λ h. (refl, to h), λ (e, h). from h)
is_empty_iff (some i ∷ ps) =
    let (j, e) = get_last_from-some i ps in (λ h. absurd (ground arith), λ (h, _). cc)

length-store_at :
    (qs : List (Option ℕ)) (n : ℕ) (p : Option ℕ) → length (store_at qs n p) ≡ length qs
unfolding store_at
length-store_at [] n p = refl
length-store_at (q ∷ qs) zero p = refl
length-store_at (q ∷ qs) (suc n) p = ap suc (length-store_at qs n p)

-- A push keeps the size of the buffer and the index inside it.
pub push-valid :
    (size : ℕ) (b : PtrRingBuffer) (p : Option ℕ)
    → b.last < size
    → length b.buffer ≡ size
    → ((push size b p).1.last < size) × (length (push size b p).1.buffer ≡ size)
unfolding push
push-valid size b p h k =
    (mod-lt (b.last + 1) (omega (arith, h)), length-store_at b.buffer b.last p ∙ k)
