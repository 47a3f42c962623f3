-- ===== src/Contexts.antt =====
-- The contexts of the pointer analysis that are kept once each, in src/PointerAnalysis/Context:
-- KCallSite.h, KOrigin.h and HybridCtx.h with their CtxTrait.
pub mod Once
use open_race.Prelude.{
  ℕ, zero, suc, ◌+◌, ◌==◌, if◌then◌else◌, Bool, true, false, ◌&&◌, Option, none, some, List, [],
  ◌∷◌, ◌++◌, length, get_elem?,
}
use open_race.RingBuffer.{PtrRingBuffer, empty_buffer, push, items, call_site_eq}

-- A pointer to a context: to `initCtx`, to `globCtx` or to an element of `ctxSet`.
pub data Ctx : Type 0 where
  initial_ctx global_ctx : Ctx
  in_set : ℕ → Ctx

unfoldable pub ctx_eq : Ctx → Ctx → Bool
ctx_eq initial_ctx initial_ctx = true
ctx_eq global_ctx global_ctx = true
ctx_eq (in_set i) (in_set j) = i == j
ctx_eq _ _ = false

-- `std::unordered_set::emplace`: the place of the equal element or of the new one, and the set after it.
module _ {ℓ} {A : Type ℓ} (eq : A → A → Bool) where
  unfoldable pub emplace_from : ℕ → A → List A → ℕ × List A
  emplace_from i x [] = (i, x ∷ [])
  emplace_from i x (y ∷ ys) =
      let (j, zs) = emplace_from (i + 1) x ys in if eq x y then (i, y ∷ ys) else (j, y ∷ zs)

  unfoldable pub emplace : A → List A → ℕ × List A
  unfolding emplace_from
  emplace = emplace_from 0

module _ (size : ℕ) where
  -- `KCallSite::operator==`
  unfoldable pub same_call_sites : PtrRingBuffer → PtrRingBuffer → Bool
  unfolding items call_site_eq
  same_call_sites b c = elim (items size b) [
    | none ↦ false
    | some ps ↦ elim (items size c) [ none ↦ false | some qs ↦ call_site_eq ps qs ]
  ]

  unfoldable pub buffer_of : List PtrRingBuffer → Ctx → Option PtrRingBuffer
  unfolding empty_buffer
  buffer_of set initial_ctx = some (empty_buffer size)
  buffer_of set global_ctx = some (empty_buffer size)
  buffer_of set (in_set i) = get_elem? set i

  -- `CtxTrait<KCallSite>::contextEvolve`; `none` where the instruction is no call, or for a pointer to
  -- no context.
  unfoldable pub call_site_evolve :
      (ℕ → Bool) → Ctx → ℕ → List PtrRingBuffer → Option (Ctx × List PtrRingBuffer)
  unfolding buffer_of emplace same_call_sites push
  call_site_evolve is_call prev inst set = elim (buffer_of set prev) [
    | none ↦ none
    | some b ↦
        if is_call inst
        then (let (i, set') = emplace same_call_sites (push size b (some inst)).1 set in
            some (in_set i, set'))
        else none
  ]

  -- `CtxTrait<KOrigin>::contextEvolve` for L = 1, with the callback.
  unfoldable pub origin_evolve :
      (Ctx → ℕ → Bool)
      → (ℕ → Bool)
      → Ctx
      → ℕ
      → List PtrRingBuffer
      → Option (Ctx × List PtrRingBuffer)
  unfolding call_site_evolve
  origin_evolve callback is_call prev inst set =
      if callback prev inst then call_site_evolve is_call prev inst set else some (prev, set)

-- The sets of contexts of the origins, of the call sites and of the pairs of both.
pub record HybridSets : Type 0 where
  pub origins : List PtrRingBuffer
  pub call_sites : List PtrRingBuffer
  pub pairs : List (Ctx × Ctx)

-- `isTupleEqual`, which compares pointers.
unfoldable pub same_pair : Ctx × Ctx → Ctx × Ctx → Bool
unfolding ctx_eq
same_pair (o1, s1) (o2, s2) = ctx_eq o1 o2 && ctx_eq s1 s2

unfoldable pub pair_of : List (Ctx × Ctx) → Ctx → Option (Ctx × Ctx)
pair_of pairs initial_ctx = some (initial_ctx, initial_ctx)
pair_of pairs global_ctx = some (global_ctx, global_ctx)
pair_of pairs (in_set i) = get_elem? pairs i

-- `CtxTrait<HybridCtx>::contextEvolve` for an origin and a call site context of the sizes.
unfoldable pub hybrid_evolve :
    (origin_size call_site_size : ℕ)
    → (Ctx → ℕ → Bool)
    → (ℕ → Bool)
    → Ctx
    → ℕ
    → HybridSets
    → Option (Ctx × HybridSets)
unfolding pair_of origin_evolve call_site_evolve emplace same_pair
hybrid_evolve origin_size call_site_size callback is_call prev inst s =
    elim (pair_of s.pairs prev) [
      | none ↦ none
      | some (origin, site) ↦
          elim (origin_evolve origin_size callback is_call origin inst s.origins) [
            | none ↦ none
            | some (origin', origins') ↦
                elim (call_site_evolve call_site_size is_call site inst s.call_sites) [
                  | none ↦ none
                  | some (site', sites') ↦
                      let (i, pairs') = emplace same_pair (origin', site') s.pairs in
                      some (
                        in_set i,
                        record { origins = origins'; call_sites = sites'; pairs = pairs' },
                      )
                ]
          ]
    ]
