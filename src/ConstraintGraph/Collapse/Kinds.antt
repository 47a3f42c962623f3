-- ===== src/ConstraintGraph/Collapse/Kinds.antt =====
-- The kinds of constraints in src/PointerAnalysis/Graph/ConstraintGraph/CGNodeBase.h, and chains of
-- fallible steps.
use open_race.Prelude.{ℕ, zero, suc, true, ◌||◌, ◌≡◌, refl, ap, ◌∙◌, arith, ==_iff}
use open_race.Trace.Build.States.{Built, done, fails, out_of_fuel, ◌>>=◌}
use open_race.ConstraintGraph.{
  Constraints, load, store, copy, addr_of, offset, special, index, same_kind,
}

of_index : ℕ → Constraints
of_index zero = load
of_index (suc zero) = store
of_index (suc (suc zero)) = copy
of_index (suc (suc (suc zero))) = addr_of
of_index (suc (suc (suc (suc zero)))) = offset
of_index (suc (suc (suc (suc (suc i))))) = special

of_index-index : (k : Constraints) → of_index (index k) ≡ k
unfolding of_index index
of_index-index load = refl
of_index-index store = refl
of_index-index copy = refl
of_index-index addr_of = refl
of_index-index offset = refl
of_index-index special = refl

pub same_kind-eq : (k l : Constraints) → same_kind k l ≡ true → k ≡ l
unfolding same_kind
same_kind-eq k l h =
    let e : index k ≡ index l = ground (arith, ==_iff (index k) (index l)) in
    cc (of_index-index k, of_index-index l, ap of_index e)

pub every_kind :
    (l : Constraints)
    → (((((same_kind load l || same_kind store l) || same_kind copy l) || same_kind addr_of l)
          || same_kind offset l)
        || same_kind special l)
      ≡ true
unfolding same_kind index
every_kind load = refl
every_kind store = refl
every_kind copy = refl
every_kind addr_of = refl
every_kind offset = refl
every_kind special = refl

module _ {ℓ} {A : Type ℓ} where
  bind_assoc : (m : Built A) (f g : A → Built A) → (m >>= λ x. f x >>= g) ≡ ((m >>= f) >>= g)
  bind_assoc fails f g = refl
  bind_assoc out_of_fuel f g = refl
  bind_assoc (done x) f g = refl

  pub bind_assoc5 :
      (m : Built A) (f g h k l : A → Built A)
      → (m >>= λ x. f x >>= λ y. g y >>= λ z. h z >>= λ u. k u >>= l)
        ≡ (((((m >>= f) >>= g) >>= h) >>= k) >>= l)
  bind_assoc5 m f g h k l =
      bind_assoc m f (λ y. g y >>= λ z. h z >>= λ u. k u >>= l)
      ∙ bind_assoc (m >>= f) g (λ z. h z >>= λ u. k u >>= l)
      ∙ bind_assoc ((m >>= f) >>= g) h (λ u. k u >>= l)
      ∙ bind_assoc (((m >>= f) >>= g) >>= h) k l
