-- ===== src/Solver/PartialUpdate/Recorded.antt =====
-- The edges that `recordCopyEdge` of src/PointerAnalysis/Solver/PartialUpdateSolver.h records are the
-- ones that `shouldProcessCopy` lets through in the next round.
use open_race.Prelude.{
  ℕ, zero, suc, ◌<◌, ◌==◌, ltb, Bool, true, false, not, ◌&&◌, ◌||◌, none, some, List, [], ◌∷◌, ◌≡◌,
  inl, inr, refl, ap, ◌∙◌, length, get_elem?, arith, ==_iff, Bool-cases,
}
use open_race.Trace.Build.States.{done}
use open_race.PointsTo.{BitVectors, Laws, modify}
use open_race.PointsTo.Inverse.{length-modify}
use open_race.Solver.Copies.{called}
use open_race.Solver.PartialUpdate.{
  resize, Work, hash_edge, reset_if_inside, record_copy_edge, record_all, should_process_copy,
}

-- Whether a bit is not set, with an answer for a bit outside the list.
abbrev pub is_unset : Bool → List Bool → ℕ → Bool
is_unset default bits i = elim (get_elem? bits i) [ none ↦ default | some bit ↦ not bit ]

is_unset-modify :
    (d : Bool) (id i : ℕ) (bits : List Bool)
    → is_unset d (modify id (λ bit. false) bits) i
      ≡ (is_unset d bits i || (i == id && ltb id (length bits)))
unfolding modify
is_unset-modify d id i [] = ground arith
is_unset-modify d zero zero (bit ∷ bits) = ground arith
is_unset-modify d zero (suc i) (bit ∷ bits) = ground arith
is_unset-modify d (suc id) zero (bit ∷ bits) = ground arith
is_unset-modify d (suc id) (suc i) (bit ∷ bits) = ground (arith, is_unset-modify d id i bits)

is_unset-resize :
    (d d' : Bool) (n i : ℕ) (value : Bool) (bits : List Bool)
    → i < n
    → is_unset d bits i ≡ true
    → (d ≡ true → value ≡ false)
    → is_unset d' (resize n value bits) i ≡ true
unfolding resize
is_unset-resize d d' zero i value bits p h e = absurd (omega arith)
is_unset-resize d d' (suc n) zero value [] p h e = ground (arith, e h)
is_unset-resize d d' (suc n) (suc i) value [] p h e =
    is_unset-resize d d' n i value [] (omega (arith, p)) h e
is_unset-resize d d' (suc n) zero value (bit ∷ bits) p h e = ground arith
is_unset-resize d d' (suc n) (suc i) value (bit ∷ bits) p h e =
    is_unset-resize d d' n i value bits (omega (arith, p)) h e

bit_at : (i : ℕ) (bits : List Bool) → i < length bits → (bit : Bool) × (get_elem? bits i ≡ some bit)
bit_at i [] h = absurd (omega (arith, h))
bit_at zero (bit ∷ bits) h = (bit, refl)
bit_at (suc i) (bit ∷ bits) h = bit_at i bits (omega (arith, h))

unset_at : (i : ℕ) (bits : List Bool) → is_unset false bits i ≡ true → get_elem? bits i ≡ some false
unset_at i [] h = absurd (ground arith)
unset_at zero (bit ∷ bits) h = ground arith
unset_at (suc i) (bit ∷ bits) h = unset_at i bits h

module _ (b : BitVectors) (hash : ℕ → ℕ → ℕ) where
  is_unset-reset :
      (d : Bool) (id i : ℕ) (bits : List Bool)
      → is_unset d (reset_if_inside b hash id bits) i
        ≡ (is_unset d bits i || (i == id && ltb id (length bits)))
  unfolding reset_if_inside
  is_unset-reset d id i bits = elim (Bool-cases (ltb id (length bits))) [
    | inl inside ↦ rw inside (ground (arith, is_unset-modify d id i bits))
    | inr outside ↦ ground arith
  ]

  length-reset : (id : ℕ) (bits : List Bool) → length (reset_if_inside b hash id bits) ≡ length bits
  unfolding reset_if_inside
  length-reset id bits = ground (arith, length-modify id (λ (bit : Bool). false) bits)

  -- An edge that waits for the next round.
  pub record IsPending (src dst : ℕ) (w : Work b hash) : Type 0 where
    pub unhandled : is_unset true w.copy_work_list src ≡ true
    pub target : is_unset false w.target_list dst ≡ true
    pub required : b.test w.required_edge (hash_edge b hash src dst) ≡ true

  module _ (laws : Laws b) where
    record_copy_edge-IsPending :
        (src dst : ℕ) (w : Work b hash)
        → dst < length w.target_list
        → IsPending src dst (record_copy_edge b hash src dst w)
    unfolding record_copy_edge
    record_copy_edge-IsPending src dst w below = record {
      unhandled = ground (
        arith,
        is_unset-reset true src src w.copy_work_list,
        outside src w.copy_work_list,
        ==_iff src src,
      );
      target = ground (arith, is_unset-reset false dst dst w.target_list, ==_iff dst dst);
      required = ground (
        arith,
        laws.test-set w.required_edge (hash_edge b hash src dst) (hash_edge b hash src dst),
        ==_iff (hash_edge b hash src dst) (hash_edge b hash src dst),
      );
    }
      where
        outside : (i : ℕ) (bits : List Bool) → (is_unset true bits i || ltb i (length bits)) ≡ true
        outside i [] = refl
        outside zero (bit ∷ bits) = ground arith
        outside (suc i) (bit ∷ bits) = ground (arith, outside i bits)

    record_copy_edge-kept :
        (src dst s d : ℕ) (w : Work b hash)
        → IsPending src dst w
        → IsPending src dst (record_copy_edge b hash s d w)
    unfolding record_copy_edge
    record_copy_edge-kept src dst s d w v = record {
      unhandled = ground (arith, is_unset-reset true s src w.copy_work_list, v.unhandled);
      target = ground (arith, is_unset-reset false d dst w.target_list, v.target);
      required = ground (
        arith,
        laws.test-set w.required_edge (hash_edge b hash s d) (hash_edge b hash src dst),
        v.required,
      );
    }

    pub record_all-sizes :
        (calls : List (ℕ × ℕ)) (w : Work b hash)
        → (length (record_all b hash calls w).copy_work_list ≡ length w.copy_work_list)
          × (length (record_all b hash calls w).target_list ≡ length w.target_list)
    unfolding record_all record_copy_edge
    record_all-sizes [] w = (refl, refl)
    record_all-sizes ((s, d) ∷ calls) w =
        let (p, q) = record_all-sizes calls (record_copy_edge b hash s d w) in
        (p ∙ length-reset s w.copy_work_list, q ∙ length-reset d w.target_list)

    pub record_all-kept :
        (calls : List (ℕ × ℕ)) (src dst : ℕ) (w : Work b hash)
        → IsPending src dst w
        → IsPending src dst (record_all b hash calls w)
    unfolding record_all
    record_all-kept [] src dst w v = v
    record_all-kept ((s, d) ∷ calls) src dst w v =
        record_all-kept calls src dst (record_copy_edge b hash s d w)
          (record_copy_edge-kept src dst s d w v)

    pub record_all-IsPending :
        (calls : List (ℕ × ℕ)) (src dst : ℕ) (w : Work b hash)
        → called src dst calls ≡ true
        → dst < length w.target_list
        → IsPending src dst (record_all b hash calls w)
    unfolding record_all
    record_all-IsPending [] src dst w h below = absurd (ground arith)
    record_all-IsPending ((s, d) ∷ calls) src dst w h below =
        elim (Bool-cases (s == src && d == dst)) [
          | inl here ↦
              let p : s ≡ src = (==_iff s src).0 (ground arith) in
              let q : d ≡ dst = (==_iff d dst).0 (ground arith) in
              record_all-kept calls src dst (record_copy_edge b hash s d w)
                (rw (p, q) (record_copy_edge-IsPending src dst w below))
          | inr later ↦
              record_all-IsPending calls src dst (record_copy_edge b hash s d w) (ground arith)
                (targets_kept s d dst w below)
        ]
      where
        targets_kept :
            (s d i : ℕ) (w : Work b hash)
            → i < length w.target_list
            → i < length (record_copy_edge b hash s d w).target_list
        targets_kept s d i w h = omega (arith, length-reset d w.target_list)

    -- With the lists as long as the node list, the edge is let through, whatever the list of changed nodes
    -- is.
    pub should_process_copy-IsPending :
        (src dst size : ℕ) (ls : List Bool) (w w' : Work b hash)
        → IsPending src dst w
        → src < size
        → dst < size
        → src < length ls
        → w'.ls_work_list ≡ ls
        → w'.copy_work_list ≡ resize size false w.copy_work_list
        → w'.target_list ≡ resize size true w.target_list
        → w'.required_edge ≡ w.required_edge
        → should_process_copy b hash src dst w' ≡ done true
    unfolding should_process_copy
    should_process_copy-IsPending src dst size ls w w' v at_src at_dst in_ls same_ls same_copy
          same_target same_required =
        let (unchanged, at_ls) = bit_at src ls in_ls in
        let target =
          unset_at dst (resize size true w.target_list)
            (is_unset-resize false false size dst true w.target_list at_dst v.target (λ e. cc)) in
        let copies = unset_at src (resize size false w.copy_work_list) (
          is_unset-resize true false size src false w.copy_work_list at_src v.unhandled
            (λ e. refl)) in
        elim (Bool-cases unchanged) [
          | inl same ↦
              rw (same_ls, same_copy, same_target, same_required, at_ls, same, target, copies)
                (ap done v.required)
          | inr changed ↦ rw (same_ls, at_ls, changed) refl
        ]
