-- ===== src/PointsTo/Inverse.antt =====
-- The pointed-by sets of src/PointerAnalysis/Solver/PointsTo/PointedByPts.h are the inverse of the
-- points-to sets.
use open_race.Prelude.{
  ℕ, zero, suc, ◌<◌, ◌==◌, ltb, Bool, true, false, ◌&&◌, ◌||◌, some, List, [], ◌∷◌, ◌≡◌, inl, inr,
  refl, sym, ◌∙◌, ap, length, get_elem?, arith, Bool-cases, ==_iff,
}
use open_race.Trace.Build.States.{contains}
use open_race.PointsTo.{
  BitVectors, Laws, modify, Pts, test_at, add_pointed_by, union_with, insert, clear,
}

pub length-modify {ℓ} :
    {A : Type ℓ} (i : ℕ) (f : A → A) (xs : List A) → length (modify i f xs) ≡ length xs
unfolding modify
length-modify i f [] = refl
length-modify zero f (x ∷ xs) = refl
length-modify (suc i) f (x ∷ xs) = ap suc (length-modify i f xs)

module _ (b : BitVectors) (laws : Laws b) where
  pub test_at-modify_set :
      (k x i j : ℕ) (vs : List b.Bits)
      → test_at b (modify k (λ v. b.set v x) vs) i j
        ≡ (test_at b vs i j || (i == k && (x == j && ltb k (length vs))))
  unfolding test_at modify
  test_at-modify_set k x i j [] = ground arith
  test_at-modify_set zero x zero j (v ∷ vs) = ground (arith, laws.test-set v x j)
  test_at-modify_set zero x (suc i) j (v ∷ vs) = ground arith
  test_at-modify_set (suc k) x zero j (v ∷ vs) = ground arith
  test_at-modify_set (suc k) x (suc i) j (v ∷ vs) = ground (arith, test_at-modify_set k x i j vs)

  pub test_at-modify_join :
      (k i j : ℕ) (w : b.Bits) (vs : List b.Bits)
      → test_at b (modify k (λ v. b.join v w) vs) i j
        ≡ (test_at b vs i j || (i == k && (b.test w j && ltb k (length vs))))
  unfolding test_at modify
  test_at-modify_join k i j w [] = ground arith
  test_at-modify_join zero zero j w (v ∷ vs) = ground (arith, laws.test-join v w j)
  test_at-modify_join zero (suc i) j w (v ∷ vs) = ground arith
  test_at-modify_join (suc k) zero j w (v ∷ vs) = ground arith
  test_at-modify_join (suc k) (suc i) j w (v ∷ vs) = ground (arith, test_at-modify_join k i j w vs)

  -- The pointed-by sets are the inverse, and every target is a node.
  pub record IsInverse (s : Pts b) : Type 0 where
    pub same_size : length s.pointed_by ≡ length s.points_to
    pub inverse : (i j : ℕ) → test_at b s.points_to i j ≡ test_at b s.pointed_by j i

  test_at_lt : (i j : ℕ) (vs : List b.Bits) → test_at b vs i j ≡ true → i < length vs
  unfolding test_at
  test_at_lt i j [] h = cc
  test_at_lt zero j (v ∷ vs) h = omega arith
  test_at_lt (suc i) j (v ∷ vs) h = omega (arith, test_at_lt i j vs h)

  -- After an `insert` that meets no assertion the sets are inverse again, and just the one target is
  -- added.
  pub insert-IsInverse :
      (src idx : ℕ) (s t : Pts b) (is_new : Bool)
      → IsInverse s
      → insert b src idx s ≡ some (is_new, t)
      → IsInverse t
        × ((i j : ℕ)
            → test_at b t.points_to i j ≡ (test_at b s.points_to i j || (i == src && idx == j)))
  unfolding insert
  insert-IsInverse src idx s t is_new v e =
      elim (Bool-cases (ltb src (length s.points_to) && ltb idx (length s.points_to))) [
        | inl inside ↦
            let p : t.points_to ≡ modify src (λ u. b.set u idx) s.points_to = ground arith in
            let q : t.pointed_by ≡ modify idx (λ u. b.set u src) s.pointed_by = ground arith in
            (
              record {
                same_size =
                    rw (p, q)
                      (length-modify idx (λ u. b.set u src) s.pointed_by
                        ∙ v.same_size
                        ∙ sym (length-modify src (λ u. b.set u idx) s.points_to));
                inverse = λ i j.
                    rw (p, q)
                      (ground (
                        arith,
                        test_at-modify_set src idx i j s.points_to,
                        test_at-modify_set idx src j i s.pointed_by,
                        v.inverse i j,
                        v.same_size,
                        ==_iff idx j,
                        ==_iff j idx,
                        ==_iff src i,
                        ==_iff i src,
                      ));
              },
              λ i j. rw p (ground (arith, test_at-modify_set src idx i j s.points_to)),
            )
        | inr outside ↦ absurd (ground arith)
      ]

  add_pointed_by-adds :
      (src dst : ℕ) (ids : List ℕ) (vs : List b.Bits)
      → ((id : ℕ) → contains id ids ≡ true → test_at b vs id dst ≡ true)
      → (us : List b.Bits) × (add_pointed_by b src dst ids vs ≡ some us)
        × (length us ≡ length vs)
        × ((j i : ℕ) → test_at b us j i ≡ (test_at b vs j i || (contains j ids && src == i)))
  unfolding add_pointed_by contains
  add_pointed_by-adds src dst [] vs h = (vs, refl, refl, λ j i. ground arith)
  add_pointed_by-adds src dst (id ∷ ids) vs h =
      let here : test_at b vs id dst ≡ true = h id (ground (arith, ==_iff id id)) in
      let vs' = modify id (λ v. b.set v src) vs in
      let (us, e, l, adds) =
        add_pointed_by-adds src dst ids vs'
          (λ k c. ground (arith, test_at-modify_set id src k dst vs, h k)) in
      (
        us,
        rw here e,
        l ∙ length-modify id (λ v. b.set v src) vs,
        λ j i.
            adds j i
            ∙ ground (
              arith,
              test_at-modify_set id src j i vs,
              test_at_lt id dst vs here,
              ==_iff j id,
              ==_iff id j,
            ),
      )

  pub get_elem?-some :
      (i : ℕ) (vs : List b.Bits) → i < length vs → (v : b.Bits) × (get_elem? vs i ≡ some v)
  get_elem?-some i [] h = absurd (omega (arith, h))
  get_elem?-some zero (v ∷ vs) h = (v, refl)
  get_elem?-some (suc i) (v ∷ vs) h = get_elem?-some i vs (omega (arith, h))

  pub test_at-get_elem? :
      (i j : ℕ) (vs : List b.Bits) (v : b.Bits)
      → get_elem? vs i ≡ some v
      → test_at b vs i j ≡ b.test v j
  unfolding test_at
  test_at-get_elem? i j vs v h = ground arith

  union_with-some :
      (src dst : ℕ) (s : Pts b) (v w : b.Bits) (us : List b.Bits)
      → get_elem? s.points_to src ≡ some v
      → get_elem? s.points_to dst ≡ some w
      → add_pointed_by b src dst (b.elements w) s.pointed_by ≡ some us
      → union_with b src dst s
        ≡ some (
          b.changes v w,
          record { points_to = modify src (λ u. b.join u w) s.points_to; pointed_by = us },
        )
  unfolding union_with
  union_with-some src dst s v w us at_src at_dst e = ground arith

  test_at-modify_empty :
      (k j : ℕ) (vs : List b.Bits) → test_at b (modify k (λ v. b.empty) vs) k j ≡ false
  unfolding test_at modify
  test_at-modify_empty k j [] = refl
  test_at-modify_empty zero j (v ∷ vs) = laws.test-empty j
  test_at-modify_empty (suc k) j (v ∷ vs) = test_at-modify_empty k j vs

  -- Where the pointed-by sets are the inverse, `unionWith` of two nodes meets no assertion that fails,
  -- the sets are inverse again, and just the targets of the second node are added to the first one.
  pub union_with-IsInverse :
      (src dst : ℕ) (s : Pts b)
      → IsInverse s
      → src < length s.points_to
      → dst < length s.points_to
      → (changed : Bool) × (t : Pts b) × (union_with b src dst s ≡ some (changed, t))
        × IsInverse t
        × ((i j : ℕ)
            → test_at b t.points_to i j
              ≡ (test_at b s.points_to i j || (i == src && test_at b s.points_to dst j)))
  union_with-IsInverse src dst s v h k =
      let (x, at_src) = get_elem?-some src s.points_to h in
      let (w, at_dst) = get_elem?-some dst s.points_to k in
      let tests = λ (j : ℕ). test_at-get_elem? dst j s.points_to w at_dst in
      let (us, e, l, adds) =
        add_pointed_by-adds src dst (b.elements w) s.pointed_by
          (λ id c. ground (arith, laws.contains-elements w id, tests id, v.inverse dst id)) in
      let t : Pts b = record {
        points_to = modify src (λ u. b.join u w) s.points_to;
        pointed_by = us;
      } in
      (
        b.changes x w,
        t,
        union_with-some src dst s x w us at_src at_dst e,
        record {
          same_size = l ∙ v.same_size ∙ sym (length-modify src (λ u. b.join u w) s.points_to);
          inverse = λ i j. ground (
            arith,
            test_at-modify_join src i j w s.points_to,
            adds j i,
            laws.contains-elements w j,
            v.inverse i j,
            ==_iff src i,
            ==_iff i src,
          );
        },
        λ i j. ground (arith, test_at-modify_join src i j w s.points_to, tests j),
      )

  -- Where the pointed-by sets are the inverse, `clear` of a node with a target takes the target away and
  -- leaves the node in the pointed-by set of the target.
  pub clear_keeps_pointed_by :
      (id j : ℕ) (s t : Pts b)
      → IsInverse s
      → test_at b s.points_to id j ≡ true
      → clear b id s ≡ some t
      → (test_at b t.points_to id j ≡ false) × (test_at b t.pointed_by j id ≡ true)
  unfolding clear
  clear_keeps_pointed_by id j s t v h e =
      let p : t.points_to ≡ modify id (λ u. b.empty) s.points_to = ground arith in
      (rw p (test_at-modify_empty id j s.points_to), ground (arith, v.inverse id j))
