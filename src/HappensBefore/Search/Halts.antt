-- ===== src/HappensBefore/Search/Halts.antt =====
-- The search ends within `rounds`, although a node can enter the worklist again before its first
-- visit: while no new node is visited the worklist holds only copies, and it shrinks.
use open_race.Prelude.{
  ℕ, zero, suc, ◌+◌, ◌*◌, ◌≤◌, if◌then◌else◌, true, false, some, List, [], ◌∷◌, ◌++◌, ◌≡◌, refl,
  ◌⊎◌, inl, inr, arith, length, length-append, ap, Bool-cases, ◌∙◌, subst, sym,
}
use mathlib.Core.List.{append_assoc, append-nil}
use open_race.Trace.Event.{Pid}
use open_race.HappensBefore.Syncs.{contains, insert, pid_eq_iff, contains-insert}
use open_race.HappensBefore.Search.{add_to_worklist, add_all, search, rounds}
use open_race.HappensBefore.Search.Correct.{contains-add_all}

-- The nodes of `u` that are not visited.
pub unseen : List Pid → List Pid → ℕ
unseen visited [] = 0
unseen visited (p ∷ u) = if contains p visited then unseen visited u else suc (unseen visited u)

unseen-insert_le : (n : Pid) (visited u : List Pid) → unseen (insert n visited) u ≤ unseen visited u
unfolding unseen
unseen-insert_le n visited [] = omega arith
unseen-insert_le n visited (p ∷ u) =
    ground (arith, unseen-insert_le n visited u, contains-insert n p visited)

unseen-insert_lt :
    (n : Pid) (visited u : List Pid)
    → contains n u ≡ true
    → contains n visited ≡ false
    → suc (unseen (insert n visited) u) ≤ unseen visited u
unfolding unseen contains
unseen-insert_lt n visited [] c f = cc
unseen-insert_lt n visited (p ∷ u) c f = ground (
  arith,
  unseen-insert_lt n visited u,
  unseen-insert_le n visited u,
  contains-insert n p visited,
  pid_eq_iff n p,
)

unseen-pos :
    (n : Pid) (visited u : List Pid)
    → contains n u ≡ true
    → contains n visited ≡ false
    → 1 ≤ unseen visited u
unseen-pos n visited u c f = omega (arith, unseen-insert_lt n visited u c f)

unseen-le : (visited u : List Pid) → unseen visited u ≤ length u
unfolding unseen
unseen-le visited [] = omega arith
unseen-le visited (p ∷ u) = ground (arith, unseen-le visited u)

add_all-append :
    (visited xs ys ns : List Pid) → add_all visited (xs ++ ys) ns ≡ xs ++ add_all visited ys ns
unfolding add_all add_to_worklist
add_all-append visited xs ys [] = refl
add_all-append visited xs ys (n ∷ ns) = elim (Bool-cases (contains n visited)) [
  | inl old ↦ rw old (add_all-append visited xs ys ns)
  | inr new ↦ rw new (
      ap (λ w. add_all visited w ns) (append_assoc xs ys (n ∷ []))
      ∙ add_all-append visited xs (ys ++ n ∷ []) ns)
]

length-add_all :
    (visited worklist ns : List Pid)
    → length (add_all visited worklist ns) ≤ length worklist + length ns
unfolding add_all add_to_worklist
length-add_all visited worklist [] = omega arith
length-add_all visited worklist (n ∷ ns) = ground (
  arith,
  length-add_all visited worklist ns,
  length-add_all visited (worklist ++ n ∷ []) ns,
  length-append worklist (n ∷ []),
)

rounds_mono : (width nodes a b : ℕ) → a ≤ b → rounds width nodes a ≤ rounds width nodes b
unfolding rounds
rounds_mono width zero a b h = h
rounds_mono width (suc nodes) a b h =
    omega (arith, rounds_mono width nodes (a + width * a) (b + width * b) (grind arith))

le-rounds : (width nodes a : ℕ) → a ≤ rounds width nodes a
unfolding rounds
le-rounds width zero a = omega arith
le-rounds width (suc nodes) a = omega arith

-- A worklist has an entry that is not visited, or only visited ones.
fresh-or-old :
    (visited worklist : List Pid)
    → ((n : Pid) × (contains n worklist ≡ true) × (contains n visited ≡ false))
      ⊎ ((n : Pid) → contains n worklist ≡ true → contains n visited ≡ true)
unfolding contains
fresh-or-old visited [] = inr (λ n h. cc)
fresh-or-old visited (p ∷ worklist) = elim (Bool-cases (contains p visited)) [
  | inr new ↦ inl (p, ground (arith, pid_eq_iff p p), new)
  | inl old ↦ elim (fresh-or-old visited worklist) [
    | inl (n, c, f) ↦ inl (n, ground arith, f)
    | inr all ↦ inr (λ n h. ground (arith, pid_eq_iff n p, all n))
  ]
]

module _ (succs : Pid → List Pid) (width : ℕ) (u : List Pid)
    (narrow : (p : Pid) → length (succs p) ≤ width)
    (inside : (p q : Pid)
      → contains p u ≡ true
      → contains q (succs p) ≡ true
      → contains q u ≡ true) where
  record Ready (worklist visited : List Pid) : Type 0 where
    known : (p : Pid) → contains p worklist ≡ true → contains p u ≡ true
    closed :
        (p q : Pid)
        → contains p visited ≡ true
        → contains q (succs p) ≡ true
        → (contains q visited ≡ true) ⊎ (contains q worklist ≡ true)

  Ready-step :
      (n : Pid) (worklist visited : List Pid)
      → Ready (n ∷ worklist) visited
      → Ready (add_all (insert n visited) worklist (succs n)) (insert n visited)
  unfolding contains
  Ready-step n worklist visited v = record {
    known = λ p h. ground (
      arith,
      contains-add_all (insert n visited) worklist (succs n) p,
      v.known p,
      v.known n,
      inside n p,
      pid_eq_iff n n,
    );
    closed = λ p q h e. ground (
      arith,
      contains-add_all (insert n visited) worklist (succs n) q,
      contains-insert n p visited,
      contains-insert n q visited,
      v.closed p q,
      pid_eq_iff p n,
    );
  }

  abbrev Halts : ℕ → List Pid → List Pid → Type 0
  Halts fuel worklist visited =
      (found : List Pid) × (search succs fuel worklist visited ≡ some found)

  add_all_old :
      (visited worklist ns : List Pid)
      → ((q : Pid) → contains q ns ≡ true → contains q visited ≡ true)
      → add_all visited worklist ns ≡ worklist
  unfolding add_all add_to_worklist contains
  add_all_old visited worklist [] h = refl
  add_all_old visited worklist (n ∷ ns) h =
      let old : contains n visited ≡ true = h n (ground (arith, pid_eq_iff n n)) in
      rw old (add_all_old visited worklist ns (λ q e. h q (ground arith)))

  -- With visited entries alone nothing is added.
  drain :
      (fuel : ℕ) (worklist visited : List Pid)
      → length worklist ≤ fuel
      → Ready worklist visited
      → ((n : Pid) → contains n worklist ≡ true → contains n visited ≡ true)
      → Halts fuel worklist visited
  unfolding search contains
  drain zero [] visited l v old = (visited, refl)
  drain zero (n ∷ worklist) visited l v old = absurd (omega arith)
  drain (suc fuel) [] visited l v old = (visited, refl)
  drain (suc fuel) (n ∷ worklist) visited l v old =
      let here : contains n visited ≡ true = old n (ground (arith, pid_eq_iff n n)) in
      let same : add_all (insert n visited) worklist (succs n) ≡ worklist =
        add_all_old (insert n visited) worklist (succs n)
          (λ q e. ground (arith, contains-insert n q visited, v.closed n q here e, old q)) in
      rw same (
        drain fuel worklist (insert n visited) (omega arith)
          (subst (λ w. Ready w (insert n visited)) same (Ready-step n worklist visited v))
          (λ q e. ground (arith, contains-insert n q visited, old q)))

  -- The entries `front` are taken one by one, up to one that is not visited; `more` is the search
  -- with fewer unvisited nodes.
  scan :
      (nodes most : ℕ)
      → ((fuel : ℕ) (worklist visited : List Pid)
          → Ready worklist visited
          → unseen visited u ≤ nodes
          → rounds width nodes (length worklist) ≤ fuel
          → Halts fuel worklist visited)
      → (fuel : ℕ) (front back visited : List Pid) (n : Pid) → contains n front ≡ true
      → contains n visited ≡ false
      → Ready (front ++ back) visited
      → unseen visited u ≤ suc nodes
      → length back + length front + width * length front ≤ most
      → length front + rounds width nodes most ≤ fuel
      → Halts fuel (front ++ back) visited
  unfolding search contains
  scan nodes most more fuel [] back visited n c f v s l k = cc
  scan nodes most more zero (p ∷ front) back visited n c f v s l k = absurd (omega arith)
  scan nodes most more (suc fuel) (p ∷ front) back visited n c f v s l k =
      let visited' = insert p visited in
      let back' = add_all visited' back (succs p) in
      let split = add_all-append visited' front back (succs p) in
      let ready : Ready (front ++ back') visited' =
        subst (λ w. Ready w visited') split (Ready-step p (front ++ back) visited v) in
      let shorter : length back' ≤ length back + width =
        omega (arith, length-add_all visited' back (succs p), narrow p) in
      rw split (elim (Bool-cases (contains p visited)) [
        | inr new ↦
            more fuel (front ++ back') visited' ready
              (omega (
                arith,
                unseen-insert_lt p visited u (v.known p (ground (arith, pid_eq_iff p p))) new,
              ))
              (omega (
                arith,
                length-append front back',
                rounds_mono width nodes (length (front ++ back')) most
                    (omega (arith, length-append front back')),
              ))
        | inl old ↦
            scan nodes most more fuel front back' visited' n (ground (arith, pid_eq_iff n p))
              (ground (arith, contains-insert p n visited, pid_eq_iff n p)) ready
              (omega (arith, unseen-insert_le p visited u)) (omega arith) (omega arith)
      ])

  halts :
      (nodes fuel : ℕ) (worklist visited : List Pid)
      → Ready worklist visited
      → unseen visited u ≤ nodes
      → rounds width nodes (length worklist) ≤ fuel
      → Halts fuel worklist visited
  unfolding rounds
  halts zero fuel worklist visited v s k = drain fuel worklist visited k v (λ n c.
      elim (Bool-cases (contains n visited)) [
        | inl old ↦ old
        | inr new ↦ absurd (omega (arith, unseen-pos n visited u (v.known n c) new))
      ])
  halts (suc nodes) fuel worklist visited v s k = elim (fresh-or-old visited worklist) [
    | inr old ↦ drain fuel worklist visited (omega arith) v old
    | inl (n, c, f) ↦
        subst (λ w. Halts fuel w visited) (append-nil worklist)
          (scan nodes (length worklist + width * length worklist) (halts nodes) fuel worklist []
            visited n c f (subst (λ w. Ready w visited) (sym (append-nil worklist)) v) s
            (omega arith) k)
  ]

  -- From a known node, with at most `width` successors of each node and all of them known, the
  -- search ends within `rounds`.
  pub search-halts :
      (fuel : ℕ) (src : Pid)
      → contains src u ≡ true
      → rounds width (length u) 1 ≤ fuel
      → (found : List Pid) × (search succs fuel (src ∷ []) [] ≡ some found)
  unfolding contains
  search-halts fuel src c k =
      halts (length u) fuel (src ∷ []) []
        (record { known = λ p h. ground (arith, pid_eq_iff p src); closed = λ p q h e. cc })
        (unseen-le [] u) k
