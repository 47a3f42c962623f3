-- ===== src/HappensBefore/Search/Correct.antt =====
-- The search marks exactly the nodes that the successors lead to.
use open_race.Prelude.{
  ℕ, zero, suc, true, false, some, List, [], ◌∷◌, ◌++◌, ◌≡◌, ◌⊎◌, inr, ◌↔◌, arith,
}
use open_race.Trace.Event.{Pid}
use open_race.HappensBefore.Syncs.{contains, insert, pid_eq_iff, contains-append, contains-insert}
use open_race.HappensBefore.Search.{add_to_worklist, add_all, search}

-- The walks from `src`.
pub data Leads (succs : Pid → List Pid) (src : Pid) : Pid → Type 0 where
  start : Leads succs src src
  next : {p q : Pid} → Leads succs src p → contains q (succs p) ≡ true → Leads succs src q

pub contains-add_all :
    (visited worklist ns : List Pid) (p : Pid)
    → (contains p (add_all visited worklist ns) ≡ true)
      ↔ ((contains p worklist ≡ true) ⊎ (contains p ns ≡ true) × (contains p visited ≡ false))
unfolding add_all add_to_worklist contains
contains-add_all visited worklist [] p = ground arith
contains-add_all visited worklist (n ∷ ns) p = ground (
  arith,
  contains-add_all visited worklist ns p,
  contains-add_all visited (worklist ++ n ∷ []) ns p,
  contains-append p worklist (n ∷ []),
  pid_eq_iff p n,
)

module _ (succs : Pid → List Pid) (src : Pid) where
  -- All nodes that are met are reached, and a successor of a visited node is visited or waits.
  pub record Inv (worklist visited : List Pid) : Type 0 where
    waits : (p : Pid) → contains p worklist ≡ true → Leads succs src p
    sound : (p : Pid) → contains p visited ≡ true → Leads succs src p
    source : (contains src visited ≡ true) ⊎ (contains src worklist ≡ true)
    closed :
        (p q : Pid)
        → contains p visited ≡ true
        → contains q (succs p) ≡ true
        → (contains q visited ≡ true) ⊎ (contains q worklist ≡ true)

  Inv-start : Inv (src ∷ []) []
  unfolding contains
  Inv-start = record {
    waits = λ p h. subst_start p (ground (arith, pid_eq_iff p src));
    sound = λ p h. cc;
    source = inr (ground (arith, pid_eq_iff src src));
    closed = λ p q h e. cc;
  }
    where
      subst_start : (p : Pid) → src ≡ p → Leads succs src p
      subst_start p e = rw (← e) start

  Inv-step :
      (n : Pid) (worklist visited : List Pid)
      → Inv (n ∷ worklist) visited
      → Inv (add_all (insert n visited) worklist (succs n)) (insert n visited)
  unfolding contains
  Inv-step n worklist visited v =
      let here = v.waits n (ground (arith, pid_eq_iff n n)) in
      record {
        waits = λ p h. ground (
          arith,
          contains-add_all (insert n visited) worklist (succs n) p,
          v.waits p,
          λ (e : contains p (succs n) ≡ true). next here e,
        );
        sound = λ p h. ground (arith, contains-insert n p visited, v.sound p, v.waits p);
        source = ground (
          arith,
          contains-add_all (insert n visited) worklist (succs n) src,
          contains-insert n src visited,
          v.source,
        );
        closed = λ p q h e. ground (
          arith,
          contains-add_all (insert n visited) worklist (succs n) q,
          contains-insert n p visited,
          contains-insert n q visited,
          v.closed p q,
          pid_eq_iff p n,
        );
      }

  Inv-search :
      (fuel : ℕ) (worklist visited found : List Pid)
      → Inv worklist visited
      → search succs fuel worklist visited ≡ some found
      → Inv [] found
  unfolding search
  Inv-search zero [] visited found v h = ground arith
  Inv-search zero (n ∷ worklist) visited found v h = cc
  Inv-search (suc fuel) [] visited found v h = ground arith
  Inv-search (suc fuel) (n ∷ worklist) visited found v h =
      Inv-search fuel _ _ found (Inv-step n worklist visited v) h

  found_of_Leads :
      (found : List Pid) (p : Pid) → Inv [] found → Leads succs src p → contains p found ≡ true
  unfolding contains
  found_of_Leads found p v start = ground (arith, v.source)
  found_of_Leads found q v (next {p} l e) =
      ground (arith, v.closed p q (found_of_Leads found p v l) e)

  -- When the search ends, the nodes that it has marked are those that walks from the source reach.
  pub search-Leads :
      (fuel : ℕ) (found : List Pid) (p : Pid)
      → search succs fuel (src ∷ []) [] ≡ some found
      → (contains p found ≡ true) ↔ Leads succs src p
  search-Leads fuel found p h =
      let v = Inv-search fuel (src ∷ []) [] found Inv-start h in
      (v.sound p, found_of_Leads found p v)
