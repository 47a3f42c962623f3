-- ===== src/Trace/Program/Lookup.antt =====
-- The threads of a whole program and the look-up of their events: src/Trace/ProgramTrace.h.
use open_race.Prelude.{
  ℕ, zero, suc, ◌+◌, some, List, [], ◌∷◌, ◌++◌, map, ◌≡◌, ◌↔◌, inl, inr, refl, sym, ◌∙◌, ap, subst,
  get_elem?, All, arith, Option-cases,
}
use open_race.Trace.Event.{Event, Thread}
use open_race.Trace.Build.States.{done, Forest, no_threads, thread_with, finished}
use open_race.Trace.Build.{Answers, build_trace}
use open_race.Trace.Build.Grows.{
  built_stages, IsNumbered, call_depth, ids, IsRange, IsBuilt, AllBuilt,
}
use open_race.Trace.Build.Whole.{build_trace-Grows}
use open_race.Trace.Program.{main_state, main_thread, threads_of, get_event}
use open_race.Trace.Program.Order.{preorder, map-preorder, threads_of-preorder}

-- When the building of the program's threads is done, the ids of the threads are 0 for the main thread
-- and then 1, 2 and so on in the order in which a thread comes before those that it forks. In each
-- thread the event at the place i has the thread's id and i as its ids, every call that begins is
-- ended and no call ends that has not begun.
pub main_thread-IsBuilt :
    (a : Answers) (fuel entry : ℕ) (main : Thread) (below : Forest)
    → main_thread a fuel entry ≡ done (main, below)
    → IsRange 0 (main.id ∷ ids below) × (IsBuilt main × AllBuilt below)
unfolding main_thread finished call_depth
main_thread-IsBuilt a fuel entry main below e =
    let (t, built, last) = built_stages (build_trace a fuel entry main_state) _ e in
    let g = build_trace-Grows a fuel entry main_state t built in
    let i = g.keeps (record { numbered = tt; range = tt; next = refl; below = tt }) in
    let same_main : finished t ≡ main = cc in
    let same_below : t.children ≡ below = cc in
    (
      (
        ap (λ u. u.id) (sym same_main) ∙ g.same_tid,
        subst (λ f. IsRange 1 (ids f)) same_below
            (subst (λ n. IsRange (n + 1) (ids t.children)) g.same_tid i.range),
      ),
      (subst IsBuilt same_main (i.numbered, g.depth 0 refl), subst AllBuilt same_below i.below),
    )

IsRange-get_elem? :
    (start n : ℕ) (ts : List Thread) (t : Thread)
    → IsRange start (map (λ u. u.id) ts)
    → get_elem? ts n ≡ some t
    → t.id ≡ start + n
IsRange-get_elem? start n [] t r e = cc
IsRange-get_elem? start zero (u ∷ ts) t (h, r) e = ground arith
IsRange-get_elem? start (suc n) (u ∷ ts) t (h, r) e =
    IsRange-get_elem? (start + 1) n ts t r e ∙ omega arith

IsNumbered-get_elem? :
    (tid start n : ℕ) (es : List Event) (e : Event)
    → IsNumbered tid start es
    → get_elem? es n ≡ some e
    → e.pid ≡ record { tid = tid; eid = start + n }
IsNumbered-get_elem? tid start n [] e k h = cc
IsNumbered-get_elem? tid start zero (x ∷ es) e (h, k) q = ground arith
IsNumbered-get_elem? tid start (suc n) (x ∷ es) e (h, k) q =
    IsNumbered-get_elem? tid (start + 1) n es e k q ∙ ground arith

All-get_elem? {ℓ κ} :
    {A : Type ℓ} (P : A → Type κ) (n : ℕ) (xs : List A) (x : A)
    → All P xs
    → get_elem? xs n ≡ some x
    → P x
All-get_elem? P n [] x h e = cc
All-get_elem? P zero (y ∷ xs) x (h, k) e = let q : y ≡ x = cc in subst P q h
All-get_elem? P (suc n) (y ∷ xs) x (h, k) e = All-get_elem? P n xs x k e

All-append {ℓ κ} :
    {A : Type ℓ} (P : A → Type κ) (xs ys : List A) → All P xs → All P ys → All P (xs ++ ys)
All-append P [] ys h k = k
All-append P (x ∷ xs) ys (h, g) k = (h, All-append P xs ys g k)

AllBuilt-preorder : (f : Forest) → AllBuilt f → All IsBuilt (preorder f)
AllBuilt-preorder no_threads h = tt
AllBuilt-preorder (thread_with t below rest) (h, (k, g)) = (
  h,
  All-append IsBuilt (preorder below) (preorder rest) (AllBuilt-preorder below k)
      (AllBuilt-preorder rest g),
)

module _ (a : Answers) (fuel entry : ℕ) (main : Thread) (below : Forest)
    (threads : List Thread) where
  thread_at :
      (n : ℕ) (t : Thread)
      → main_thread a fuel entry ≡ done (main, below)
      → threads_of main below ≡ some threads
      → get_elem? threads n ≡ some t
      → (t.id ≡ n) × IsBuilt t
  thread_at n t e flat at =
      let (range, (built, rest)) = main_thread-IsBuilt a fuel entry main below e in
      let at' : get_elem? (main ∷ preorder below) n ≡ some t =
        ground (arith, threads_of-preorder main below) in
      (
        IsRange-get_elem? 0 n (main ∷ preorder below) t
              (range.0, subst (IsRange 1) (sym (map-preorder below)) range.1) at'
            ∙ omega arith,
        All-get_elem? IsBuilt n (main ∷ preorder below) t (built, AllBuilt-preorder below rest) at',
      )

  event_at :
      (n i : ℕ) (t : Thread) (event : Event)
      → main_thread a fuel entry ≡ done (main, below)
      → threads_of main below ≡ some threads
      → get_elem? threads n ≡ some t
      → get_elem? t.events i ≡ some event
      → event.pid ≡ record { tid = n; eid = i }
  event_at n i t event e flat at at' =
      let (id, built) = thread_at n t e flat at in
      IsNumbered-get_elem? t.id 0 i t.events event built.0 at' ∙ ground (arith, id)

  -- When the building is done, the look-up of an event by a thread and an event id finds an event just
  -- when the thread list holds, in some thread, an event with these ids, and it finds that event.
  pub get_event-pid :
      (tid eid : ℕ) (event : Event)
      → main_thread a fuel entry ≡ done (main, below)
      → threads_of main below ≡ some threads
      → (get_event threads tid eid ≡ some event) ↔ (
          (n : ℕ) × (i : ℕ) × (t : Thread) × (get_elem? threads n ≡ some t)
          × (get_elem? t.events i ≡ some event)
          × (event.pid ≡ record { tid = tid; eid = eid }))
  unfolding get_event
  get_event-pid tid eid event e flat = (
    λ found. elim (Option-cases (get_elem? threads tid)) [
      | inl outside ↦ absurd (ground arith)
      | inr (t, at) ↦
          let at' : get_elem? t.events eid ≡ some event = ground arith in
          (tid, eid, t, at, at', event_at tid eid t event e flat at at')
    ],
    λ (n, i, t, at, at', same). ground (arith, event_at n i t event e flat at at'),
  )
