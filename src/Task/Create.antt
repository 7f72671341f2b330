-- ===== src/Task/Create.antt =====
-- New threads and tasks of kernel/core/task.c go into the circular lists.
use lasagne.Base.{
  ℕ, ◌≡◌, ◌≢◌, refl, sym, ◌∙◌, ap, inl, inr, arith, true, false, ◌||◌, List, [], ◌∷◌, ◌++◌, ◌==◌,
  if◌then◌else◌, Bool-cases, ==_refl, ==_ne,
}
use lasagne.Ds.{clist_add}
use lasagne.Ds.Ring.{has, has-append, clist_add_lem, clist_add-empty}
use lasagne.Ds.Frame.{IsRing-frame, clist_add-other, clist_add_empty-other}
use lasagne.Task.{Kernel, set_threads, add_thread}
use lasagne.Task.Schedule.{ThreadsOf}

-- The order with `v` put in before the last.
unfoldable pub before_last : ℕ → List ℕ → List ℕ
before_last v [] = v ∷ []
before_last v (x ∷ []) = v ∷ x ∷ []
before_last v (x ∷ y ∷ ys) = x ∷ before_last v (y ∷ ys)

pub before_last-snoc :
    (v c : ℕ) (xs : List ℕ) → before_last v (xs ++ (c ∷ [])) ≡ (xs ++ (v ∷ [])) ++ (c ∷ [])
unfolding before_last
before_last-snoc v c [] = refl
before_last-snoc v c (x ∷ []) = refl
before_last-snoc v c (x ∷ y ∷ ys) = ap (λ (t : List ℕ). x ∷ t) (before_last-snoc v c (y ∷ ys))

pub has-before_last : (x v : ℕ) (xs : List ℕ) → has x (before_last v xs) ≡ ((v == x) || has x xs)
unfolding before_last
has-before_last x v [] = refl
has-before_last x v (y ∷ []) = refl
has-before_last x v (y ∷ z ∷ zs) = ground (arith, has-before_last x v (z ∷ zs))

-- The list of a task's threads: none yet, or a circular list.
unfoldable pub HasThreads : Kernel → ℕ → List ℕ → Type 0
HasThreads s t [] = (s.tasks t).threads ≡ 0
HasThreads s t (x ∷ xs) = ThreadsOf s t (x ∷ xs)

-- The nodes of the circular list are those of the order.
ring_nodes :
    (s : Kernel) (t : ℕ) (order : List ℕ) (w : ThreadsOf s t order) (m : ℕ)
    → has m ((s.tasks t).threads ∷ w.before) ≡ has m order
ring_nodes s t order w m =
    ground (arith, ap (has m) w.split, has-append m w.before ((s.tasks t).threads ∷ []))

-- A thread is in one task.
apart :
    (s : Kernel) (t u : ℕ) (mine order : List ℕ)
    → u ≢ t
    → ThreadsOf s t mine
    → ThreadsOf s u order
    → (m : ℕ) → has m order ≡ true
    → has m mine ≡ false
apart s t u mine order ne e w m h = elim (Bool-cases (has m mine)) [
  | inl k ↦ absurd (ne (sym (w.owned m h) ∙ e.owned m k))
  | inr k ↦ k
]

pub member-ne : (m v : ℕ) (order : List ℕ) → has v order ≡ false → has m order ≡ true → m ≢ v
member-ne m v order n h e = absurd (cc (n, h, ap (λ (k : ℕ). has k order) e))

module _ (s : Kernel) (t v : ℕ) where
  add_thread-empty :
      (s.tasks t).threads ≡ 0
      → add_thread t v s
        ≡ set_threads t
            (clist_add 0 v s.thread_links).0
            (record s { thread_links = (clist_add 0 v s.thread_links).1 })
  unfolding add_thread
  add_thread-empty e = rw (add_thread, e) refl

  add_thread-more :
      (s.tasks t).threads ≢ 0
      → add_thread t v s
        ≡ record s { thread_links = (clist_add (s.tasks t).threads v s.thread_links).1 }
  unfolding add_thread
  add_thread-more e = rw (add_thread, ==_ne _ 0 e) refl

  add_thread-own :
      (order : List ℕ)
      → v ≢ 0
      → has v order ≡ false
      → (s.threads v).task ≡ t
      → ThreadsOf s t order
      → ThreadsOf (add_thread t v s) t (before_last v order)
  add_thread-own order z n o w =
      let c = (s.tasks t).threads in
      let nz : c ≢ 0 = ground (arith, w.ring.pointers) in
      let m : has v (c ∷ w.before) ≡ false =
        ground (arith, has-append v w.before (c ∷ []), ap (has v) w.split) in
      rw (add_thread-more nz, w.split, before_last-snoc v c w.before)
        (record {
          before = w.before ++ (v ∷ []);
          split = refl;
          ring = (clist_add_lem s.thread_links c v w.before w.ring z m).1;
          owned = λ x h. elim (Bool-cases (v == x)) [
            | inl e ↦ let q : v ≡ x = ground arith in rw (sym q) o
            | inr e ↦ w.owned x (
                ground (
                  arith,
                  ap (has x) w.split,
                  has-append x (w.before ++ (v ∷ [])) (c ∷ []),
                  has-append x w.before (v ∷ []),
                  has-append x w.before (c ∷ []),
                ))
          ];
        })

  add_thread-first :
      v ≢ 0
      → (s.tasks t).threads ≡ 0
      → (s.threads v).task ≡ t
      → ThreadsOf (add_thread t v s) t (v ∷ [])
  add_thread-first z e o =
      let added = clist_add-empty s.thread_links v z in
      rw (add_thread-empty e) (record {
        before = [];
        split = rw (==_refl t) (ap (λ (n : ℕ). n ∷ []) (sym added.0));
        ring = rw (==_refl t, added.0) added.1;
        owned = λ x h. let q : v ≡ x = ground arith in rw (sym q) o;
      })

  -- The threads of another task stay in their order.
  add_thread-other :
      (u : ℕ) (order mine : List ℕ)
      → u ≢ t
      → has v order ≡ false
      → has v mine ≡ false
      → HasThreads s t mine
      → ThreadsOf s u order
      → ThreadsOf (add_thread t v s) u order
  unfolding HasThreads
  add_thread-other u order [] ne n _ e w = rw (add_thread-empty e) (record {
    before = w.before;
    split = rw (==_ne u t ne) w.split;
    ring = rw (==_ne u t ne) (
        IsRing-frame s.thread_links _ _ w.before
          (λ m h.
            clist_add_empty-other s.thread_links v m
              (member-ne m v order n (sym (ring_nodes s u order w m) ∙ h)))
          w.ring);
    owned = w.owned;
  })
  add_thread-other u order (y ∷ ys) ne n k e w =
      let nz : (s.tasks t).threads ≢ 0 = ground (arith, e.ring.pointers) in
      rw (add_thread-more nz) (record {
        before = w.before;
        split = w.split;
        ring =
            IsRing-frame s.thread_links _ _ w.before
              (λ m h.
                let i : has m order ≡ true = sym (ring_nodes s u order w m) ∙ h in
                clist_add-other s.thread_links _ v m e.before e.ring
                  (ring_nodes s t (y ∷ ys) e v ∙ k)
                  (ring_nodes s t (y ∷ ys) e m ∙ apart s t u (y ∷ ys) order ne e w m i)
                  (member-ne m v order n i))
              w.ring;
        owned = w.owned;
      })

  pub add_thread-mine :
      (mine : List ℕ)
      → v ≢ 0
      → has v mine ≡ false
      → (s.threads v).task ≡ t
      → HasThreads s t mine
      → ThreadsOf (add_thread t v s) t (before_last v mine)
  unfolding HasThreads before_last
  add_thread-mine [] z k o e = add_thread-first z e o
  add_thread-mine (x ∷ xs) z k o e = add_thread-own (x ∷ xs) z k o e

  -- All tasks' threads, after the new one is put into the list of `t`.
  pub add_thread_lem :
      (u : ℕ) (order mine : List ℕ)
      → v ≢ 0
      → has v order ≡ false
      → has v mine ≡ false
      → (s.threads v).task ≡ t
      → HasThreads s t mine
      → ThreadsOf s u order
      → ThreadsOf (add_thread t v s) u (if u == t then before_last v mine else order)
  add_thread_lem u order mine z n k o e w = elim (Bool-cases (u == t)) [
    | inl p ↦ let q : u ≡ t = ground arith in rw (q, ==_refl t) (add_thread-mine mine z k o e)
    | inr p ↦ rw p (add_thread-other u order mine (ground arith) n k e w)
  ]
