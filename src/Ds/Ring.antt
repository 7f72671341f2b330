-- ===== src/Ds/Ring.antt =====
-- The circular lists of kernel/include/ds.h.
use mathlib.Core.List.{append_assoc}
use lasagne.Base.{
  ℕ, ◌≡◌, ◌≢◌, refl, arith, Bool, true, false, ◌||◌, List, [], ◌∷◌, ◌++◌, ◌==◌, if◌then◌else◌,
  ==_refl, ==_ne,
}
use lasagne.Ds.{Nodes, set_prev, set_next, list_add, clist_add}

-- The node `b` stands behind `a`.
abbrev pub Follows : Nodes → ℕ → ℕ → Type 0
Follows h a b = ((h a).next ≡ b) × ((h b).prev ≡ a)

-- From `a` the `next` pointers lead through the nodes given, and the `prev` pointers lead back.
abbrev pub Walk : Nodes → ℕ → List ℕ → Type 0
Walk h a [] = Unit {0}
Walk h a (y ∷ ys) = Follows h a y × Walk h y ys

-- Where such a walk ends.
abbrev pub end : ℕ → List ℕ → ℕ
end a [] = a
end a (y ∷ ys) = end y ys

abbrev pub has : ℕ → List ℕ → Bool
has a [] = false
has a (x ∷ xs) = (x == a) || has a xs

abbrev pub AllDistinct : List ℕ → Type 0
AllDistinct [] = Unit {0}
AllDistinct (x ∷ xs) = (has x xs ≡ false) × AllDistinct xs

-- A circular list: behind `c` stand the nodes `before`, and then `c` again.
pub record IsRing (h : Nodes) (c : ℕ) (before : List ℕ) : Type 0 where
  pub walk : Walk h c (before ++ (c ∷ []))
  pub distinct : AllDistinct (c ∷ before)
  pub pointers : has 0 (c ∷ before) ≡ false

pub Walk-append :
    (h : Nodes) (a : ℕ) (xs ys : List ℕ) → Walk h a xs → Walk h (end a xs) ys → Walk h a (xs ++ ys)
Walk-append h a [] ys v w = w
Walk-append h a (x ∷ xs) ys v w = (v.0, Walk-append h x xs ys v.1 w)

pub Walk-left : (h : Nodes) (a : ℕ) (xs ys : List ℕ) → Walk h a (xs ++ ys) → Walk h a xs
Walk-left h a [] ys v = tt
Walk-left h a (x ∷ xs) ys v = (v.0, Walk-left h x xs ys v.1)

pub Walk-right : (h : Nodes) (a : ℕ) (xs ys : List ℕ) → Walk h a (xs ++ ys) → Walk h (end a xs) ys
Walk-right h a [] ys v = v
Walk-right h a (x ∷ xs) ys v = Walk-right h x xs ys v.1

-- The node before `c` is the one that its `prev` names, and points at `c`.
pub prev-next :
    (h : Nodes) (a c : ℕ) (xs : List ℕ) → Walk h a (xs ++ (c ∷ [])) → (h (h c).prev).next ≡ c
prev-next h a c [] v = rw (v.0.1) (v.0.0)
prev-next h a c (x ∷ xs) v = prev-next h x c xs v.1

-- The new node goes in before `c`.
module _ (h g : Nodes) (c v : ℕ) (ne : c ≢ v)
    (nexts : (n : ℕ)
      → (g n).next ≡ (if n == v then c else if n == (h c).prev then v else (h n).next))
    (prevs : (n : ℕ)
      → (g n).prev ≡ (if n == v then (h c).prev else if n == c then v else (h n).prev))
    (last : (h (h c).prev).next ≡ c) where
  Walk-insert :
      (a : ℕ) (xs : List ℕ)
      → a ≢ v
      → has v xs ≡ false
      → has c xs ≡ false
      → Walk h a (xs ++ (c ∷ []))
      → Walk g a (xs ++ (v ∷ c ∷ []))
  Walk-insert a [] na _ _ (f, _) = (
    (ground (arith, nexts a, f), ground (arith, prevs v, f)),
    ((ground (arith, nexts v), ground (arith, prevs c)), tt),
  )
  Walk-insert a (x ∷ xs) na nv nc (f, w) = (
    (ground (arith, nexts a, f, last), ground (arith, prevs x, f)),
    Walk-insert x xs (ground arith) (ground arith) (ground arith) w,
  )

pub end_prev :
    (h : Nodes) (a c : ℕ) (xs : List ℕ) → Walk h a (xs ++ (c ∷ [])) → (h c).prev ≡ end a xs
end_prev h a c [] v = v.0.1
end_prev h a c (x ∷ xs) v = end_prev h x c xs v.1

pub end-has : (a : ℕ) (xs : List ℕ) → has (end a xs) (a ∷ xs) ≡ true
end-has a [] = ground arith
end-has a (x ∷ xs) = ground (arith, end-has x xs)

pub has-append : (a : ℕ) (xs ys : List ℕ) → has a (xs ++ ys) ≡ (has a xs || has a ys)
has-append a [] ys = refl
has-append a (x ∷ xs) ys = ground (arith, has-append a xs ys)

pub AllDistinct-snoc :
    (xs : List ℕ) (v : ℕ) → has v xs ≡ false → AllDistinct xs → AllDistinct (xs ++ (v ∷ []))
AllDistinct-snoc [] v n d = (refl, tt)
AllDistinct-snoc (x ∷ xs) v n d =
    (ground (arith, has-append x xs (v ∷ []), d.0), AllDistinct-snoc xs v (ground arith) d.1)

unfoldable pub inserted : ℕ → ℕ → Nodes → Nodes
inserted c v h = set_next v c (set_prev c v (set_next (h c).prev v (set_prev v (h c).prev h)))

pub clist_add-inserted :
    (h : Nodes) (c v : ℕ)
    → (c == 0) ≡ false
    → (c == v) ≡ false
    → ((h c).prev == 0) ≡ false
    → clist_add c v h ≡ (v, inserted c v h)
unfolding clist_add list_add inserted
clist_add-inserted h c v nz ne nl = rw (clist_add, list_add, nz, ne, nl, ==_refl v, nz) refl

inserted_next :
    (h : Nodes) (c v n : ℕ)
    → c ≢ v
    → (inserted c v h n).next ≡ (if n == v then c else if n == (h c).prev then v else (h n).next)
unfolding inserted
inserted_next h c v n ne = ground arith

inserted_prev :
    (h : Nodes) (c v n : ℕ)
    → c ≢ v
    → (h c).prev ≢ v
    → (inserted c v h n).prev ≡ (if n == v then (h c).prev else if n == c then v else (h n).prev)
unfolding inserted
inserted_prev h c v n ne np = ground arith

-- CLIST_ADD of a new node, not NULL, to a circular list puts it before the node that the list's
-- variable names, keeps the list circular in both directions, and sets the variable to the new
-- node.
pub clist_add_lem :
    (h : Nodes) (c v : ℕ) (before : List ℕ)
    → IsRing h c before
    → v ≢ 0
    → has v (c ∷ before) ≡ false
    → ((clist_add c v h).0 ≡ v) × IsRing ((clist_add c v h).1) c (before ++ (v ∷ []))
clist_add_lem h c v before r nz n =
    let ne : c ≢ v = ground arith in
    let p = end_prev h c c before r.walk in
    let pv : (h c).prev ≢ v = ground (arith, end-has c before, p) in
    let pz : ((h c).prev == 0) ≡ false = ground (arith, end-has c before, p, r.pointers) in
    let cz : (c == 0) ≡ false = ground (arith, r.pointers) in
    rw (clist_add-inserted h c v cz (==_ne c v ne) pz) (
      refl,
      record {
        walk = rw (append_assoc before (v ∷ []) (c ∷ [])) (
            Walk-insert h (inserted c v h) c v ne (λ m. inserted_next h c v m ne)
              (λ m. inserted_prev h c v m ne pv) (prev-next h c c before r.walk) c before ne
              (ground arith) (r.distinct.0) r.walk);
        distinct = AllDistinct-snoc (c ∷ before) v n r.distinct;
        pointers = ground (arith, has-append 0 before (v ∷ []), r.pointers);
      },
    )

-- CLIST_ADD to an empty list makes a list of the new node alone.
pub clist_add-empty :
    (h : Nodes) (v : ℕ) → v ≢ 0 → ((clist_add 0 v h).0 ≡ v) × IsRing ((clist_add 0 v h).1) v []
unfolding clist_add
clist_add-empty h v nz = (
  refl,
  record {
    walk = ((ground arith, ground arith), tt);
    distinct = (refl, tt);
    pointers = ground arith;
  },
)
