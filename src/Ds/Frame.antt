-- ===== src/Ds/Frame.antt =====
-- What the macros of kernel/include/ds.h leave as it is.
use lasagne.Base.{ℕ, ◌≡◌, ◌≢◌, refl, arith, true, false, List, [], ◌∷◌, ◌++◌, ◌==◌, ==_refl, ==_ne}
use lasagne.Ds.{Nodes, list_add, clist_add}
use lasagne.Ds.Ring.{Walk, has, has-append, end_prev, end-has, IsRing, inserted, clist_add-inserted}

Walk-frame :
    (h g : Nodes) (a : ℕ) (xs : List ℕ)
    → ((n : ℕ) → has n (a ∷ xs) ≡ true → g n ≡ h n)
    → Walk h a xs
    → Walk g a xs
Walk-frame h g a [] e w = tt
Walk-frame h g a (x ∷ xs) e w =
    let p : g a ≡ h a = e a (ground arith) in
    let q : g x ≡ h x = e x (ground arith) in
    ((rw p w.0.0, rw q w.0.1), Walk-frame h g x xs (λ n m. e n (ground arith)) w.1)

-- A circular list stays as it is where only other nodes change.
pub IsRing-frame :
    (h g : Nodes) (c : ℕ) (before : List ℕ)
    → ((n : ℕ) → has n (c ∷ before) ≡ true → g n ≡ h n)
    → IsRing h c before
    → IsRing g c before
IsRing-frame h g c before e r = record {
  walk =
      Walk-frame h g c (before ++ (c ∷ []))
        (λ n m. e n (ground (arith, has-append n before (c ∷ [])))) r.walk;
  distinct = r.distinct;
  pointers = r.pointers;
}

inserted-other : (h : Nodes) (c v n : ℕ) → n ≢ c → n ≢ v → n ≢ (h c).prev → inserted c v h n ≡ h n
unfolding inserted
inserted-other h c v n nc nv np =
    rw (inserted, ==_ne n c nc, ==_ne n v nv, ==_ne n (h c).prev np) refl

-- CLIST_ADD changes the new node and nodes of the list only.
pub clist_add-other :
    (h : Nodes) (c v n : ℕ) (before : List ℕ)
    → IsRing h c before
    → has v (c ∷ before) ≡ false
    → has n (c ∷ before) ≡ false
    → n ≢ v
    → (clist_add c v h).1 n ≡ h n
clist_add-other h c v n before r nv nn ne =
    let p = end_prev h c c before r.walk in
    let cz : (c == 0) ≡ false = ground (arith, r.pointers) in
    let cv : (c == v) ≡ false = ground arith in
    let pz : ((h c).prev == 0) ≡ false = ground (arith, end-has c before, p, r.pointers) in
    rw (clist_add-inserted h c v cz cv pz)
      (inserted-other h c v n (ground arith) ne (ground (arith, end-has c before, p)))

pub clist_add_empty-other : (h : Nodes) (v n : ℕ) → n ≢ v → (clist_add 0 v h).1 n ≡ h n
unfolding clist_add list_add
clist_add_empty-other h v n ne = rw (clist_add, list_add, ==_refl v, ==_ne n v ne) refl
