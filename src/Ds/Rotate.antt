-- ===== src/Ds/Rotate.antt =====
-- The circular lists of kernel/include/ds.h, read from another of their nodes.
use mathlib.Core.Path.{subst}
use mathlib.Core.List.{append_assoc}
use lasagne.Base.{ℕ, ◌≡◌, refl, sym, ◌∙◌, ap, arith, true, false, List, [], ◌∷◌, ◌++◌}
use lasagne.Ds.{Nodes}
use lasagne.Ds.Ring.{
  Walk, end, has, has-append, AllDistinct, Walk-append, Walk-left, Walk-right, IsRing,
}

-- The two lists have no node in common.
Disjoint : List ℕ → List ℕ → Type 0
Disjoint xs ys = (a : ℕ) → has a xs ≡ true → has a ys ≡ false

distinct_parts :
    (xs ys : List ℕ) → AllDistinct (xs ++ ys) → AllDistinct xs × AllDistinct ys × Disjoint xs ys
unfolding Disjoint
distinct_parts [] ys d = (tt, d, λ a h. cc)
distinct_parts (x ∷ xs) ys d =
    let (l, r, apart) = distinct_parts xs ys d.1 in
    (
      (ground (arith, has-append x xs ys, d.0), l),
      r,
      λ a h. ground (arith, has-append x xs ys, d.0, apart a),
    )

distinct_join :
    (xs ys : List ℕ) → AllDistinct xs → AllDistinct ys → Disjoint xs ys → AllDistinct (xs ++ ys)
unfolding Disjoint
distinct_join [] ys l r apart = r
distinct_join (x ∷ xs) ys l r apart = (
  ground (arith, has-append x xs ys, l.0, apart x),
  distinct_join xs ys l.1 r (λ a h. apart a (ground arith)),
)

pub AllDistinct-swap : (xs ys : List ℕ) → AllDistinct (xs ++ ys) → AllDistinct (ys ++ xs)
unfolding Disjoint
AllDistinct-swap xs ys d =
    let (l, r, apart) = distinct_parts xs ys d in
    distinct_join ys xs r l (λ a h. ground (arith, apart a))

end-append : (a : ℕ) (xs ys : List ℕ) → end a (xs ++ ys) ≡ end (end a xs) ys
end-append a [] ys = refl
end-append a (x ∷ xs) ys = end-append x xs ys

-- From a node of the list, the nodes stand in the order rotated.
pub IsRing-rotate :
    (h : Nodes) (c : ℕ) (before pre : List ℕ) (x : ℕ) (post : List ℕ)
    → IsRing h c before
    → before ++ (c ∷ []) ≡ pre ++ (x ∷ post)
    → IsRing h x (post ++ pre)
IsRing-rotate h c before pre x post r e =
    let w = subst (Walk h c) e r.walk in
    let v = Walk-right h c pre (x ∷ post) w in
    let ends : end x post ≡ c =
      sym (end-append c pre (x ∷ post)) ∙ ap (end c) (sym e) ∙ end-append c before (c ∷ []) in
    let first = Walk-left h c (pre ++ (x ∷ [])) post (rw (append_assoc pre (x ∷ []) post) w) in
    record {
      walk = rw (append_assoc post pre (x ∷ [])) (Walk-append h x post _ v.1 (rw ends first));
      distinct =
          AllDistinct-swap pre (x ∷ post)
            (subst AllDistinct e (AllDistinct-swap (c ∷ []) before r.distinct));
      pointers = ground (
        arith,
        r.pointers,
        ap (has 0) e,
        has-append 0 before (c ∷ []),
        has-append 0 pre (x ∷ post),
        has-append 0 post pre,
      );
    }
