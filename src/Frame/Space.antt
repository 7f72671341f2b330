-- ===== src/Frame/Space.antt =====
-- kernel/mm/frame.c: the amount of free memory, and the frames that were never handed out.
use lasagne.Base.{ℕ, ◌+◌, ◌-◌, ◌%◌, ◌^◌, ◌≤◌, ◌<◌, min, max, ◌≡◌, ◌⊎◌, arith, List}
use lasagne.MemoryMap.{Area}
use lasagne.Frame.{Allocator, area_at, intersection, extend}

-- Below 2 ^ 63 the signed arithmetic of `intersection` gives the length of the common part, which
-- is 0 where the intervals are apart.
pub intersection_lem :
    (a b c d : ℕ)
    → a < 2 ^ 63
    → b < 2 ^ 63
    → c < 2 ^ 63
    → d < 2 ^ 63
    → intersection a b c d ≡ min b d - max a c
unfolding intersection
intersection_lem a b c d ha hb hc hd = ground arith

-- An area of whole pages.
pub record IsWhole (a : Area) : Type 0 where
  pub begin : a.begin % 4096 ≡ 0
  pub end : a.end % 4096 ≡ 0
  pub nonempty : a.begin < a.end
  pub small : a.end < 2 ^ 64

-- The area that the allocator stands in, and where it stands in it.
pub record IsInside (a : Allocator) (here : Area) : Type 0 where
  pub whole : a.begin % 4096 ≡ 0
  pub from : here.begin ≤ a.begin
  pub to : a.begin ≤ here.end

-- What `extend` hands out: a page of an area in the map, below all that it will hand out later in
-- that area.
pub record Fresh (areas : List Area) (a : Allocator) (out : ℕ × Allocator) : Type 0 where
  pub page : out.0 % 4096 ≡ 0
  pub from : (area_at areas out.1.current_map_position).begin ≤ out.0
  pub to : out.0 + 4096 ≤ (area_at areas out.1.current_map_position).end
  pub next : out.1.begin ≡ out.0 + 4096
  pub inside : IsInside out.1 (area_at areas out.1.current_map_position)
  pub position :
      (out.1.current_map_position ≡ a.current_map_position) × (out.0 ≡ a.begin)
      ⊎ (out.1.current_map_position ≡ a.current_map_position + 1)
        × (a.begin ≡ (area_at areas a.current_map_position).end)

-- From a place inside an area of whole pages, with another such area behind it, `extend` hands out a fresh page of
-- one of the two and stays inside the map.
pub extend-Fresh :
    (areas : List Area) (a : Allocator)
    → IsWhole (area_at areas a.current_map_position)
    → IsWhole (area_at areas (a.current_map_position + 1))
    → IsInside a (area_at areas a.current_map_position)
    → Fresh areas a (extend areas a)
unfolding extend
extend-Fresh areas a w v i = ground arith
