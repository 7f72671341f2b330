-- ===== src/Buddy/Merge.antt =====
-- kernel/mm/buddy.c: a block that was split for an allocation is joined again when it is freed.
use lasagne.Base.{ℕ, ◌≤◌, ◌<◌, ◌≡◌, List, []}

-- The levels between have no free block.
abbrev AreEmpty : (ℕ → List ℕ) → (above until : ℕ) → Type 0
AreEmpty lists above until = (m : ℕ) → above < m → m ≤ until → lists m ≡ []
