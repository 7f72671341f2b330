-- ===== src/Tests/Words.antt =====
-- kernel/include/util/bitmap.h and math.h on small numbers.
use lasagne.Base.{ℕ, List, [], ◌∷◌}

abbrev buffer : List ℕ
buffer = 0x81 ∷ 0x10 ∷ []
