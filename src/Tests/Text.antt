-- ===== src/Tests/Text.antt =====
-- kernel/core/printk.c on small numbers and a short format string.
use lasagne.Base.{ℕ, List, [], ◌∷◌}

-- The text "a".
abbrev text : List ℕ
text = b'a' ∷ []
