-- ===== src/TextLines/Cut.antt =====
-- What `Truncate` of internal/text/text.go leaves of a text.
use gator_cli.Prelude.{ℕ, ◌≤◌, ◌≡◌, Text, take}

-- The text is one that `take` gives, of at most n characters.
Front : ℕ → Text → Text → Type 0
Front n s t = (k : ℕ) × (k ≤ n) × (t ≡ take k s)
