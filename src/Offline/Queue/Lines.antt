-- ===== src/Offline/Queue/Lines.antt =====
-- The queue's file as lines (internal/store/offline/queue.go): splitting a text that is made of
-- finished lines, and loading one after a line was appended.
use gator_cli.Prelude.{
  ◌≡◌, refl, ap, List, [], ◌∷◌, ◌++◌, append_assoc, none, some, arith, Text, split_at, ==_refl, All,
  ℕ, append-nil,
}
use gator_cli.Store.{ok}
use gator_cli.Offline.Changes.{Change, Codec, IsFaithful, HasOp, newline, Lacks}
use gator_cli.Offline.Queue.{kept_line, prepend, load_lines}

-- Each line with a newline behind it.
abbrev pub unlines : List Text → Text
unlines [] = []
unlines (l ∷ ls) = l ++ newline ∷ unlines ls

pub unlines-append :
    (ls : List Text) (l : Text) → unlines (ls ++ l ∷ []) ≡ unlines ls ++ l ++ newline ∷ []
unlines-append [] l = refl
unlines-append (k ∷ ls) l = simp (unlines-append ls l, append_assoc)

pub split_at-append :
    (sep : ℕ) (s t : Text) → Lacks sep s → split_at sep (s ++ sep ∷ t) ≡ s ∷ split_at sep t
split_at-append sep [] t h = ground (arith, ==_refl sep)
split_at-append sep (c ∷ s) t h = rw (h.0, split_at-append sep s t h.1) refl

split_at-unlines :
    (ls : List Text) → All (Lacks newline) ls → split_at newline (unlines ls) ≡ ls ++ [] ∷ []
split_at-unlines [] h = refl
split_at-unlines (l ∷ ls) h =
    rw (split_at-append newline l (unlines ls) h.0, split_at-unlines ls h.1)

module _ (codec : Codec) where
  pub load_lines-append :
      (ls ks : List Text) → load_lines codec (ls ++ ks) ≡ load_lines codec ls ++ load_lines codec ks
  unfolding load_lines
  load_lines-append [] ks = refl
  load_lines-append (l ∷ ls) ks =
      elim (kept_line codec l)
        as (λ o.
          prepend codec o (load_lines codec (ls ++ ks))
          ≡ prepend codec o (load_lines codec ls) ++ load_lines codec ks) [
            | none ↦ load_lines-append ls ks
            | some c ↦ ap (λ r. c ∷ r) (load_lines-append ls ks)
          ]

  load_lines_blank : load_lines codec ([] ∷ []) ≡ []
  unfolding load_lines kept_line
  load_lines_blank = refl

  -- Of a file of finished lines each line is read for itself.
  pub load_lines-split_at :
      (ls : List Text)
      → All (Lacks newline) ls
      → load_lines codec (split_at newline (unlines ls)) ≡ load_lines codec ls
  load_lines-split_at ls h =
      rw (split_at-unlines ls h, load_lines-append ls ([] ∷ []), load_lines_blank, append-nil) refl

  module _ (faithful : IsFaithful codec) where
    pub kept_line-marshal :
        (c : Change) (line : Text)
        → codec.marshal c ≡ ok line
        → HasOp c
        → kept_line codec line ≡ some c
    unfolding kept_line
    kept_line-marshal c line e h = rw (faithful.visible c line e, faithful.decodes c line e, h) refl
