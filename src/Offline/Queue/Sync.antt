-- ===== src/Offline/Queue/Sync.antt =====
-- The queue in memory and its file (internal/store/offline/queue.go): when the file holds what is in
-- memory, and what a file of encoded changes holds.
use mathlib.Core.Path.{subst}
use gator_cli.Prelude.{
  inl, inr, ◌≡◌, refl, ap, ◌∙◌, List, [], ◌∷◌, ◌++◌, Option, none, some, true, arith, Text,
  split_at, All, All-append,
}
use gator_cli.Store.{ok, >>=-eq-ok}
use gator_cli.Files.{Replacing, file_text, replace_text_atomic}
use gator_cli.Offline.Changes.{Change, Codec, IsFaithful, HasOp, newline, Lacks}
use gator_cli.Offline.Queue.{
  Queue, kept_line, prepend, load_lines, load_queue, encode_all, remove_file, replace_file, rewrite,
}
use gator_cli.Offline.Queue.Lines.{
  unlines, unlines-append, load_lines-split_at, load_lines-append, kept_line-marshal,
}

module _ (codec : Codec) where
  -- The file is made of finished lines, and loading them gives what is in memory.
  pub record Holds (file : Text) (cs : List Change) : Type 0 where
    pub lines : List Text
    pub finished : All (Lacks newline) lines
    pub written : file ≡ unlines lines
    pub loaded : load_lines codec lines ≡ cs

  abbrev pub IsInSync : Queue → Type 0
  IsInSync q = Holds (file_text q.file) q.pending

  pub pending-load_queue :
      (file : Option Text)
      → (load_queue codec true file).pending ≡ load_lines codec (split_at newline (file_text file))
  unfolding load_queue load_lines kept_line
  pending-load_queue none = refl
  pending-load_queue (some s) = refl

  pub reload : (q : Queue) → IsInSync q → (load_queue codec true q.file).pending ≡ q.pending
  reload q h =
      pending-load_queue q.file
      ∙ ap (λ s. load_lines codec (split_at newline s)) h.written
      ∙ load_lines-split_at codec h.lines h.finished
      ∙ h.loaded

  file-remove_file :
      (io : Replacing) (q : Queue) → (remove_file io q).0 ≡ none → (remove_file io q).1.file ≡ none
  unfolding remove_file
  file-remove_file io q e = ground arith

  file-replace_file :
      (io : Replacing) (q : Queue)
      → (replace_file codec io q).0 ≡ none
      → (text : Text) × (encode_all codec q.pending ≡ ok text)
        × (file_text (replace_file codec io q).1.file ≡ text)
  unfolding replace_file
  file-replace_file io q e = elim (replace_text_atomic io (encode_all codec q.pending) q.file) [
    | inl (text, encoded, written) ↦ (text, encoded, rw written refl)
    | inr (x, failed) ↦ absurd (cc (failed))
  ]

  pub file-rewrite :
      (io : Replacing) (cs : List Change) (file : Option Text)
      → (rewrite codec io (record { pending = cs; file = file })).0 ≡ none
      → (text : Text) × (encode_all codec cs ≡ ok text)
        × (file_text (rewrite codec io (record { pending = cs; file = file })).1.file ≡ text)
  unfolding rewrite
  file-rewrite io [] file e = (
    [],
    unfold encode_all in refl,
    ap file_text (file-remove_file io (record { pending = []; file = file }) e),
  )
  file-rewrite io (c ∷ cs) file e =
      file-replace_file io (record { pending = c ∷ cs; file = file }) e

  -- A change that is loaded has an operation.
  kept_line-HasOp : (line : Text) (c : Change) → kept_line codec line ≡ some c → HasOp c
  unfolding kept_line
  kept_line-HasOp line c h = ground arith

  pub load_lines-HasOp : (ls : List Text) → All HasOp (load_lines codec ls)
  unfolding load_lines
  load_lines-HasOp [] = tt
  load_lines-HasOp (l ∷ ls) = prepended (kept_line codec l) refl (load_lines-HasOp ls)
    where
      prepended :
          (o : Option Change)
          → kept_line codec l ≡ o
          → All HasOp (load_lines codec ls)
          → All HasOp (prepend codec o (load_lines codec ls))
      prepended none e h = h
      prepended (some c) e h = (kept_line-HasOp l c e, h)

  module _ (faithful : IsFaithful codec) where
    pub append-Holds :
        (file line : Text) (c : Change) (cs : List Change)
        → codec.marshal c ≡ ok line
        → HasOp c
        → Holds file cs
        → Holds (file ++ line ++ newline ∷ []) (cs ++ c ∷ [])
    append-Holds file line c cs e op h = record {
      lines = h.lines ++ line ∷ [];
      finished =
          All-append (Lacks newline) h.lines (line ∷ []) h.finished
            (faithful.one_line c line e, tt);
      written = rw (h.written, unlines-append h.lines line) refl;
      loaded =
          rw (load_lines-append codec h.lines (line ∷ []), h.loaded)
            (unfold load_lines in rw (kept_line-marshal codec faithful c line e op) refl);
    }

    cons-Holds :
        (line rest : Text) (c : Change) (cs : List Change)
        → codec.marshal c ≡ ok line
        → HasOp c
        → Holds rest cs
        → Holds (line ++ newline ∷ rest) (c ∷ cs)
    cons-Holds line rest c cs e op h = record {
      lines = line ∷ h.lines;
      finished = (faithful.one_line c line e, h.finished);
      written = ap (λ t. line ++ newline ∷ t) h.written;
      loaded =
          unfold load_lines in
          rw (kept_line-marshal codec faithful c line e op) (ap (λ l. c ∷ l) h.loaded);
    }

    pub encode_all-Holds :
        (cs : List Change) (text : Text)
        → All HasOp cs
        → encode_all codec cs ≡ ok text
        → Holds text cs
    unfolding encode_all
    encode_all-Holds [] text ops e = record {
      lines = [];
      finished = tt;
      written = cc;
      loaded = unfold load_lines in refl;
    }
    encode_all-Holds (c ∷ cs) text ops e =
        let (line, marshalled, e') = >>=-eq-ok (codec.marshal c) _ e in
        let (rest, encoded, written) = >>=-eq-ok (encode_all codec cs) _ e' in
        subst (λ t. Holds t (c ∷ cs)) (cc)
          (cons-Holds line rest c cs marshalled ops.0 (encode_all-Holds cs rest ops.1 encoded))
