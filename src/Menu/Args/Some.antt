-- ===== src/Menu/Args/Some.antt =====
-- Whether a line has arguments (internal/menu/args.go).
use gator_cli.Prelude.{
  ℕ, ◌≡◌, refl, ap, ◌∙◌, Bool, true, false, not, ◌||◌, ◌==◌, List, [], ◌∷◌, ◌++◌, Text, text_eq,
  arith, any, is_space, trim_left, trim_right, trim_space, keep_unless, Bool-cases, inl, inr,
}
use gator_cli.Menu.Args.{Splitting, flush_arg, split_char, split_chars, split_args}

abbrev pub is_nil : List Text → Bool
is_nil [] = true
is_nil (x ∷ xs) = false

-- Some character of the text is no white space.
abbrev pub is_visible : Text → Bool
is_visible s = any (λ r. not (is_space r)) s

is_nil-append : (xs : List Text) (x : Text) → is_nil (xs ++ x ∷ []) ≡ false
is_nil-append [] x = refl
is_nil-append (y ∷ xs) x = refl

text_eq-append : (s : Text) (r : ℕ) → text_eq (s ++ r ∷ []) [] ≡ false
text_eq-append [] r = refl
text_eq-append (c ∷ s) r = refl

or_true : (b : Bool) → (b || true) ≡ true
or_true b = ground arith

keep_unless-visible :
    (b : Bool) (c : ℕ) (t : Text)
    → is_space c ≡ b
    → (text_eq t [] ≡ false → is_visible t ≡ true)
    → text_eq (keep_unless b c t) [] ≡ false
    → is_visible (keep_unless b c t) ≡ true
keep_unless-visible true c [] same ih h = cc
keep_unless-visible false c [] same ih h = ap (λ x. not x || false) same
keep_unless-visible true c (d ∷ t) same ih h =
    ap (λ x. not (is_space c) || x) (ih refl) ∙ or_true (not (is_space c))
keep_unless-visible false c (d ∷ t) same ih h = ap (λ x. not x || is_visible (d ∷ t)) same

trim_right-visible :
    (s : Text)
    → text_eq (trim_right is_space s) [] ≡ false
    → is_visible (trim_right is_space s) ≡ true
trim_right-visible [] h = cc
trim_right-visible (c ∷ s) h =
    keep_unless-visible (is_space c) c (trim_right is_space s) refl (trim_right-visible s) h

-- Something has been read that will be an argument.
abbrev has_begun : Splitting → Bool
has_begun s = not (is_nil s.args) || not (text_eq s.cur []) || s.quoted

split_char-begun : (r : ℕ) (s : Splitting) → has_begun s ≡ true → has_begun (split_char r s) ≡ true
unfolding split_char flush_arg
split_char-begun r s h = ground (arith, is_nil-append s.args s.cur, text_eq-append s.cur r)

split_chars-begun :
    (line : Text) (s : Splitting) → has_begun s ≡ true → has_begun (split_chars line s) ≡ true
unfolding split_chars
split_chars-begun [] s h = h
split_chars-begun (r ∷ line) s h = split_chars-begun line (split_char r s) (split_char-begun r s h)

split_char-visible :
    (r : ℕ) (s : Splitting)
    → (s.quote == 0) ≡ true
    → is_space r ≡ false
    → has_begun (split_char r s) ≡ true
unfolding split_char
split_char-visible r s q h = ground (arith, q, h, text_eq-append s.cur r)

split_char-blank :
    (r : ℕ) (s : Splitting)
    → (s.quote == 0) ≡ true
    → is_space r ≡ true
    → ((split_char r s).quote == 0) ≡ true
unfolding split_char flush_arg
split_char-blank r s q h = ground (arith, q, h)

split_chars-visible :
    (line : Text) (s : Splitting)
    → (s.quote == 0) ≡ true
    → is_visible line ≡ true
    → has_begun (split_chars line s) ≡ true
unfolding split_chars
split_chars-visible [] s q h = cc
split_chars-visible (r ∷ line) s q h = elim (Bool-cases (is_space r)) [
  | inl e ↦ split_chars-visible line (split_char r s) (split_char-blank r s q e) (rw e at h)
  | inr e ↦ split_chars-begun line (split_char r s) (split_char-visible r s q e)
]

flush_arg-begun : (s : Splitting) → has_begun s ≡ true → is_nil (flush_arg s).args ≡ false
unfolding flush_arg
flush_arg-begun s h = ground (arith, is_nil-append s.args s.cur)

-- What is left of a text when the white space around it is cut has an argument, unless it is empty.
pub split_args-trim_space :
    (s : Text) → text_eq (trim_space s) [] ≡ false → is_nil (split_args (trim_space s)) ≡ false
unfolding split_args
split_args-trim_space s h =
    flush_arg-begun _
      (split_chars-visible (trim_space s) _ refl (trim_right-visible (trim_left is_space s) h))
