-- ===== src/Menu/Args/RoundTrip.antt =====
-- Quoted arguments on a line (internal/menu/args.go).
use gator_cli.Prelude.{
  ℕ, ◌≡◌, refl, ap, sym, ◌∙◌, true, false, ◌==◌, List, [], ◌∷◌, ◌++◌, append-nil, append_assoc,
  Text, arith, All,
}
use gator_cli.Menu.Args.{
  Splitting, double_quote, blank, flush_arg, split_char, split_chars, split_args,
}

-- The text has no double quote.
abbrev pub Unquoted : Text → Type 0
Unquoted s = All (λ r. (r == double_quote) ≡ false) s

-- Each argument between double quotes, with a blank behind it.
unfoldable pub quote_args : List Text → Text
quote_args [] = []
quote_args (a ∷ others) = double_quote ∷ (a ++ double_quote ∷ blank ∷ quote_args others)

inside : List Text → Text → Splitting
inside args cur = record { args = args; cur = cur; quote = double_quote; quoted = true }

between : List Text → Splitting
between args = record { args = args; cur = []; quote = 0; quoted = false }

split_char-inside :
    (args : List Text) (cur : Text) (r : ℕ)
    → (r == double_quote) ≡ false
    → split_char r (inside args cur) ≡ inside args (cur ++ r ∷ [])
unfolding split_char inside
split_char-inside args cur r h = rw h refl

split_chars-inside :
    (args : List Text) (cur a rest : Text)
    → Unquoted a
    → split_chars (a ++ rest) (inside args cur) ≡ split_chars rest (inside args (cur ++ a))
unfolding split_chars
split_chars-inside args cur [] rest h =
    ap (λ t. split_chars rest (inside args t)) (sym (append-nil cur))
split_chars-inside args cur (r ∷ a) rest h =
    ap (split_chars (a ++ rest)) (split_char-inside args cur r h.0)
    ∙ split_chars-inside args (cur ++ r ∷ []) a rest h.1
    ∙ ap (λ t. split_chars rest (inside args t)) (append_assoc cur (r ∷ []) a)

closes :
    (args : List Text) (a : Text)
    → split_char blank (split_char double_quote (inside args a)) ≡ between (args ++ a ∷ [])
unfolding split_char flush_arg inside between
closes args a = ground arith

opens : (args : List Text) → split_char double_quote (between args) ≡ inside args []
unfolding split_char inside between
opens args = refl

split_chars-quote_args :
    (others : List Text) (args : List Text)
    → All Unquoted others
    → split_chars (quote_args others) (between args) ≡ between (args ++ others)
unfolding split_chars quote_args
split_chars-quote_args [] args h = ap between (sym (append-nil args))
split_chars-quote_args (a ∷ others) args h =
    let rest = double_quote ∷ blank ∷ quote_args others in
    ap (split_chars (a ++ rest)) (opens args)
    ∙ split_chars-inside args [] a rest h.0
    ∙ ap (split_chars (quote_args others)) (closes args a)
    ∙ split_chars-quote_args others (args ++ a ∷ []) h.1
    ∙ ap between (append_assoc args (a ∷ []) others)

-- Arguments without a double quote that are written between double quotes, each with a blank
-- behind it, come back from SplitArgs as they were, empty ones included.
pub split_args-quote_args :
    (args : List Text) → All Unquoted args → split_args (quote_args args) ≡ args
unfolding split_args flush_arg between
split_args-quote_args args h =
    ap (λ (s : Splitting). (flush_arg s).args) (split_chars-quote_args args [] h)
