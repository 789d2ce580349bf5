-- ===== src/Examples/Codec.antt =====
-- A codec for changes that keeps what the queue relies on. It writes each field as its length and its
-- numbers, all moved above the control characters and the blanks.
use mathlib.Core.Path.{subst}
use gator_cli.Prelude.{
  ℕ, zero, suc, ◌+◌, ◌-◌, ◌≤◌, ◌≡◌, refl, ap, sym, ◌∙◌, ◌==◌, Bool, true, false, if◌then◌else◌,
  Option, none, some, List, [], ◌∷◌, ◌++◌, map, arith, length, All, All-append, Text, text_eq,
  trim_space, trim_left, trim_right, keep_unless, is_space,
}
use gator_cli.Store.{Result, ok}
use gator_cli.Offline.Changes.{Change, Codec, IsFaithful, newline, Lacks}

abbrev base : ℕ
base = 100000

abbrev raise : ℕ → ℕ
raise n = n + base

infixl 5 ◌>>=◌
abbrev ◌>>=◌ : {A B : Type 0} → Option A → (A → Option B) → Option B
none >>= f = none
some a >>= f = f a

unfoldable pub field : List ℕ → Text
field xs = raise (length xs) ∷ map raise xs

abbrev take_numbers : ℕ → Text → Option (List ℕ × Text)
take_numbers zero s = some ([], s)
take_numbers (suc n) [] = none
take_numbers (suc n) (c ∷ s) = do (xs, rest) ← take_numbers n s; some ((c - base) ∷ xs, rest)

unfoldable pub read_field : Text → Option (List ℕ × Text)
read_field [] = none
read_field (c ∷ s) = take_numbers (c - base) s

abbrev write_bool : Bool → ℕ
write_bool b = if b then 1 else 0

unfoldable pub encoded : Change → Text
encoded c =
    field c.op
    ++ (field (c.post_id ∷ [])
        ++ (field c.post_ids
            ++ (field (write_bool c.value ∷ [])
                ++ (field c.url ++ (field c.category ++ (field (c.at ∷ []) ++ []))))))

abbrev first : List ℕ → ℕ
first [] = 0
first (x ∷ xs) = x

unfoldable pub decoded : Text → Option Change
decoded s = do
  (op, s) ← read_field s
  (id, s) ← read_field s
  (ids, s) ← read_field s
  (value, s) ← read_field s
  (url, s) ← read_field s
  (category, s) ← read_field s
  (at, s) ← read_field s
  some (record {
    op = op;
    post_id = first id;
    post_ids = ids;
    value = first value == 1;
    url = url;
    category = category;
    at = first at;
  })

take_numbers-raise :
    (xs : List ℕ) (s : Text) → take_numbers (length xs) (map raise xs ++ s) ≡ some (xs, s)
take_numbers-raise [] s = refl
take_numbers-raise (x ∷ xs) s = ground (arith, take_numbers-raise xs s)

read_field-field : (xs : List ℕ) (s : Text) → read_field (field xs ++ s) ≡ some (xs, s)
unfolding read_field field
read_field-field xs s =
    ap (λ n. take_numbers n (map raise xs ++ s)) (omega arith) ∙ take_numbers-raise xs s

write_bool-first : (b : Bool) → (write_bool b == 1) ≡ b
write_bool-first true = refl
write_bool-first false = refl

decoded-encoded : (c : Change) → decoded (encoded c) ≡ some c
unfolding decoded encoded
decoded-encoded c =
    let s6 = field (c.at ∷ []) ++ [] in
    let s5 = field c.category ++ s6 in
    let s4 = field c.url ++ s5 in
    let s3 = field (write_bool c.value ∷ []) ++ s4 in
    let s2 = field c.post_ids ++ s3 in
    let s1 = field (c.post_id ∷ []) ++ s2 in
    rw
      (
        read_field-field c.op s1,
        read_field-field (c.post_id ∷ []) s2,
        read_field-field c.post_ids s3,
        read_field-field (write_bool c.value ∷ []) s4,
        read_field-field c.url s5,
        read_field-field c.category s6,
        read_field-field (c.at ∷ []) [],
        write_bool-first c.value,
      )
      refl

-- All numbers of the text are above the blanks and the newline.
abbrev Raised : Text → Type 0
Raised s = All (λ c. base ≤ c) s

map-raise-Raised : (xs : List ℕ) → Raised (map raise xs)
map-raise-Raised [] = tt
map-raise-Raised (x ∷ xs) = (omega arith, map-raise-Raised xs)

field-append-Raised : (xs : List ℕ) (s : Text) → Raised s → Raised (field xs ++ s)
unfolding field
field-append-Raised xs s h =
    (omega arith, All-append (λ c. base ≤ c) (map raise xs) s (map-raise-Raised xs) h)

encoded-Raised : (c : Change) → Raised (encoded c)
unfolding encoded
encoded-Raised c = field-append-Raised c.op _ (
    field-append-Raised (c.post_id ∷ []) _ (
      field-append-Raised c.post_ids _ (
        field-append-Raised (write_bool c.value ∷ []) _ (
          field-append-Raised c.url _
            (field-append-Raised c.category _ (field-append-Raised (c.at ∷ []) [] tt))))))

Lacks-newline : (s : Text) → Raised s → Lacks newline s
Lacks-newline [] h = tt
Lacks-newline (c ∷ s) h = (ground (arith, h.0), Lacks-newline s h.1)

Raised-blank : (c : ℕ) → base ≤ c → is_space c ≡ false
Raised-blank c h = ground arith

trim_right-Raised : (s : Text) → Raised s → trim_right is_space s ≡ s
trim_right-Raised [] h = refl
trim_right-Raised (c ∷ s) h = rw (Raised-blank c h.0, trim_right-Raised s h.1) (kept c s)
  where
    kept : (c : ℕ) (s : Text) → keep_unless false c s ≡ c ∷ s
    kept c [] = refl
    kept c (d ∷ s) = refl

trim_left-Raised : (s : Text) → Raised s → trim_left is_space s ≡ s
trim_left-Raised [] h = refl
trim_left-Raised (c ∷ s) h = rw (Raised-blank c h.0) refl

encoded-nonempty : (c : Change) → text_eq (encoded c) [] ≡ false
unfolding encoded field
encoded-nonempty c = refl

ok_cancel : (s t : Text) → ◌≡◌ {A = Result Text} (ok s) (ok t) → s ≡ t
ok_cancel s t h = cc

abbrev pub codec : Codec
codec = record { marshal = λ c. ok (encoded c); unmarshal = decoded }

pub codec-IsFaithful : IsFaithful codec
codec-IsFaithful = record {
  decodes = λ c line h. ap decoded (sym (ok_cancel _ _ h)) ∙ decoded-encoded c;
  one_line = λ c line h.
      subst (Lacks newline) (ok_cancel _ _ h) (Lacks-newline (encoded c) (encoded-Raised c));
  visible = λ c line h.
      ap (λ t. text_eq (trim_space t) []) (sym (ok_cancel _ _ h))
      ∙ ap (λ t. text_eq (trim_right is_space t) [])
          (trim_left-Raised (encoded c) (encoded-Raised c))
      ∙ ap (λ t. text_eq t []) (trim_right-Raised (encoded c) (encoded-Raised c))
      ∙ encoded-nonempty c;
}
