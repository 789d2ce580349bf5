-- ===== src/Files.antt =====
-- The way in which the program replaces a file: a temporary file is written beside it and renamed
-- (`rewrite` of internal/store/offline/queue.go, `save` of cache.go, and others like them).
use gator_cli.Prelude.{◌≡◌, refl, ◌⊎◌, inl, inr, Option, none, some, [], Text}
use gator_cli.Store.{Error, Result, ok, err}

-- How the calls end that replace or remove a file, each on its own.
pub record Replacing : Type 0 where
  pub removes : Option Error
  pub creates : Option Error
  pub chmods : Option Error
  pub closes : Option Error
  pub renames : Option Error

abbrev pub all_well : Replacing
all_well = record { removes = none; creates = none; chmods = none; closes = none; renames = none }

abbrev pub file_text : Option Text → Text
file_text none = []
file_text (some s) = s

-- The error of the first call that fails, with the old file; or the new file.
unfoldable pub replace_text : Replacing → Result Text → Option Text → Option Error × Option Text
replace_text io encoded file = elim io.creates [
  | some e ↦ (some e, file)
  | none ↦ elim io.chmods [
    | some e ↦ (some e, file)
    | none ↦ elim encoded [
      | err e ↦ (some e, file)
      | ok text ↦ elim io.closes [
        | some e ↦ (some e, file)
        | none ↦ elim io.renames [ some e ↦ (some e, file) | none ↦ (none, some text) ]
      ]
    ]
  ]
]

abbrev Atomic : Option Error × Option Text → Result Text → Option Text → Type 0
Atomic result encoded file =
    ((text : Text) × (encoded ≡ ok text) × (result ≡ (none, some text)))
    ⊎ ((e : Error) × (result ≡ (some e, file)))

steps-Atomic :
    (removes creates chmods closes renames : Option Error) (encoded : Result Text)
    (file : Option Text)
    → Atomic
        (replace_text
          (record {
            removes = removes;
            creates = creates;
            chmods = chmods;
            closes = closes;
            renames = renames;
          })
          encoded
          file)
        encoded
        file
unfolding replace_text
steps-Atomic removes (some e) chmods closes renames encoded file = inr (e, refl)
steps-Atomic removes none (some e) closes renames encoded file = inr (e, refl)
steps-Atomic removes none none closes renames (err e) file = inr (e, refl)
steps-Atomic removes none none (some e) renames (ok text) file = inr (e, refl)
steps-Atomic removes none none none (some e) (ok text) file = inr (e, refl)
steps-Atomic removes none none none none (ok text) file = inl (text, refl, refl)

pub replace_text_atomic :
    (io : Replacing) (encoded : Result Text) (file : Option Text)
    → ((text : Text) × (encoded ≡ ok text) × (replace_text io encoded file ≡ (none, some text)))
      ⊎ ((e : Error) × (replace_text io encoded file ≡ (some e, file)))
replace_text_atomic io = steps-Atomic io.removes io.creates io.chmods io.closes io.renames
