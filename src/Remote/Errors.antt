-- ===== src/Remote/Errors.antt =====
-- What becomes of an error of the server's store on its way to the client (`Server.fail` of
-- internal/api/server.go, `do` and `Error.Is` of internal/store/remote/remote.go).
use gator_cli.Prelude.{
  ℕ, ◌≡◌, refl, Bool, true, false, if◌then◌else◌, some, [], ◌∷◌, Text, text_eq, codes, arith,
  Bool-cases, inl, inr,
}
use gator_cli.Store.{
  Error, Sentinel, ok, err, error_is, feed_not_found, not_followed, no_more_text, canceled, blocked,
}
use gator_cli.Http.{Document}
use gator_cli.Api.{fail, blocked_message}
use gator_cli.Api.Handlers.{ok_or_created}
use gator_cli.Remote.{Client, arrived, received, remote_error, sentinels, document_of}

-- An error that keeps its message, if it has one, and is then the sentinel.
abbrev pub told : Text → Sentinel → Error → Error
told line sentinel e =
    if text_eq e.message []
    then record { message = line; wraps = [] }
    else record { message = e.message; wraps = sentinel ∷ [] }

abbrev pub told_only : Text → Error
told_only message = record { message = message; wraps = [] }

-- What the client sees of an error of the store behind the server.
abbrev pub over_wire : (ℕ → Text) → Error → Error
over_wire line e =
    if error_is (some e) feed_not_found
    then told (line 404) feed_not_found e
    else if error_is (some e) not_followed
    then told (line 409) not_followed e
    else if error_is (some e) blocked
    then told_only blocked_message
    else if error_is (some e) no_more_text
    then told (line 422) no_more_text e
    else if error_is (some e) canceled
    then told_only (codes "request cancelled")
    else told_only (codes "internal error")

module _ {W : Type 0} (client : Client W) where
  pub received-fail :
      (e : Error) → received client (arrived (fail e)) ≡ err (over_wire client.status_line e)
  unfolding received fail remote_error sentinels
  received-fail e = elim (Bool-cases (error_is (some e) feed_not_found)) [
    | inl a ↦ rw a (ground arith)
    | inr a ↦ rw a (elim (Bool-cases (error_is (some e) not_followed)) [
      | inl b ↦ rw b (ground arith)
      | inr b ↦ rw b (elim (Bool-cases (error_is (some e) blocked)) [
        | inl c ↦ rw c refl
        | inr c ↦ rw c (elim (Bool-cases (error_is (some e) no_more_text)) [
          | inl d ↦ rw d (ground arith)
          | inr d ↦ rw d (elim (Bool-cases (error_is (some e) canceled)) [
            | inl f ↦ rw f refl
            | inr f ↦ rw f refl
          ])
        ])
      ])
    ])
  ]

  pub document-ok_or_created :
      (created : Bool) (d : Document)
      → document_of client (received client (arrived (ok_or_created created d))) ≡ ok d
  unfolding received
  document-ok_or_created true d = refl
  document-ok_or_created false d = refl
