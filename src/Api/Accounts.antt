-- ===== src/Api/Accounts.antt =====
-- Accounts, invitations and tokens of the server (internal/api/auth.go, join.go). The table of
-- invitations is that of internal/database/invites.sql.go; the other tables, the clock, bcrypt and the
-- random tokens are functions of a world `W`.
pub mod Spent
use mathlib.Core.Option
use gator_cli.Prelude.{
  ℕ, ltb, Bool, true, false, not, ◌&&◌, ◌||◌, if◌then◌else◌, Option, none, some, List, [], ◌∷◌,
  ◌++◌, Text, text_eq, codes, any, ◌==◌, length, trim_space, is_some,
}
use gator_cli.Database.{Uuid, Time, NullString, User}
use gator_cli.Wire.{from_user}
use gator_cli.Store.{Error, Result, ok, err, error_is, no_rows, duplicate}
use gator_cli.Http.{Document, no_document, Body, or_zero, Response}
use gator_cli.Api.{
  Formats, write_json, write_text, write_error, fail, decode, invalid_body, code_unauthorized,
  code_bad_request, code_conflict,
}
use gator_cli.Database.Invites.{Invite, claim_invite, get_invite, release_invite, set_invite_user}
use gator_cli.Invite.{link}
use gator_cli.Offline.Store.{Reply}

abbrev pub min_password_length : ℕ
min_password_length = 8

abbrev pub max_name_length : ℕ
max_name_length = 20

-- CreateUserWithCredentialsParams, less the identifier and the time.
pub record NewUser : Type 0 where
  pub name : Text
  pub email : NullString
  pub password_hash : Text

-- What the handlers ask of their surroundings. A query of the table of invitations that fails has its
-- error here, and then changes nothing.
pub record Registry (W : Type 0) : Type 0 where
  pub now : W → Time
  pub hash_password : Text → Result Text
  pub verify_password : Text → Text → Bool
  pub decoy_hash : Text
  pub valid_email : Text → Bool
  pub show_date : Time → Text
  pub claim_fails : W → Option Error
  pub get_fails : W → Option Error
  pub release_fails : W → Option Error
  pub set_user_fails : W → Option Error
  pub create_user : NewUser → W → Reply W User
  pub user_by_email : Text → W → Reply W User
  pub user_by_name : Text → W → Reply W User
  pub generate_token : W → Result Text × W
  pub create_token : Uuid → Text → W → Option Error × W

-- What follows a query: its error, or the rest.
abbrev pub on_error : {A : Type 0} → Option Error → (Error → A) → A → A
on_error (some e) failed rest = failed e
on_error none failed rest = rest

-- The table of invitations and the world.
pub record Tables (W : Type 0) : Type 0 where
  pub invites : List Invite
  pub world : W

module _ {W : Type 0} (formats : Formats) (registry : Registry W) where
  abbrev pub Answer : Type 0
  Answer = Response × Tables W

  abbrev pub decoded : Option Document → (Document → Answer) → Tables W → Answer
  decoded none next t = (invalid_body, t)
  decoded (some d) next t = next d

  abbrev pub with_token : Result Text → User → ℕ → Tables W → Answer
  with_token (err e) user status t = (fail e, t)
  with_token (ok token) user status t =
      let (e, w) = registry.create_token user.id (formats.hash_token token) t.world in
      (
        on_error e fail (
            write_json status
              (record no_document { token = some token; user = some (from_user user) })),
        record t { world = w },
      )

  -- `respondWithToken`
  unfoldable pub respond_with_token : User → ℕ → Tables W → Answer
  respond_with_token user status t =
      let (token, w) = registry.generate_token t.world in
      with_token token user status (record t { world = w })

  -- `releaseInvite`
  unfoldable pub release : Uuid → Tables W → Tables W
  release id t =
      on_error (registry.release_fails t.world) (λ _. t)
        (record t { invites = release_invite id t.invites })

  -- The call of SetInviteUser in `register`, whose error is logged.
  unfoldable pub record_user : Uuid → Uuid → Tables W → Tables W
  record_user id user t =
      on_error (registry.set_user_fails t.world) (λ _. t)
        (record t { invites = set_invite_user id user t.invites })

  abbrev pub refusal_of : Option (Invite × Bool) → Text
  refusal_of none = codes "that invite link is not valid"
  refusal_of (some (i, expired)) =
      if i.claimed_at.valid
      then codes "that invite link has already been used"
      else codes "that invite link expired on " ++ registry.show_date i.expires_at

  -- `inviteRefusal`
  unfoldable pub invite_refusal : Text → Time → Tables W → Text
  invite_refusal hash now t =
      on_error (registry.get_fails t.world) (λ _. codes "that invite link is not valid")
        (refusal_of (get_invite now hash t.invites))

  abbrev pub created_account : Invite → Reply W User → List Invite → Answer
  created_account claimed (user, some e, w) invites = (
    if error_is (some e) duplicate
        then write_error 409 code_conflict (codes "that name or email is already taken")
        else fail e,
    release claimed.id (record { invites = invites; world = w }),
  )
  created_account claimed (user, none, w) invites =
      respond_with_token user 201
        (record_user claimed.id user.id (record { invites = invites; world = w }))

  -- `register`, from the claim of the invitation on.
  abbrev pub claim_and_create :
      NewUser → Text → Time → Tables W → Option Invite × List Invite → Answer
  claim_and_create user hash now t (none, invites) =
      (write_error 403 code_unauthorized (invite_refusal hash now t), t)
  claim_and_create user hash now t (some claimed, invites) =
      created_account claimed (registry.create_user user t.world) invites

  unfoldable pub claim_and_register : NewUser → Text → Tables W → Answer
  claim_and_register user token t =
      let now = registry.now t.world in
      let hash = formats.hash_token token in
      on_error (registry.claim_fails t.world) (λ e. (fail e, t))
        (claim_and_create user hash now t (claim_invite now hash t.invites))

  abbrev pub hashed : Result Text → Text → Text → Text → Tables W → Answer
  hashed (err e) name email token t = (write_error 400 code_bad_request e.message, t)
  hashed (ok hash) name email token t =
      claim_and_register
        (record {
          name = name;
          email = record { string = email; valid = true };
          password_hash = hash;
        })
        token t

  unfoldable pub register_document : Document → Tables W → Answer
  register_document d t =
      let token = trim_space (or_zero [] d.invite) in
      let name = trim_space (or_zero [] d.name) in
      let email = trim_space (or_zero [] d.email) in
      let password = or_zero [] d.password in
      if text_eq token []
      then (
        write_error 403 code_unauthorized
            (codes "this server needs an invite link: gator register --link=<link> <name>"),
        t,
      )
      else if text_eq name [] || ltb max_name_length (length name)
      then (write_error 400 code_bad_request (codes "name must be 1-20 characters"), t)
      else if not (registry.valid_email email)
      then (write_error 400 code_bad_request (codes "a valid email is required"), t)
      else if ltb (length password) min_password_length
      then (write_error 400 code_bad_request (codes "password must be at least 8 characters"), t)
      else hashed (registry.hash_password password) name email token t

  -- `register`
  unfoldable pub register : Body → Tables W → Answer
  register body t = decoded (decode formats body) (λ d. register_document d t) t

  abbrev pub verified_login : Text → Reply W User → List Invite → Answer
  verified_login password (user, e, w) invites =
      let missing = is_some e || text_eq user.password_hash [] in
      let hash = if missing then registry.decoy_hash else user.password_hash in
      let verified = registry.verify_password hash password in
      let t : Tables W = record { invites = invites; world = w } in
      let granted = respond_with_token user 200 t in
      let refused : Answer =
        (write_error 401 code_unauthorized (codes "wrong name, email or password"), t) in
      on_error e (λ failed. if error_is (some failed) no_rows then refused else (fail failed, t))
        (if text_eq user.password_hash [] || not verified then refused else granted)

  unfoldable pub login_document : Document → Tables W → Answer
  login_document d t =
      let login = trim_space (or_zero [] d.login) in
      let reply =
        if any (λ c. c == 64) login
        then registry.user_by_email login t.world
        else registry.user_by_name login t.world in
      verified_login (or_zero [] d.password) reply t.invites

  -- `issueToken`
  unfoldable pub issue_token : Body → Tables W → Answer
  issue_token body t = decoded (decode formats body) (λ d. login_document d t) t

  abbrev pub join_of : Text → Text → Option (Invite × Bool) → Response
  join_of base token none = write_text 404 (codes "This invite link is not valid.\n")
  join_of base token (some (i, expired)) =
      if i.claimed_at.valid
      then write_text 410 (codes "This invite link has already been used.\n")
      else if expired
      then write_text 410
          (codes "This invite link expired on " ++ registry.show_date i.expires_at ++ codes ".\n")
      else write_text 200 (
          codes
            "You have been invited to gator, an RSS reader that runs in your terminal.\n\nInstall it from https://github.com/MSamoilovic/gator-cli, then run:\n\n    gator register --link="
          ++ link base token
          ++ codes " <your-name>\n\nThe link is good for one account and expires on "
          ++ registry.show_date i.expires_at
          ++ codes ".\n")

  -- `joinPage`; `base` is `externalBase`.
  unfoldable pub join_page : Text → Text → Tables W → Response
  join_page base token t =
      on_error (registry.get_fails t.world) fail (
        join_of base token (get_invite (registry.now t.world) (formats.hash_token token) t.invites))
