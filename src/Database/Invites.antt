-- ===== src/Database/Invites.antt =====
-- The invitations (internal/database/models.go, and the SQL of internal/database/invites.sql.go as
-- functions on the rows of the table).
pub mod Claims
use mathlib.Core.Option
use gator_cli.Prelude.{
  ℕ, ◌+◌, ◌==◌, ltb, leb, Bool, true, false, not, ◌&&◌, if◌then◌else◌, Option, List, [], ◌∷◌, map,
  Text, text_eq, find?, keep, length,
}
use gator_cli.Database.{Uuid, Time, NullTime, NullUuid, no_time, no_uuid}

pub record Invite : Type 0 where
  pub id : Uuid
  pub token_hash : Text
  pub note : Text
  pub created_at : Time
  pub expires_at : Time
  pub claimed_at : NullTime
  pub user_id : NullUuid

-- The `WHERE` of `claimInvite`
abbrev pub is_claimable : Time → Text → Invite → Bool
is_claimable now hash i =
    text_eq i.token_hash hash && (not (i.claimed_at.valid) && ltb now i.expires_at)

abbrev pub claimed : Time → Invite → Invite
claimed now i = record i { claimed_at = record { time = now; valid = true } }

abbrev pub claim_row : Time → Text → Invite → Invite
claim_row now hash i = if is_claimable now hash i then claimed now i else i

-- `Queries.ClaimInvite`: the rows after it, and the first of those that it returns.
unfoldable pub claim_invite : Time → Text → List Invite → Option Invite × List Invite
claim_invite now hash rows =
    (Option.map (claimed now) (find? (is_claimable now hash) rows), map (claim_row now hash) rows)

-- `Queries.CreateInvite`
unfoldable pub create_invite : Uuid → Text → Text → Time → Time → List Invite → Invite × List Invite
create_invite id hash note created expires rows =
    let row : Invite = record {
      id = id;
      token_hash = hash;
      note = note;
      created_at = created;
      expires_at = expires;
      claimed_at = no_time;
      user_id = no_uuid;
    } in
    (row, row ∷ rows)

-- `Queries.DeleteInvite`, with the number of rows that are gone.
abbrev pub is_deletable : Uuid → Invite → Bool
is_deletable id i = i.id == id && not (i.claimed_at.valid)

unfoldable pub delete_invite : Uuid → List Invite → ℕ × List Invite
delete_invite id rows =
    (length (keep (is_deletable id) rows), keep (λ i. not (is_deletable id i)) rows)

-- `Queries.GetInvite`, with the column `expired`.
unfoldable pub get_invite : Time → Text → List Invite → Option (Invite × Bool)
get_invite now hash rows =
    Option.map (λ i. (i, leb i.expires_at now)) (find? (λ i. text_eq i.token_hash hash) rows)

-- `Queries.ReleaseInvite`
abbrev pub release_row : Uuid → Invite → Invite
release_row id i =
    if i.id == id && not (i.user_id.valid) then record i { claimed_at = no_time } else i

unfoldable pub release_invite : Uuid → List Invite → List Invite
release_invite id rows = map (release_row id) rows

-- `Queries.SetInviteUser`
abbrev pub set_user_row : Uuid → Uuid → Invite → Invite
set_user_row id user i =
    if i.id == id then record i { user_id = record { uuid = user; valid = true } } else i

unfoldable pub set_invite_user : Uuid → Uuid → List Invite → List Invite
set_invite_user id user rows = map (set_user_row id user) rows
