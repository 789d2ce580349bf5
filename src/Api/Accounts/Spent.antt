-- ===== src/Api/Accounts/Spent.antt =====
-- An invitation is spent on one account (internal/api/auth.go).
use gator_cli.Prelude.{◌≡◌, ◌≢◌, ◌⊎◌, none, some, List, map, Text, find?}
use gator_cli.Database.{Time, User}
use gator_cli.Http.{Response}
use gator_cli.Api.{Formats}
use gator_cli.Database.Invites.{Invite, is_claimable, claim_row, set_user_row}
use gator_cli.Api.Accounts.{NewUser, Registry, Tables}

-- The queries that take a claim back or record whose it is do not fail.
pub record IsReliable {W : Type 0} (registry : Registry W) : Type 0 where
  pub releases : (w : W) → registry.release_fails w ≡ none
  pub records : (w : W) → registry.set_user_fails w ≡ none

module _ {W : Type 0} (formats : Formats) (registry : Registry W) where
  -- An account is made, and the invitation that was open is claimed for it.
  pub record IsSpent (before after : List Invite) : Type 0 where
    pub now : Time
    pub hash : Text
    pub invite : Invite
    pub new_user : NewUser
    pub user : User
    pub world : W
    pub world' : W
    pub open_ : find? (is_claimable now hash) before ≡ some invite
    pub made : registry.create_user new_user world ≡ (user, none, world')
    pub rows : after ≡ map (set_user_row invite.id user.id) (map (claim_row now hash) before)

  -- No invitation is touched and no account announced, or one is spent.
  abbrev pub Outcome : List Invite → Response × Tables W → Type 0
  Outcome before (r, t) = ((r.status ≢ 201) × (t.invites ≡ before)) ⊎ IsSpent before t.invites
