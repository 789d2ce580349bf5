-- ===== src/Database/Invites/Claims.antt =====
-- Claims of invitations (internal/database/invites.sql.go): whose they are, and their release.
use mathlib.Core.Path.{subst}
use gator_cli.Prelude.{
  ◌≡◌, ◌≢◌, refl, Bool, true, false, some, List, [], ◌∷◌, map, Text, text_eq→eq, find?, All, arith,
  Bool-cases, inl, inr,
}
use gator_cli.Database.{Uuid, Time, no_time}
use gator_cli.Database.Invites.{Invite, is_claimable, claim_row, release_row}

-- A row whose invitation is open has no time of a claim and no user.
pub record IsRow (i : Invite) : Type 0 where
  pub unclaimed : i.claimed_at.valid ≡ false → i.claimed_at ≡ no_time
  pub unused : i.claimed_at.valid ≡ false → i.user_id.valid ≡ false

abbrev pub IsNew : Uuid → Text → Invite → Type 0
IsNew id hash i = (id ≢ i.id) × (hash ≢ i.token_hash)

-- The rows of the table: the columns `id` and `token_hash` are unique.
abbrev pub IsTable : List Invite → Type 0
IsTable [] = Unit
IsTable (i ∷ rows) = IsRow i × All (IsNew i.id i.token_hash) rows × IsTable rows

find-All :
    (P : Invite → Type 0) (p : Invite → Bool) (rows : List Invite) (i : Invite)
    → All P rows
    → find? p rows ≡ some i
    → P i
find-All P p [] i h e = cc
find-All P p (j ∷ rows) i h e = elim (Bool-cases (p j)) [
  | inl here ↦ (let same : j ≡ i = ground (arith, e) in subst P same h.0)
  | inr there ↦ find-All P p rows i h.1 (ground (arith, e))
]

-- A row of another invitation is neither claimed nor released.
row_untouched :
    (now : Time) (hash : Text) (id : Uuid) (k : Invite)
    → IsNew id hash k
    → release_row id (claim_row now hash k) ≡ k
row_untouched now hash id k h = ground (arith, text_eq→eq k.token_hash hash)

rows_untouched :
    (now : Time) (hash : Text) (id : Uuid) (rows : List Invite)
    → All (IsNew id hash) rows
    → map (release_row id) (map (claim_row now hash) rows) ≡ rows
rows_untouched now hash id [] h = refl
rows_untouched now hash id (k ∷ rows) h =
    cc (row_untouched now hash id k h.0, rows_untouched now hash id rows h.1)

-- What is claimed and released is as it was.
row_back :
    (now : Time) (hash : Text) (i : Invite)
    → IsRow i
    → is_claimable now hash i ≡ true
    → release_row i.id (claim_row now hash i) ≡ i
row_back now hash i h open_ =
    let unclaimed : i.claimed_at.valid ≡ false = ground (arith, open_) in
    let unused : i.user_id.valid ≡ false = h.unused unclaimed in
    let time : i.claimed_at ≡ no_time = h.unclaimed unclaimed in
    rw (open_) (rw unused (ground (arith, time)))

hash_of :
    (now : Time) (hash : Text) (i : Invite) → is_claimable now hash i ≡ true → i.token_hash ≡ hash
hash_of now hash i open_ = text_eq→eq i.token_hash hash (ground (arith, open_))

pub release-claim :
    (now : Time) (hash : Text) (rows : List Invite) (i : Invite)
    → IsTable rows
    → find? (is_claimable now hash) rows ≡ some i
    → map (release_row i.id) (map (claim_row now hash) rows) ≡ rows
release-claim now hash [] i h e = refl
release-claim now hash (j ∷ rows) i h e = elim (Bool-cases (is_claimable now hash j)) [
  | inl here ↦
      (let same : j ≡ i = ground (arith, e) in
        let fresh : All (IsNew j.id hash) rows =
          subst (λ t. All (IsNew j.id t) rows) (hash_of now hash j here) h.1 in
        let whole : map (release_row j.id) (map (claim_row now hash) (j ∷ rows)) ≡ j ∷ rows =
          cc (row_back now hash j h.0 here, rows_untouched now hash j.id rows fresh) in
        subst
          (λ (k : Invite). map (release_row k.id) (map (claim_row now hash) (j ∷ rows)) ≡ j ∷ rows)
          same whole)
  | inr there ↦
      (let later : find? (is_claimable now hash) rows ≡ some i = ground (arith, e) in
        let new = find-All (IsNew j.id j.token_hash) (is_claimable now hash) rows i h.1 later in
        let head : release_row i.id (claim_row now hash j) ≡ j = rw there (ground (arith, new)) in
        cc (head, release-claim now hash rows i h.2 later))
]
