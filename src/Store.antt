-- ===== src/Store.antt =====
-- internal/store/store.go: the queries, the sync state and the errors that every store shares.
use gator_cli.Prelude.{
  ◌≡◌, refl, ℕ, Bool, false, ◌||◌, Option, none, some, List, [], ◌++◌, Text, codes, text_eq, ◌==◌,
  any,
}
use gator_cli.Prelude.Int.{ℤ}
use gator_cli.Database.{Uuid, Time}

abbrev pub ReadState : Type 0
ReadState = Text

abbrev pub read_any : ReadState
read_any = codes "all"

abbrev pub read_unread : ReadState
read_unread = codes "unread"

abbrev pub read_only : ReadState
read_only = codes "read"

-- `ReadState.Valid`
unfoldable pub read_valid : ReadState → Bool
read_valid r = text_eq r [] || text_eq r read_any || text_eq r read_unread || text_eq r read_only

pub record PostQuery : Type 0 where
  pub feed_id : Uuid
  pub feed_name : Text
  pub query : Text
  pub read : ReadState
  pub since : Time
  pub sort_dir : Text
  pub per_feed : ℤ  -- int32
  pub limit : ℤ  -- int32
  pub offset : ℤ  -- int32

pub record SyncState : Type 0 where
  pub online : Bool
  pub last_sync : Time
  pub pending : ℕ
  pub dropped : ℤ

pub record SyncResult : Type 0 where
  pub sent : ℕ
  pub pending : ℕ
  pub dropped : ℤ
  pub posts : ℕ
  pub feeds : ℕ

-- The sentinel errors of the package, and those of others that the stores and the server look for:
-- sql.ErrNoRows, context.Canceled, fetch.ErrBlocked, rss.ErrNotModified, errors.ErrUnsupported, and
-- the code of a unique violation in a pq.Error.
pub data Sentinel : Type 0 where
  no_more_text not_followed feed_not_found unauthorized plan_limit unreachable never_synced :
      Sentinel
  no_rows canceled blocked not_modified unsupported duplicate : Sentinel

abbrev pub sentinel_number : Sentinel → ℕ
sentinel_number no_more_text = 0
sentinel_number not_followed = 1
sentinel_number feed_not_found = 2
sentinel_number unauthorized = 3
sentinel_number plan_limit = 4
sentinel_number unreachable = 5
sentinel_number never_synced = 6
sentinel_number no_rows = 7
sentinel_number canceled = 8
sentinel_number blocked = 9
sentinel_number not_modified = 10
sentinel_number unsupported = 11
sentinel_number duplicate = 12

-- An error is its message and the sentinels in its tree of `%w`.
pub record Error : Type 0 where
  pub message : Text
  pub wraps : List Sentinel

-- `errors.Is` of an error that may be nil
abbrev pub error_is : Option Error → Sentinel → Bool
error_is none s = false
error_is (some e) s = any (λ t. sentinel_number t == sentinel_number s) e.wraps

-- `fmt.Errorf` with one text in front of `%w`
abbrev pub wrap : Text → Error → Error
wrap text e = record { message = text ++ e.message; wraps = e.wraps }

-- Go's pair of a value and an error, where one of them is nil.
pub data Result {ℓ} (V : Type ℓ) : Type ℓ where
  err : Error → Result V
  ok : V → Result V

module _ {ℓ κ} {V : Type ℓ} {U : Type κ} where
  infixl 5 ◌>>=◌
  -- What follows `if err != nil { return err }`.
  abbrev pub ◌>>=◌ : Result V → (V → Result U) → Result U
  err failed >>= next = err failed
  ok value >>= next = next value

  -- A chain that ends well has no error on its way.
  pub >>=-eq-ok :
      (first : Result V) (next : V → Result U) {end : U}
      → (first >>= next) ≡ ok end
      → (value : V) × (first ≡ ok value) × (next value ≡ ok end)
  >>=-eq-ok (err failed) next h = cc
  >>=-eq-ok (ok value) next h = (value, refl, h)
