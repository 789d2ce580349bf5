-- ===== src/Database.antt =====
-- internal/database/models.go and the rows of its queries: the records that the parts pass round.
-- A `uuid.UUID` is a number, `uuid.Nil` is 0. A `time.Time` is the number of nanoseconds since Go's
-- zero time, which is 0; earlier instants do not occur. A text is the list of its code points.
pub mod Invites
use gator_cli.Prelude.{ℕ, Bool, false, [], Text}
use gator_cli.Prelude.Int.{ℤ, pos}

abbrev pub Uuid : Type 0
Uuid = ℕ

abbrev pub nil_uuid : Uuid
nil_uuid = 0

abbrev pub Time : Type 0
Time = ℕ

pub record NullString : Type 0 where
  pub string : Text
  pub valid : Bool

pub record NullTime : Type 0 where
  pub time : Time
  pub valid : Bool

pub record NullUuid : Type 0 where
  pub uuid : Uuid
  pub valid : Bool

pub record User : Type 0 where
  pub id : Uuid
  pub created_at : Time
  pub updated_at : Time
  pub name : Text
  pub email : NullString
  pub password_hash : Text

pub record Post : Type 0 where
  pub id : Uuid
  pub created_at : Time
  pub updated_at : Time
  pub title : Text
  pub url : Text
  pub description : NullString
  pub published_at : NullTime
  pub feed_id : Uuid
  pub full_text : Text

pub record Feed : Type 0 where
  pub id : Uuid
  pub created_at : Time
  pub updated_at : Time
  pub name : Text
  pub url : Text
  pub user_id : NullUuid
  pub last_fetched_at : NullTime
  pub etag : Text
  pub last_modified : Text
  pub last_error : Text
  pub failure_count : ℤ

-- GetFeedFollowsForUserRow
pub record Subscription : Type 0 where
  pub id : Uuid
  pub created_at : Time
  pub updated_at : Time
  pub user_id : Uuid
  pub feed_id : Uuid
  pub category : Text
  pub user_name : Text
  pub feed_name : Text
  pub feed_url : Text
  pub feed_failures : ℤ

-- GetUnreadCountsForUserRow
pub record UnreadCount : Type 0 where
  pub feed_id : Uuid
  pub unread : ℤ

-- GetFeedStatsForUserRow
pub record FeedStat : Type 0 where
  pub feed_id : Uuid
  pub feed_name : Text
  pub feed_url : Text
  pub category : Text
  pub failure_count : ℤ
  pub post_count : ℤ
  pub recent_count : ℤ
  pub read_count : ℤ
  pub bookmark_count : ℤ
  pub last_published : Time
  pub last_read : Time

-- CreateFeedFollowRow
pub record Follow : Type 0 where
  pub id : Uuid
  pub created_at : Time
  pub updated_at : Time
  pub user_id : Uuid
  pub feed_id : Uuid
  pub category : Text
  pub user_name : Text
  pub feed_name : Text

-- What a zero value of the struct holds.
abbrev pub no_string : NullString
no_string = record { string = []; valid = false }

abbrev pub no_time : NullTime
no_time = record { time = 0; valid = false }

abbrev pub no_uuid : NullUuid
no_uuid = record { uuid = 0; valid = false }

abbrev pub no_user : User
no_user = record {
  id = 0;
  created_at = 0;
  updated_at = 0;
  name = [];
  email = no_string;
  password_hash = [];
}

abbrev pub no_post : Post
no_post = record {
  id = 0;
  created_at = 0;
  updated_at = 0;
  title = [];
  url = [];
  description = no_string;
  published_at = no_time;
  feed_id = 0;
  full_text = [];
}

abbrev pub no_feed : Feed
no_feed = record {
  id = 0;
  created_at = 0;
  updated_at = 0;
  name = [];
  url = [];
  user_id = no_uuid;
  last_fetched_at = no_time;
  etag = [];
  last_modified = [];
  last_error = [];
  failure_count = pos 0;
}
