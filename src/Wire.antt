-- ===== src/Wire.antt =====
-- internal/wire/wire.go: the JSON shapes of users, posts and feeds, and the conversions between
-- them and the database's records. A pointer field is an `Option`.
pub mod RoundTrip
use gator_cli.Prelude.{
  Bool, true, false, not, Option, none, some, List, [], ◌∷◌, map, Text, text_eq, if◌then◌else◌,
}
use gator_cli.Prelude.Int.{ℤ}
use gator_cli.Database
use gator_cli.Database.{Uuid, Time, NullString, NullTime, NullUuid, no_string, no_time, no_uuid}

pub record User : Type 0 where
  pub id : Uuid
  pub name : Text
  pub email : Text
  pub created_at : Time

pub record Post : Type 0 where
  pub id : Uuid
  pub created_at : Time
  pub updated_at : Time
  pub title : Text
  pub url : Text
  pub description : Option Text
  pub published_at : Option Time
  pub feed_id : Uuid
  pub full_text : Text

pub record Feed : Type 0 where
  pub id : Uuid
  pub created_at : Time
  pub updated_at : Time
  pub name : Text
  pub url : Text
  pub user_id : Option Uuid
  pub last_fetched_at : Option Time
  pub last_error : Text
  pub failure_count : ℤ

-- `nullString`
unfoldable pub null_string : Text → NullString
null_string s = record { string = s; valid = not (text_eq s []) }

-- `FromUser`
unfoldable pub from_user : Database.User → User
from_user u = record { id = u.id; name = u.name; email = u.email.string; created_at = u.created_at }

-- `User.ToDatabase`
unfoldable pub to_user : User → Database.User
unfolding null_string
to_user u = record {
  id = u.id;
  created_at = u.created_at;
  updated_at = 0;
  name = u.name;
  email = null_string u.email;
  password_hash = [];
}

-- The assignments under `if Valid` and `if != nil`.
abbrev pub string_pointer : NullString → Option Text
string_pointer s = if s.valid then some s.string else none

abbrev pub time_pointer : NullTime → Option Time
time_pointer t = if t.valid then some t.time else none

abbrev pub uuid_pointer : NullUuid → Option Uuid
uuid_pointer u = if u.valid then some u.uuid else none

abbrev pub of_string_pointer : Option Text → NullString
of_string_pointer none = no_string
of_string_pointer (some s) = record { string = s; valid = true }

abbrev pub of_time_pointer : Option Time → NullTime
of_time_pointer none = no_time
of_time_pointer (some t) = record { time = t; valid = true }

abbrev pub of_uuid_pointer : Option Uuid → NullUuid
of_uuid_pointer none = no_uuid
of_uuid_pointer (some u) = record { uuid = u; valid = true }

-- `FromPost`
unfoldable pub from_post : Database.Post → Post
from_post p = record {
  id = p.id;
  created_at = p.created_at;
  updated_at = p.updated_at;
  title = p.title;
  url = p.url;
  description = string_pointer p.description;
  published_at = time_pointer p.published_at;
  feed_id = p.feed_id;
  full_text = p.full_text;
}

-- `Post.ToDatabase`
unfoldable pub to_post : Post → Database.Post
to_post p = record {
  id = p.id;
  created_at = p.created_at;
  updated_at = p.updated_at;
  title = p.title;
  url = p.url;
  description = of_string_pointer p.description;
  published_at = of_time_pointer p.published_at;
  feed_id = p.feed_id;
  full_text = p.full_text;
}

-- `FromPosts` and `ToPosts`; nil and an empty slice are one list.
unfoldable pub from_posts : List Database.Post → List Post
from_posts [] = []
from_posts (p ∷ ps) = from_post p ∷ from_posts ps

unfoldable pub to_posts : List Post → List Database.Post
to_posts [] = []
to_posts (p ∷ ps) = to_post p ∷ to_posts ps

-- `FromFeed`
unfoldable pub from_feed : Database.Feed → Feed
from_feed f = record {
  id = f.id;
  created_at = f.created_at;
  updated_at = f.updated_at;
  name = f.name;
  url = f.url;
  user_id = uuid_pointer f.user_id;
  last_fetched_at = time_pointer f.last_fetched_at;
  last_error = f.last_error;
  failure_count = f.failure_count;
}

-- `Feed.ToDatabase`
unfoldable pub to_feed : Feed → Database.Feed
to_feed f = record {
  id = f.id;
  created_at = f.created_at;
  updated_at = f.updated_at;
  name = f.name;
  url = f.url;
  user_id = of_uuid_pointer f.user_id;
  last_fetched_at = of_time_pointer f.last_fetched_at;
  etag = [];
  last_modified = [];
  last_error = f.last_error;
  failure_count = f.failure_count;
}
