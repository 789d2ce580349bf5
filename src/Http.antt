-- ===== src/Http.antt =====
-- Requests and responses between internal/store/remote and internal/api, over net/http, net/url and
-- encoding/json. A path is the list of its segments, a query the list of its keys and values, and a
-- JSON document an object with the fields that the structs of internal/wire have.
use gator_cli.Prelude.{ℕ, Bool, Option, none, some, List, [], ◌∷◌, Text, text_eq, if◌then◌else◌}
use gator_cli.Database.{Uuid, Subscription, UnreadCount, FeedStat, Follow}
use gator_cli.Wire

pub data Method : Type 0 where
  get_method post_method patch_method delete_method : Method

-- A field that is absent is `none`. A document that is a user or a post itself has it in `me` or `post`.
pub record Document : Type 0 where
  pub error : Option Text
  pub code : Option Text
  pub status : Option Text
  pub name : Option Text
  pub email : Option Text
  pub login : Option Text
  pub password : Option Text
  pub invite : Option Text
  pub token : Option Text
  pub url : Option Text
  pub category : Option Text
  pub text : Option Text
  pub created : Option Bool
  pub post_ids : Option (List Uuid)
  pub ids : Option (List Uuid)
  pub user : Option Wire.User
  pub me : Option Wire.User
  pub post : Option Wire.Post
  pub posts : Option (List Wire.Post)
  pub feed : Option Wire.Feed
  pub follow : Option Follow
  pub subscriptions : Option (List Subscription)
  pub stats : Option (List FeedStat)
  pub unread : Option (List UnreadCount)

abbrev pub no_document : Document
no_document = record {
  error = none;
  code = none;
  status = none;
  name = none;
  email = none;
  login = none;
  password = none;
  invite = none;
  token = none;
  url = none;
  category = none;
  text = none;
  created = none;
  post_ids = none;
  ids = none;
  user = none;
  me = none;
  post = none;
  posts = none;
  feed = none;
  follow = none;
  subscriptions = none;
  stats = none;
  unread = none;
}

pub data Body : Type 0 where
  no_body : Body
  plain : Text → Body
  json : Document → Body

abbrev pub Query : Type 0
Query = List (Text × Text)

-- `url.Values.Get`
abbrev pub get : Query → Text → Text
get [] key = []
get ((k, value) ∷ rest) key = let later = get rest key in if text_eq k key then value else later

-- What a decoder leaves in a field that the document does not have.
abbrev pub or_zero {ℓ} : {A : Type ℓ} → A → Option A → A
or_zero zero_value none = zero_value
or_zero zero_value (some a) = a

pub record Request : Type 0 where
  pub method : Method
  pub path : List Text
  pub query : Query
  pub authorization : Text
  pub body : Body

pub record Response : Type 0 where
  pub status : ℕ
  pub body : Body
