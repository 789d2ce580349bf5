-- ===== src/Examples/Site.antt =====
-- A server with its client, and runs of requests, registrations, fetches and goroutines.
use gator_cli.Prelude.{
  zero, suc, ◌≡◌, refl, true, false, Option, none, some, [], ◌∷◌, Text, codes, text_eq, arith,
}
use gator_cli.Prelude.Int.{pos}
use gator_cli.Database.{Uuid, User, no_user, no_time, no_uuid}
use gator_cli.Wire.{from_posts, to_posts}
use gator_cli.Store.{ok, PostQuery, read_valid}
use gator_cli.Http.{Document, no_document}
use gator_cli.Api.{Formats}
use gator_cli.Api.Queries.{sort_valid}
use gator_cli.Api.Routes.{Site}
use gator_cli.Api.Accounts.{Registry, Tables}
use gator_cli.Remote.Calls
use gator_cli.Remote.Connection.{Connection, IsSignedIn, IsFaithful, client, behind, carried}
use gator_cli.Remote.Refinement.{Mirrors, client-Mirrors}
use gator_cli.Remote.Paged.{IsAnswered, served, posts_served}
use gator_cli.Examples.Server.{World, inner}

abbrev pub parse_one : Text → Option Uuid
parse_one [] = none
parse_one (zero ∷ s) = none
parse_one (suc n ∷ s) = some n

abbrev pub formats : Formats
formats = record {
  show_uuid = λ id. suc id ∷ [];
  parse_uuid = parse_one;
  show_time = λ t. suc t ∷ [];
  parse_time = parse_one;
  fits = λ b. true;
  hash_token = λ t. t;
  status_line = λ n. codes "status";
}

faithful : IsFaithful formats
faithful = record { uuid_back = λ id. refl; uuid_shown = λ id. refl }

abbrev pub reader : User
reader = record no_user { id = 3; name = codes "ana" }

abbrev site : Site World
site = record {
  formats = formats;
  user_by_hash = λ hash w. (reader, none, w);
  delete_token = λ hash w. (none, w);
  store_for = λ u. inner;
  week_ago = λ w. 0;
  cancelled = λ w. false;
}

abbrev connection : Connection World
connection = record {
  site = site;
  base = codes "home";
  token = codes "gat_x";
  user = reader;
  status_line = λ n. codes "status";
  bad_json = record { message = codes "no JSON"; wraps = [] };
}

signed : IsSignedIn site (codes "gat_x") reader
signed = record { present = refl; trimmed = refl; known = λ w. refl }

client-Mirrors_example : Mirrors connection signed
client-Mirrors_example = client-Mirrors connection signed faithful

abbrev asked : PostQuery
asked = record {
  feed_id = 5;
  feed_name = [];
  query = codes "go";
  read = codes "unread";
  since = 9;
  sort_dir = codes "desc";
  per_feed = pos 2;
  limit = pos 2000;
  offset = pos 50;
}

answered : IsAnswered formats asked
unfolding read_valid sort_valid
answered = record {
  limit = 2000;
  limited = refl;
  limit_bound = omega arith;
  offset_bound = omega arith;
  per_feed_bound = omega arith;
  read = refl;
  sort = refl;
  since_back = refl;
  since_shown = refl;
}

abbrev online : World
online = record { shown = record { is_read = λ j. false; is_saved = λ j. false }; up = true }

posts_served_example :
    Calls.posts formats (client connection) asked online
    ≡ carried connection.status_line []
        (λ ps. to_posts (from_posts ps))
        ((behind connection).posts (served asked) online)
posts_served_example = posts_served connection asked online signed faithful answered

abbrev registry : Registry World
registry = record {
  now = λ w. 10;
  hash_password = λ p. ok p;
  verify_password = text_eq;
  decoy_hash = codes "decoy";
  valid_email = λ s. true;
  show_date = λ t. codes "today";
  claim_fails = λ w. none;
  get_fails = λ w. none;
  release_fails = λ w. none;
  set_user_fails = λ w. none;
  create_user = λ u w. (reader, none, w);
  user_by_email = λ s w. (reader, none, w);
  user_by_name = λ s w. (reader, none, w);
  generate_token = λ w. (ok (codes "gat_y"), w);
  create_token = λ id hash w. (none, w);
}

abbrev invited : Tables World
invited = record {
  invites =
      record {
        id = 1;
        token_hash = codes "abc";
        note = [];
        created_at = 1;
        expires_at = 20;
        claimed_at = no_time;
        user_id = no_uuid;
      }
      ∷ [];
  world = online;
}

abbrev application : Document
application = record no_document {
  name = some (codes "ana");
  email = some (codes "ana@home");
  password = some (codes "long enough");
  invite = some (codes "abc");
}
