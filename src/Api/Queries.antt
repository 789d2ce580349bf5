-- ===== src/Api/Queries.antt =====
-- internal/api/posts.go: the query for posts that a request holds.
use gator_cli.Prelude.{
  ℕ, min, ltb, Bool, true, false, not, ◌||◌, if◌then◌else◌, Option, none, some, [], ◌++◌, Text,
  text_eq, codes,
}
use gator_cli.Prelude.Int.{ℤ, pos, negsuc}
use gator_cli.Store.{Result, ok, err, ◌>>=◌, PostQuery, read_valid}
use gator_cli.Decimal.{itoa, parse_int32}
use gator_cli.Http.{Query, get}
use gator_cli.Api.{Formats}

abbrev pub max_post_limit : ℕ
max_post_limit = 1000

abbrev pub max_per_feed : ℕ
max_per_feed = 50

-- `errors.New`
abbrev pub refused {ℓ} : {A : Type ℓ} → Text → Result A
refused text = err (record { message = text; wraps = [] })

abbrev pub not_negative : Text → Option ℤ → Result ℕ
not_negative name none = refused (name ++ codes " must be a non-negative integer")
not_negative name (some (negsuc n)) = refused (name ++ codes " must be a non-negative integer")
not_negative name (some (pos n)) = ok n

-- `intParam`
unfoldable pub int_param : Text → Text → Result ℕ
int_param raw name = if text_eq raw [] then ok 0 else not_negative name (parse_int32 raw)

-- A field that is parsed unless it is empty.
abbrev pub parsed_or {ℓ} : {A : Type ℓ} → Text → Option A → Result A
parsed_or text none = refused text
parsed_or text (some a) = ok a

abbrev pub field {ℓ} : {A : Type ℓ} → Text → A → (Text → Option A) → Text → Result A
field raw zero_value parse text =
    if text_eq raw [] then ok zero_value else parsed_or text (parse raw)

abbrev pub require : Bool → Text → Result (Unit {0})
require true text = ok tt
require false text = refused text

unfoldable pub sort_valid : Text → Bool
sort_valid sort = text_eq sort [] || text_eq sort (codes "asc") || text_eq sort (codes "desc")

-- `postQuery`
unfoldable pub post_query : Formats → Query → Result PostQuery
post_query formats v =
    field (get v (codes "feed_id")) 0 formats.parse_uuid (codes "feed_id is not a uuid")
    >>= λ feed_id.
        require (read_valid (get v (codes "read"))) (codes "read must be all, unread or read")
        >>= λ _.
            field (get v (codes "since")) 0 formats.parse_time
              (codes "since must be an RFC 3339 timestamp")
            >>= λ since.
                require (sort_valid (get v (codes "sort"))) (codes "sort must be asc or desc")
                >>= λ _. int_param (get v (codes "limit")) (codes "limit") >>= λ limit.
                    int_param (get v (codes "offset")) (codes "offset") >>= λ offset.
                    int_param (get v (codes "per_feed")) (codes "per_feed") >>= λ per_feed.
                    require (not (ltb max_per_feed per_feed))
                      (codes "per_feed must be at most " ++ itoa (pos max_per_feed))
                    >>= λ _. ok (record {
                      feed_id = feed_id;
                      feed_name = get v (codes "feed_name");
                      query = get v (codes "q");
                      read = get v (codes "read");
                      since = since;
                      sort_dir = get v (codes "sort");
                      per_feed = pos per_feed;
                      limit = pos (min limit max_post_limit);
                      offset = pos offset;
                    })
