-- ===== src/Feeds.antt =====
-- internal/feeds/feeds.go, prune.go and refetch.go: fetching, adding and pruning of feeds. The queries
-- of the database, rss.FetchFeed, the clock and time.Parse are functions of a world `W`.
pub mod Jobs
pub mod Scrape
pub mod Add
use gator_cli.Prelude.{
  ℕ, ◌+◌, ltb, ◌==◌, ◌&&◌, ◌||◌, Bool, true, false, not, if◌then◌else◌, Option, none, some, List,
  [], ◌∷◌, ◌++◌, Text, text_eq, codes, trim_space, is_some,
}
use gator_cli.Prelude.Int.{ℤ, pos, negsuc, is_positive}
use gator_cli.Database.{Uuid, Time, NullTime, NullString, no_time, Feed}
use gator_cli.Store.{Error, Result, ok, err, wrap, error_is, duplicate}
use gator_cli.Rss.{Fetched}
use gator_cli.Rss.Fetch.{Source}
use gator_cli.Offline.Store.{Reply}

-- The retention is a time in nanoseconds.
pub record Policy : Type 0 where
  pub retention : ℤ
  pub keep_per_feed : ℤ  -- int32

abbrev pub default_policy : Policy
default_policy = record { retention = pos 259200000000000; keep_per_feed = pos 10 }

-- CreatePostParams, less the identifier and the times of its making.
pub record NewPost : Type 0 where
  pub title : Text
  pub url : Text
  pub description : NullString
  pub published_at : NullTime
  pub feed_id : Uuid

-- What the package asks of the database, the web and the clock. `wall_clock` reads an instant in its
-- own zone as one of UTC, `parse_layouts` is
-- time.Parse at each of the layouts in turn, `quote` the verb `%q`.
pub record Outside (W : Type 0) : Type 0 where
  pub now : W → Time
  pub fetch : Source → W → (Fetched × Source) × W
  pub mark_fetched : Uuid → W → Option Error × W
  pub mark_healthy : Uuid → W → Option Error × W
  pub mark_failed : Uuid → Text → W → Option Error × W
  pub set_url : Uuid → Text → W → Option Error × W
  pub save_validators : Uuid → Text → Text → W → Option Error × W
  pub keep_cutoff : Uuid → ℤ → W → Reply W Time
  pub create_post : NewPost → W → Option Error × W
  pub prune_posts : ℤ → ℤ → W → Reply W ℕ
  pub forget_validators : Bool → ℤ → W → Reply W ℕ
  pub create_feed : Text → Text → Uuid → W → Reply W Feed
  pub feed_by_url : Text → W → Reply W Feed
  pub follow : Uuid → Uuid → W → Option Error × W
  pub set_category : Uuid → Uuid → Text → W → Option Error × W
  pub wall_clock : Time → Time
  pub parse_layouts : List (Text → Option Time)
  pub quote : Text → Text
  pub show_duration : ℤ → Text
  pub show_number : ℤ → Text

-- `isDuplicate`
abbrev pub is_duplicate : Error → Bool
is_duplicate e = error_is (some e) duplicate

abbrev pub parsed_time : Option Time → NullTime → NullTime
parsed_time none rest = rest
parsed_time (some t) rest = record { time = t; valid = true }

unfoldable pub parse_first : List (Text → Option Time) → Text → NullTime
parse_first [] s = no_time
parse_first (parse ∷ layouts) s = parsed_time (parse s) (parse_first layouts s)

module _ {W : Type 0} (outside : Outside W) where
  -- `ParsePubDate`
  unfoldable pub parse_pub_date : Text → NullTime
  unfolding parse_first
  parse_pub_date s = parse_first outside.parse_layouts (trim_space s)

  -- `Policy.valid`
  unfoldable pub policy_error : Policy → Option Error
  policy_error p =
      if not (is_positive p.retention)
      then some (record {
        message = codes "retention must be positive, got " ++ outside.show_duration p.retention;
        wraps = [];
      })
      else elim p.keep_per_feed [
        | pos n ↦ none
        | negsuc n ↦ some (record {
          message =
              codes "keepPerFeed must not be negative, got " ++ outside.show_number (negsuc n);
          wraps = [];
        })
      ]

  abbrev pub counted : Text → Reply W ℕ → Reply W ℕ
  counted text (n, none, w) = (n, none, w)
  counted text (n, some e, w) = (0, some (wrap text e), w)

  -- `Prune`
  abbrev pub pruned : Policy → Option Error → W → Reply W ℕ
  pruned p (some e) w = (0, some e, w)
  pruned p none w =
      counted
        (codes "pruning posts older than "
          ++ outside.show_duration p.retention
          ++ codes " beyond the newest "
          ++ outside.show_number p.keep_per_feed
          ++ codes " per feed: ")
        (outside.prune_posts p.retention p.keep_per_feed w)

  unfoldable pub prune : Policy → W → Reply W ℕ
  unfolding policy_error
  prune p w = pruned p (policy_error p) w

  -- `Forget`
  unfoldable pub forget : ℤ → Bool → W → Reply W ℕ
  forget below all w =
      if not all && not (is_positive below)
      then (
        0,
        some (record {
          message =
              codes "below must be positive unless every feed is meant, got "
              ++ outside.show_number below;
          wraps = [];
        }),
        w,
      )
      else counted (codes "clearing conditional-GET validators: ")
          (outside.forget_validators all below w)
