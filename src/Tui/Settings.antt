-- ===== src/Tui/Settings.antt =====
-- The settings that the terminal UI keeps: internal/tui/state.go, density.go, and the ranges of time of
-- loading.go. A duration is its number of nanoseconds, and the product with an hour wraps around;
-- uuid.Parse is a parameter.
pub mod Sanitized
use gator_cli.Prelude.{
  ℕ, suc, ◌*◌, ◌-◌, Bool, true, false, not, ◌&&◌, ◌||◌, ◌==◌, if◌then◌else◌, Option, none, some,
  List, [], ◌∷◌, ◌++◌, Text, text_eq, codes, is_some,
}
use gator_cli.Prelude.Int.{ℤ, pos, negsuc, int64}
use gator_cli.Database.{Uuid, nil_uuid}
use gator_cli.Store.{ReadState, read_any, read_unread}

abbrev pub sort_asc : Text
sort_asc = codes "asc"

abbrev pub sort_desc : Text
sort_desc = codes "desc"

abbrev pub sort_feed : Text
sort_feed = codes "feed"

-- `uiState`
pub record UiState : Type 0 where
  pub feed_id : Text
  pub feed_name : Text
  pub sort_dir : Text
  pub unread_only : Bool
  pub since_hours : ℤ
  pub density : Text
  pub expanded : List Text

-- The zero value.
abbrev pub no_state : UiState
no_state = record {
  feed_id = [];
  feed_name = [];
  sort_dir = [];
  unread_only = false;
  since_hours = pos 0;
  density = [];
  expanded = [];
}

pub data Density : Type 0 where
  density_comfortable density_compact : Density

-- `parseDensity`
unfoldable pub parse_density : Text → Density
parse_density s = if text_eq s (codes "compact") then density_compact else density_comfortable

-- `density.String`
unfoldable pub density_name : Density → Text
density_name density_compact = codes "compact"
density_name density_comfortable = codes "comfortable"

-- `flipped`
unfoldable pub flipped : Density → Density
flipped density_compact = density_comfortable
flipped density_comfortable = density_compact

-- `time.Hour`, in nanoseconds
abbrev pub hour : ℕ
hour = 3600000000000

-- `time.Duration(hours) * time.Hour`, which wraps around.
unfoldable pub hours : ℤ → ℤ
hours (pos n) = int64 (pos (n * hour))
hours (negsuc n) = int64 (negsuc (suc n * hour - 1))

-- `sinceLabel`
unfoldable pub since_label : ℤ → Text
since_label (negsuc n) = []
since_label (pos d) =
    if d == 24 * hour
    then codes "24h"
    else if d == 7 * 24 * hour
    then codes "7d"
    else if d == 30 * 24 * hour
    then codes "30d"
    else []

-- `nextSince`, with the loop over `sinceRanges` unrolled.
unfoldable pub next_since : ℤ → ℤ
next_since (negsuc n) = pos 0
next_since (pos d) =
    if d == 0
    then pos (24 * hour)
    else if d == 24 * hour
    then pos (7 * 24 * hour)
    else if d == 7 * 24 * hour
    then pos (30 * 24 * hour)
    else pos 0

module _ (parse_uuid : Text → Option Uuid) where
  abbrev pub sane_dir : Text → Text
  sane_dir dir =
      if not (text_eq dir sort_asc) && not (text_eq dir sort_desc) && not (text_eq dir sort_feed)
      then sort_desc
      else dir

  -- `sanitized`
  unfoldable pub sanitized : UiState → UiState
  unfolding parse_density density_name since_label hours
  sanitized s = record {
    feed_id = if is_some (parse_uuid s.feed_id) then s.feed_id else [];
    feed_name = if is_some (parse_uuid s.feed_id) then s.feed_name else [];
    sort_dir = sane_dir s.sort_dir;
    unread_only = s.unread_only;
    since_hours = if text_eq (since_label (hours s.since_hours)) [] then pos 0 else s.since_hours;
    density = density_name (parse_density s.density);
    expanded = s.expanded;
  }

  -- `loadState`: what encoding/json reads in the file is an argument, `none` where it fails or where
  -- there is no file.
  unfoldable pub load_state : Option UiState → UiState
  unfolding sanitized parse_density density_name since_label hours
  load_state none = sanitized no_state
  load_state (some s) = sanitized s

  -- `feedUUID`
  abbrev pub or_nil : Option Uuid → Uuid
  or_nil none = nil_uuid
  or_nil (some id) = id

  unfoldable pub feed_uuid : UiState → Uuid
  feed_uuid s = or_nil (parse_uuid s.feed_id)

-- `readState`
unfoldable pub read_state : UiState → ReadState
read_state s = if s.unread_only then read_unread else read_any

-- `since`
unfoldable pub since : UiState → ℤ
unfolding hours
since s = hours s.since_hours
