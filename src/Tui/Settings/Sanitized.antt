-- ===== src/Tui/Settings/Sanitized.antt =====
-- What `sanitized` of internal/tui/state.go makes of the settings.
use gator_cli.Prelude.{◌≡◌, refl, ap, Option, none, [], Text, arith}
use gator_cli.Database.{Uuid}
use gator_cli.Tui.Settings.{
  UiState, Density, density_comfortable, density_compact, parse_density, density_name, sanitized,
}

pub parse_density-density_name : (d : Density) → parse_density (density_name d) ≡ d
unfolding parse_density density_name
parse_density-density_name density_comfortable = refl
parse_density-density_name density_compact = refl

module _ (parse_uuid : Text → Option Uuid) where
  -- If the empty text is no UUID, cleaning the kept settings twice is cleaning them once.
  pub sanitized_idem :
      parse_uuid [] ≡ none
      → (s : UiState) → sanitized parse_uuid (sanitized parse_uuid s) ≡ sanitized parse_uuid s
  unfolding sanitized
  sanitized_idem empty s = λ i. record {
    feed_id = same_id i;
    feed_name = same_name i;
    sort_dir = same_dir i;
    unread_only = s.unread_only;
    since_hours = same_since i;
    density = ap density_name (parse_density-density_name (parse_density s.density)) i;
    expanded = s.expanded;
  }
    where
      same_id :
          (sanitized parse_uuid (sanitized parse_uuid s)).feed_id ≡ (sanitized parse_uuid s).feed_id
      same_id = ground (arith, empty)

      same_name :
          (sanitized parse_uuid (sanitized parse_uuid s)).feed_name
          ≡ (sanitized parse_uuid s).feed_name
      same_name = ground (arith, empty)

      same_dir :
          (sanitized parse_uuid (sanitized parse_uuid s)).sort_dir
          ≡ (sanitized parse_uuid s).sort_dir
      same_dir = ground arith

      same_since :
          (sanitized parse_uuid (sanitized parse_uuid s)).since_hours
          ≡ (sanitized parse_uuid s).since_hours
      same_since = ground arith
