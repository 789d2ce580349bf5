-- ===== src/Invite.antt =====
-- internal/invite/invite.go: the link of an invitation. url.Parse is a parameter.
pub mod Links
use gator_cli.Prelude.{
  ℕ, Bool, true, false, not, ◌&&◌, ◌||◌, ◌==◌, if◌then◌else◌, Option, none, some, List, [], ◌∷◌,
  ◌++◌, Text, text_eq, codes, any, drop, length, has_prefix, trim_left, trim_right, trim_space,
}
use gator_cli.Store.{Error, Result, ok, err}

abbrev pub slash : ℕ
slash = 47

abbrev pub is_slash : ℕ → Bool
is_slash c = c == slash

abbrev pub path : Text
path = codes "/join/"

-- `Link`
unfoldable pub link : Text → Text → Text
link server token = trim_right is_slash server ++ path ++ token

-- What url.Parse finds in a text.
pub record Url : Type 0 where
  pub scheme : Text
  pub host : Text
  pub path : Text

-- `notALink`; `quoted` is the verb `%q`.
unfoldable pub not_a_link : (Text → Text) → Text → Error
not_a_link quoted raw = record {
  message =
      quoted raw
      ++ codes " is not an invite link (expected https://gator.example.com"
      ++ path
      ++ codes "<code>)";
  wraps = [];
}

-- The tests on the parts of the address.
unfoldable pub has_server : Url → Bool
has_server u =
    not (text_eq u.host []) && (text_eq u.scheme (codes "https") || text_eq u.scheme (codes "http"))

-- `strings.Trim(rest, "/")` of what is behind the prefix.
unfoldable pub token_of : Url → Text
token_of u =
    let rest = if has_prefix u.path path then drop (length path) u.path else u.path in
    trim_right is_slash (trim_left is_slash rest)

module _ (quoted : Text → Text) (parse_url : Text → Option Url) where
  abbrev pub accepted : Text → Url → Result (Text × Text)
  accepted raw u =
      if not (has_server u)
      then err (not_a_link quoted raw)
      else if not (has_prefix u.path path) || text_eq (token_of u) [] || any is_slash (token_of u)
      then err (not_a_link quoted raw)
      else ok (u.scheme ++ codes "://" ++ u.host, token_of u)

  abbrev pub parsed : Text → Option Url → Result (Text × Text)
  parsed raw none = err (not_a_link quoted raw)
  parsed raw (some u) = accepted raw u

  -- `Parse`
  unfoldable pub parse : Text → Result (Text × Text)
  parse raw = parsed raw (parse_url (trim_space raw))
