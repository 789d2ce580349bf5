-- ===== src/Wire/RoundTrip.antt =====
-- What survives the way over the wire (internal/wire/wire.go).
use gator_cli.Prelude.{◌≡◌, refl, false, List, [], ◌∷◌, arith}
use gator_cli.Database
use gator_cli.Database.{NullString, NullTime, NullUuid}
use gator_cli.Wire.{
  Post, from_post, to_post, from_posts, to_posts, string_pointer, of_string_pointer, time_pointer,
  of_time_pointer,
}

-- A null column holds the zero value, as a scan of a row leaves it.
abbrev pub IsScanned : Database.Post → Type 0
IsScanned p =
    (p.description.valid ≡ false → p.description.string ≡ [])
    × (p.published_at.valid ≡ false → p.published_at.time ≡ 0)

of_string_pointer-string_pointer :
    (s : NullString) → (s.valid ≡ false → s.string ≡ []) → of_string_pointer (string_pointer s) ≡ s
of_string_pointer-string_pointer s h = ground arith

of_time_pointer-time_pointer :
    (t : NullTime) → (t.valid ≡ false → t.time ≡ 0) → of_time_pointer (time_pointer t) ≡ t
of_time_pointer-time_pointer t h = ground arith

-- A post whose null columns hold the zero value comes back unchanged from its wire shape to the
-- record of the database.
pub to_post-from_post : (p : Database.Post) → IsScanned p → to_post (from_post p) ≡ p
unfolding to_post from_post
to_post-from_post p h = ground (
  arith,
  of_string_pointer-string_pointer p.description h.0,
  of_time_pointer-time_pointer p.published_at h.1,
)

pub from_post-to_post : (p : Post) → from_post (to_post p) ≡ p
unfolding to_post from_post
from_post-to_post p = ground arith

-- A list of posts in wire shape comes back unchanged from the records of the database.
pub from_posts-to_posts : (ps : List Post) → from_posts (to_posts ps) ≡ ps
unfolding from_posts to_posts
from_posts-to_posts [] = refl
from_posts-to_posts (p ∷ ps) = cc (from_post-to_post p, from_posts-to_posts ps)
