-- ===== src/Remote/Paged.antt =====
-- The query for posts that the client writes (internal/store/remote/remote.go), as the server reads it
-- (`postQuery` of internal/api/posts.go).
use gator_cli.Prelude.{
  ℕ, ◌==◌, ◌≡◌, ◌≤◌, ◌<◌, ◌^◌, min, refl, ap, ◌∙◌, Bool, true, false, not, ◌&&◌, if◌then◌else◌,
  some, [], ◌∷◌, Text, text_eq, codes, arith, Bool-cases, inl, inr, ltb,
}
use gator_cli.Prelude.Int.{ℤ, pos, negsuc, pos_part, is_positive}
use gator_cli.Store.{ok, PostQuery, read_valid}
use gator_cli.Decimal.{itoa, itoa-ne-empty, parse_int32-itoa}
use gator_cli.Http.{Query, get}
use gator_cli.Api.{Formats}
use gator_cli.Api.Queries.{max_post_limit, max_per_feed, int_param, field, sort_valid, post_query}
use gator_cli.Remote.Calls.{put, put_if, post_params}
use gator_cli.Api.Handlers
use gator_cli.Api.Routes.{Endpoint, handle, route}
use gator_cli.Wire.{from_posts, to_posts}
use gator_cli.Http.{no_body}
use gator_cli.Remote.{request}
use gator_cli.Remote.Calls
use gator_cli.Remote.Calls.{taken}
use gator_cli.Remote.Connection.{
  Connection, IsSignedIn, IsFaithful, client, behind, carried, ask-handle, taken-respond,
}

-- A query that the server answers, with a time that is read back from what is written.
pub record IsAnswered (formats : Formats) (q : PostQuery) : Type 0 where
  pub limit : ℕ
  pub limited : q.limit ≡ pos limit
  pub limit_bound : limit < 2 ^ 31
  pub offset_bound : pos_part q.offset < 2 ^ 31
  pub per_feed_bound : pos_part q.per_feed ≤ max_per_feed
  pub read : read_valid q.read ≡ true
  pub sort : sort_valid q.sort_dir ≡ true
  pub since_back : formats.parse_time (formats.show_time q.since) ≡ some q.since
  pub since_shown : text_eq (formats.show_time q.since) [] ≡ false

-- The query that reaches the store of the server.
abbrev pub served : PostQuery → PostQuery
served q = record q {
  limit = pos (min (pos_part q.limit) max_post_limit);
  offset = pos (pos_part q.offset);
  per_feed = pos (pos_part q.per_feed);
}

get-put :
    (key value : Text) (rest : Query) (wanted : Text)
    → get (put key value rest) wanted
      ≡ (if text_eq key wanted && not (text_eq value []) then value else get rest wanted)
get-put key value rest wanted = ground arith

get-put_if :
    (b : Bool) (key value : Text) (rest : Query) (wanted : Text)
    → get (put_if b key value rest) wanted
      ≡ (if text_eq key wanted && (b && not (text_eq value [])) then value else get rest wanted)
get-put_if b key value rest wanted = ground arith

-- An empty value is not written, and reads as the empty text.
or_empty : (value : Text) → (if not (text_eq value []) then value else []) ≡ value
or_empty [] = refl
or_empty (c ∷ s) = refl

ruleset gets = (get-put, get-put_if, or_empty)

module _ (formats : Formats) (q : PostQuery) where
  got_name : get (post_params formats q) (codes "feed_name") ≡ q.feed_name
  unfolding post_params
  got_name = simp gets

  got_query : get (post_params formats q) (codes "q") ≡ q.query
  unfolding post_params
  got_query = simp gets

  got_sort : get (post_params formats q) (codes "sort") ≡ q.sort_dir
  unfolding post_params
  got_sort = simp gets

  got_read : get (post_params formats q) (codes "read") ≡ q.read
  unfolding post_params
  got_read = simp gets

  got_limit : get (post_params formats q) (codes "limit") ≡ itoa q.limit
  unfolding post_params
  got_limit = simp gets

  got_offset :
      get (post_params formats q) (codes "offset")
      ≡ (if is_positive q.offset && not (text_eq (itoa q.offset) []) then itoa q.offset else [])
  unfolding post_params
  got_offset = simp gets

  got_per_feed : get (post_params formats q) (codes "per_feed") ≡ (
      if is_positive q.per_feed && not (text_eq (itoa q.per_feed) []) then itoa q.per_feed else [])
  unfolding post_params
  got_per_feed = simp gets

  got_feed_id : get (post_params formats q) (codes "feed_id") ≡ (
      if not (q.feed_id == 0) && not (text_eq (formats.show_uuid q.feed_id) [])
      then formats.show_uuid q.feed_id
      else [])
  unfolding post_params
  got_feed_id = simp gets

  got_since : get (post_params formats q) (codes "since") ≡ (
      if not (q.since == 0) && not (text_eq (formats.show_time q.since) [])
      then formats.show_time q.since
      else [])
  unfolding post_params
  got_since = simp gets

-- A number that is written is read, and one that is not is 0.
int_param-itoa : (n : ℕ) (name : Text) → n < 2 ^ 31 → int_param (itoa (pos n)) name ≡ ok n
unfolding int_param
int_param-itoa n name h = rw (itoa-ne-empty (pos n), parse_int32-itoa n h) refl

int_param-positive :
    (z : ℤ) (name : Text)
    → pos_part z < 2 ^ 31
    → int_param (if is_positive z && not (text_eq (itoa z) []) then itoa z else []) name
      ≡ ok (pos_part z)
int_param-positive (negsuc n) name h = unfold int_param in refl
int_param-positive (pos n) name h = elim (Bool-cases (ltb 0 n)) [
  | inl more ↦ rw (more, itoa-ne-empty (pos n)) (int_param-itoa n name h)
  | inr none_ ↦ rw none_ (unfold int_param in ap ok (omega (arith, not_positive n none_)))
]
  where
    not_positive : (m : ℕ) → ltb 0 m ≡ false → m ≡ 0
    not_positive m e = ground arith

module _ (formats : Formats) (faithful : IsFaithful formats) (q : PostQuery)
    (h : IsAnswered formats q) where
  feed_id_back :
      (text : Text)
      → field (get (post_params formats q) (codes "feed_id")) 0 formats.parse_uuid text
        ≡ ok q.feed_id
  feed_id_back text = rw (got_feed_id formats q) (elim (Bool-cases (q.feed_id == 0)) [
    | inl zero_id ↦ rw zero_id (ap ok (ground (arith, zero_id)))
    | inr some_id ↦ rw some_id (
        rw (faithful.uuid_shown q.feed_id)
          (rw (faithful.uuid_shown q.feed_id) (rw (faithful.uuid_back q.feed_id) refl)))
  ])

  since_back :
      (text : Text)
      → field (get (post_params formats q) (codes "since")) 0 formats.parse_time text ≡ ok q.since
  since_back text = rw (got_since formats q) (elim (Bool-cases (q.since == 0)) [
    | inl never ↦ rw never (ap ok (ground (arith, never)))
    | inr some_time ↦
        rw some_time (rw (h.since_shown) (rw (h.since_shown) (rw (h.since_back) refl)))
  ])

  pub post_query-post_params : post_query formats (post_params formats q) ≡ ok (served q)
  unfolding post_query
  post_query-post_params =
      let limit_back : (name : Text)
          → int_param (get (post_params formats q) (codes "limit")) name ≡ ok h.limit =
        λ name. rw (got_limit formats q, h.limited) (int_param-itoa h.limit name h.limit_bound) in
      let offset_back : (name : Text)
          → int_param (get (post_params formats q) (codes "offset")) name ≡ ok (pos_part q.offset) =
        λ name. rw (got_offset formats q) (int_param-positive q.offset name h.offset_bound) in
      let per_feed_back : (name : Text)
          → int_param (get (post_params formats q) (codes "per_feed")) name
            ≡ ok (pos_part q.per_feed) =
        λ name.
          rw (got_per_feed formats q)
            (int_param-positive q.per_feed name (omega (arith, h.per_feed_bound))) in
      let few : ltb max_per_feed (pos_part q.per_feed) ≡ false = ground (arith, h.per_feed_bound) in
      rw (feed_id_back _) (
        rw (got_read formats q) (
          rw (h.read) (
            rw (since_back _) (
              rw (got_sort formats q) (
                rw (h.sort) (
                  rw (limit_back _) (
                    rw (offset_back _) (
                      rw (per_feed_back _) (
                        rw few
                          (rw (got_name formats q, got_query formats q, h.limited) refl))))))))))

-- Where every request reaches the server, its token is known there as the user's and an identifier
-- is read back as it was written, the client answers a query for posts with what the store behind
-- the server answers, errors and posts converted as for BookmarkedPosts, to the same query with
-- its limit cut to 1000 and a negative offset or limit for each feed made 0, if the query has a
-- limit from 0 on, at most 50 posts for each feed, a known order and read state, numbers of 32
-- bits, and a time that is read back as it was written.
pub posts_served :
    {W : Type 0} (c : Connection W) (q : PostQuery) (w : W)
    → IsSignedIn c.site c.token c.user
    → IsFaithful c.site.formats
    → IsAnswered c.site.formats q
    → Calls.posts c.site.formats (client c) q w
      ≡ carried c.status_line [] (λ ps. to_posts (from_posts ps)) ((behind c).posts (served q) w)
unfolding Calls.posts Handlers.posts handle route request
posts_served c q w signed faithful answered =
    ap (taken [] _) (ask-handle c signed _ _ _ no_body Endpoint.posts w refl)
    ∙ rw (post_query-post_params c.site.formats faithful q answered)
        (taken-respond c signed [] _ ((behind c).posts (served q) w) (λ _. false) _)
