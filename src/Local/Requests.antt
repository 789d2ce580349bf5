-- ===== src/Local/Requests.antt =====
-- The store that the server makes for a request (internal/store/local/local.go, internal/api/server.go).
use gator_cli.Prelude.{Option}
use gator_cli.Database.{User}
use gator_cli.Store.{Error}
use gator_cli.Feeds.{Outside}
use gator_cli.Offline.Store.{Reply, Inner}
use gator_cli.Local.{Queries, Session, local_store}

-- `NewFor`, for one call: the store knows its user.
abbrev pub new_for : {W : Type 0} → User → W → Session W
new_for user w = record { user = user; world = w }

module _ {W : Type 0} where
  abbrev pub leave : {A : Type 0} → Reply (Session W) A → Reply W A
  leave (a, e, s) = (a, e, s.world)

  abbrev pub leave_done : Option Error × Session W → Option Error × W
  leave_done (e, s) = (e, s.world)

  -- The store that `authed` makes for a request: `NewFor`, and one call of it.
  unfoldable pub per_request : Queries W → Outside W → User → Inner W
  per_request queries outside user =
      let st = local_store queries outside user.name in
      record {
        me = λ w. leave (st.me (new_for user w));
        posts = λ q w. leave (st.posts q (new_for user w));
        bookmarked_posts = λ w. leave (st.bookmarked_posts (new_for user w));
        post_by_url = λ url w. leave (st.post_by_url url (new_for user w));
        bookmarked_ids = λ w. leave (st.bookmarked_ids (new_for user w));
        read_ids = λ w. leave (st.read_ids (new_for user w));
        unread_counts = λ w. leave (st.unread_counts (new_for user w));
        subscriptions = λ w. leave (st.subscriptions (new_for user w));
        set_read = λ id read w. leave_done (st.set_read id read (new_for user w));
        set_all_read = λ ids w. leave_done (st.set_all_read ids (new_for user w));
        bookmark = λ id w. leave (st.bookmark id (new_for user w));
        unbookmark = λ id w. leave_done (st.unbookmark id (new_for user w));
        categorize = λ url category w. leave (st.categorize url category (new_for user w));
        full_text = λ post w. leave (st.full_text post (new_for user w));
        stats = λ since w. leave (st.stats since (new_for user w));
        add_feed = λ name url w. leave (st.add_feed name url (new_for user w));
        follow_url = λ url w. leave (st.follow_url url (new_for user w));
        unfollow_url = λ url w. leave (st.unfollow_url url (new_for user w));
        unfollow = λ id w. leave_done (st.unfollow id (new_for user w));
      }
