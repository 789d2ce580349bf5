-- ===== src/Lib.antt =====
-- Verification of gator-cli, a feed reader for the terminal.
--
-- The program reads feeds into a database, and shows them at the command line or in a terminal UI.
-- Every front end works on the interface store.Store (internal/store/store.go). One implementation
-- of it uses the database, one asks a server over HTTP, and internal/store/offline puts a cache and
-- a queue of changes in front of another store, so that a reader without a connection goes on
-- reading: it answers queries from the cache, applies the changes of the user to the cache and sends
-- them later. The server (internal/api) answers the requests of the client (internal/store/remote)
-- from the store of the user, and internal/feeds fetches feeds (internal/rss) into the database.
--
-- Files
--   Prelude, Prelude/Tests, Prelude/Lists, Prelude/Texts, Prelude/Int: shared names; Boolean tests,
--     lists and Go's strings (lists of code points) and integers (64 bits, wrap-around written out).
--   Sorting and below: slices.SortStableFunc as a stable insertion sort, orders, and what sorting
--     keeps.
--   Database: the records of internal/database. Wire: internal/wire/wire.go. Store:
--     internal/store/store.go. Files: the replacement of a file by a temporary one.
--   Offline/Changes, Offline/Queue: internal/store/offline/queue.go (loadQueue is load_queue, add,
--     sent, rewrite). Queue/Bounds: what memory holds; Queue/Lines, Queue/Sync, Queue/Durability: what the file
--     holds; Queue/Interleaved: calls of add during a pass.
--   Offline/Cache: internal/store/offline/cache.go. Cache/Marks: the sets of posts read and saved
--     that a snapshot stands for; Cache/Unread: counts; Cache/Merge, Cache/Newest: mergePosts.
--   Offline/Filter: internal/store/offline/filter.go. Filter/Selection, Filter/Digest, Filter/Pages.
--   Offline/Store: internal/store/offline/offline.go, its methods in Store/Calls and Calls/Sync;
--     Store/Flush: a pass over the queue; Store/Answers: what an answer does; Store/Coherence: the
--     cache against the server.
--   Http: requests and responses between client and server, and the documents they carry. Decimal:
--     the numbers in a query. Remote: internal/store/remote/remote.go, its methods in Remote/Calls;
--     Remote/Errors: errors on the wire; Remote/Connection, Remote/Refinement, Remote/Paged: the
--     client over the server against the store behind it.
--   Api: internal/api/server.go; Api/Queries: the queries of posts.go; Api/Handlers: posts.go and
--     subscriptions.go; Api/Routes: the routes of newServer for signed-in users; Api/Accounts: auth.go and
--     join.go, where Accounts/Spent is about invitations. Database/Invites:
--     internal/database/invites.sql.go, and Invites/Claims about its claims.
--   Local and Local/Requests: internal/store/local/local.go; Local/Adding, Local/Isolation,
--     Local/Served: what the server asks the database for.
--   Rss: internal/rss/rss.go; Rss/Discover: discover.go; Rss/Fetch: FetchFeed, where Fetch/Moves is about
--     redirects.
--   Feeds: internal/feeds/feeds.go, prune.go, refetch.go; Feeds/Scrape and Scrape/Stored: Scrape;
--     Feeds/Add: Add and AddMany; Feeds/Jobs: the goroutines of addAll and scrape, where Jobs/Counts
--     is about places and the mutex, Jobs/Progress about steps and Jobs/Results about what they
--     return.
--   Collect: a list and a map of what was seen. Grouping: groups by a text, and their sorted names.
--   Menu: internal/menu/menu.go, where Menu/Updates is what it does,
--     Menu/Rows is about the cursor and Menu/Choosing about the
--     choices; Menu/Args: internal/menu/args.go. TextLines: internal/text/text.go. Catalog:
--     internal/catalog/catalog.go. Opml: internal/opml/opml.go. Article:
--     internal/article/article.go. Invite: internal/invite/invite.go.
--   Tui/Folders: internal/tui/folders.go. Tui/Settings: internal/tui/state.go, density.go and the
--     ranges of time of loading.go. Tui/Paging: the pages of posts of loading.go and update.go.
--   Tui/Pane: the pane of feeds of update.go and items.go, its lines in Pane/Titles, the labels of its
--     folders in Pane/Labels; Pane/Jumps is about the digits. Tui/Filters and Filters/Actions: what is
--     listed, of model.go, loading.go and actions.go, where Filters/Answered is about the queries it
--     makes. Tui/Picks: internal/tui/catalog.go, where Picks/Boxes is about the boxes and
--     Picks/Confirmed about the feeds to add.
--   Examples and below: concrete runs.
--
-- State and effects. A method of the offline store is a function of its state and of a world of
-- any type, in which the inner store, the context, the clock and the file system live; each call
-- returns the world after it, so no two calls need agree. A system call that can fail has its
-- outcome in an argument (Appending, Replacing). Go's pair of a value and an error is a pair here
-- as well. Sections under the mutex are atomic, and the sections of one call follow one another,
-- but in Queue/Interleaved, where calls of add come between those of flush. An error is its
-- message and the sentinels that errors.Is finds in it.
--
-- The client and the server are functions of requests and a world as well, and so are a fetch and
-- a scrape. The goroutines of internal/feeds are a step relation: a step is one of a goroutine's,
-- in any order, and its call returns what an arbitrary function says of its entry.
--
-- Bounds. Loops are structural recursion on the list they range over. Two take fuel: the redirects
-- of a fetch, which CheckRedirect stops at ten requests (max_redirects), and the digits of a
-- number, for which one more than the number is enough. Unread counts, the count of dropped
-- changes and durations are 64-bit integers that wrap around. Instants are natural numbers of
-- nanoseconds, and the offset of a page of posts is a natural number.
--
-- Parameters. encoding/json on a change and on a snapshot (Codec, with IsFaithful: a change is
-- encoded as one line with a visible character, and decodes to itself), the offset of the time
-- zone and the Unicode tables (Locale), and the inner store (Inner; Serves says what its calls
-- have to do with the sets of posts read and saved), uuid.Parse, url.Parse, go-readability,
-- text.StripHTML, the verb %q, and sort.Slice, which is any permutation, and the list and the
-- prompt of bubbles (ListModel with IsCursor, PromptModel; in the pane of feeds, what SetItems
-- makes of the cursor). For the client and the server: the writing of identifiers, times and
-- hashes (Formats, with IsFaithful), the queries of the database but those of the invitations
-- (Site, Registry, Outside, Queries; IsPostTable says what is asked of the table of posts), the
-- web (Web), and the parsing of XML and HTML (Xml).
--
-- Not modelled: the SQL of internal/database other than that of the invitations, rendering
-- (internal/tui/view.go, internal/theme), internal/fetch, internal/auth, which calls bcrypt and
-- SHA-256, and the services of the operating system; nor yet internal/config,
-- internal/credentials, the commands of internal/cli, and the keys and the actions on posts of
-- internal/tui.
pub mod Prelude
pub mod Sorting
pub mod Database
pub mod Store
pub mod Wire
pub mod Http
pub mod Decimal
pub mod Api
pub mod Remote
pub mod Rss
pub mod Feeds
pub mod Offline
pub mod Files
pub mod Catalog
pub mod Opml
pub mod Grouping
pub mod Tui
pub mod Article
pub mod Invite
pub mod Menu
pub mod Collect
pub mod TextLines
pub mod Local
pub mod Examples
