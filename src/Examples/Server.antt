-- ===== src/Examples/Server.antt =====
-- A server that keeps the sets of posts read and saved, and can be out of reach; and the machine of its
-- client, whose calls all end well.
use mathlib.Core.Path.{subst}
use gator_cli.Prelude.{
  ◌≡◌, refl, fun_ext, ap, sym, ◌∙◌, ◌==◌, ◌⊎◌, inl, inr, Bool, true, false, ◌||◌, if◌then◌else◌,
  Option, none, some, List, [], ◌∷◌, Text, codes, contains, text_eq, Bool-cases,
}
use gator_cli.Database.{Uuid, no_user, no_post, no_feed, Follow}
use gator_cli.Store.{Error, ok, unreachable}
use gator_cli.Files.{all_well}
use gator_cli.Offline.Changes.{Change, op_read, op_read_all, op_bookmark, op_categorize}
use gator_cli.Offline.Queue.{appended}
use gator_cli.Offline.Cache.Marks.{Marks, mean}
use gator_cli.Offline.Store.{Reply, Inner, Machine, send}
use gator_cli.Offline.Store.Flush.{done_with}
use gator_cli.Offline.Store.Coherence.{Serves}
use gator_cli.Examples.Codec.{codec}

pub record World : Type 0 where
  pub shown : Marks
  pub up : Bool

abbrev pub no_answer : Option Error
no_answer = some (record { message = codes "no answer"; wraps = unreachable ∷ [] })

abbrev pub answer : World → Option Error
answer w = if w.up then none else no_answer

abbrev reply : {A : Type 0} → A → World → Reply World A
reply a w = (a, answer w, w)

abbrev took : (Marks → Marks) → World → Option Error × World
took f w = (answer w, record w { shown = if w.up then f w.shown else w.shown })

abbrev no_follow : Follow
no_follow = record {
  id = 0;
  created_at = 0;
  updated_at = 0;
  user_id = 0;
  feed_id = 0;
  category = [];
  user_name = [];
  feed_name = [];
}

abbrev marking : Uuid → Bool → Marks → Marks
marking id read m = record m { is_read = λ j. if id == j then read else m.is_read j }

abbrev all_marking : List Uuid → Marks → Marks
all_marking ids m = record m { is_read = λ j. contains ids j || m.is_read j }

abbrev saving_post : Uuid → Bool → Marks → Marks
saving_post id saved m = record m { is_saved = λ j. if id == j then saved else m.is_saved j }

abbrev pub inner : Inner World
inner = record {
  me = reply no_user;
  posts = λ q. reply [];
  bookmarked_posts = reply [];
  post_by_url = λ url. reply no_post;
  bookmarked_ids = reply [];
  read_ids = reply [];
  unread_counts = reply [];
  subscriptions = reply [];
  set_read = λ id read. took (marking id read);
  set_all_read = λ ids. took (all_marking ids);
  bookmark = λ id w. let (e, w') = took (saving_post id true) w in (true, e, w');
  unbookmark = λ id. took (saving_post id false);
  categorize = λ url category. reply no_feed;
  full_text = λ p. reply [];
  stats = λ since. reply [];
  add_feed = λ name url. reply (no_feed, true);
  follow_url = λ url. reply (no_follow, true);
  unfollow_url = λ url. reply no_feed;
  unfollow = λ id. took (λ m. m);
}

abbrev pub machine : Machine World
machine = record {
  cancelled = λ w. false;
  now = λ w. 60;
  appending = λ w. (appended, w);
  replacing = λ w. (all_well, w);
  saving = λ w. (all_well, w);
  codec = codec;
  encode = λ snap. ok snap.server;
}

abbrev pub server : Text
server = codes "home"

abbrev pub view : World → Marks
view w = w.shown

took_takes :
    (f : Marks → Marks) (w : World) → done_with (took f w).0 ≡ true → view (took f w).1 ≡ f (view w)
took_takes f w h = elim (Bool-cases w.up) [ inl e ↦ rw e refl | inr e ↦ absurd (cc (rw e at h)) ]

took_fails :
    (f : Marks → Marks) (w : World)
    → (view (took f w).1 ≡ view w) ⊎ (view (took f w).1 ≡ f (view w))
took_fails f w = elim (Bool-cases w.up) [ inl e ↦ inr (rw e refl) | inr e ↦ inl (rw e refl) ]

-- What the server makes of each kind of change.
send_cases :
    (P : Option Error × World → Type 0) (c : Change) (w : World)
    → ((f : Marks → Marks) → mean c ≡ f → P (took f w))
    → (mean c ≡ (λ m. m) → (e : Option Error) → P (e, w))
    → P (send inner machine server c w)
unfolding send
send_cases P c w takes leaves = elim (Bool-cases (text_eq c.op op_read)) [
  | inl a ↦ rw a (takes (marking c.post_id c.value) (fun_ext λ m. rw a refl))
  | inr a ↦ rw a (elim (Bool-cases (text_eq c.op op_read_all)) [
    | inl b ↦ rw b (takes (all_marking c.post_ids) (fun_ext λ m. rw (a, b) refl))
    | inr b ↦ rw b (elim (Bool-cases (text_eq c.op op_bookmark)) [
      | inl d ↦ rw d (elim (Bool-cases c.value) [
        | inl v ↦ rw v (takes (saving_post c.post_id true) (fun_ext λ m. rw (a, b, d, v) refl))
        | inr v ↦ rw v (takes (saving_post c.post_id false) (fun_ext λ m. rw (a, b, d, v) refl))
      ])
      | inr d ↦ rw d (elim (Bool-cases (text_eq c.op op_categorize)) [
        | inl k ↦ rw k (leaves (fun_ext λ m. rw (a, b, d) refl) _)
        | inr k ↦ rw k (leaves (fun_ext λ m. rw (a, b, d) refl) _)
      ])
    ])
  ])
]

pub serves : Serves inner machine server view
serves = record {
  takes = λ c w.
      send_cases (λ r. done_with r.0 ≡ true → view r.1 ≡ mean c (view w)) c w
        (λ f m h. took_takes f w h ∙ ap (λ g. g (view w)) (sym m))
        (λ m e h. ap (λ g. g (view w)) (sym m));
  fails = λ c w.
      send_cases (λ r. (view r.1 ≡ view w) ⊎ (view r.1 ≡ mean c (view w))) c w
        (λ f m.
          subst (λ g. (view (took f w).1 ≡ view w) ⊎ (view (took f w).1 ≡ g (view w))) (sym m)
            (took_fails f w))
        (λ m e. inl refl);
  appends = λ w. refl;
  replaces = λ w. refl;
  saves = λ w. refl;
}
