-- ===== src/Catalog/Resolution.antt =====
-- What `Resolve` of internal/catalog/catalog.go gives for a choice of categories.
use mathlib.Core.Path.{subst}
use gator_cli.Prelude.{◌≡◌, refl, sym, ◌∙◌, Bool, false, ◌||◌, List, [], ◌∷◌, Text, arith, any}
use gator_cli.Store.{Result, ok, err, >>=-eq-ok}
use gator_cli.Collect.{
  Collected, collect_all, nothing, has_key, Once, IsCollected, nothing-IsCollected,
  seen-collect_all, collect_all-IsCollected,
}
use gator_cli.Catalog.{Category, Entry, entry_url, find, entries, resolve_loop, resolve}

ok_cancel : {A : Type 0} {x y : A} → ◌≡◌ {A = Result A} (ok x) (ok y) → x ≡ y
ok_cancel h = cc

no_more : (b : Bool) → (b || false) ≡ b
no_more b = ground arith

module _ (quoted : Text → Text) where
  -- The first category with the identifier has a feed with the URL.
  unfoldable pub offers_one : Text → Result Category → Bool
  offers_one u (err e) = false
  offers_one u (ok c) = has_key entry_url u (entries quoted c)

  unfoldable pub offers : List Category → Text → List Text → Bool
  offers cats u ids = any (λ id. offers_one u (find quoted cats id)) ids

  resolve_loop_lem :
      (cats : List Category) (ids : List Text) (st end : Collected entry_url)
      → IsCollected entry_url st
      → resolve_loop quoted cats ids st ≡ ok end
      → IsCollected entry_url end × ((u : Text) → end.seen u ≡ (offers cats u ids || st.seen u))
  unfolding resolve_loop offers offers_one
  resolve_loop_lem cats [] st end h e =
      subst
        (λ (s : Collected entry_url). IsCollected entry_url s × ((u : Text) → s.seen u ≡ st.seen u))
        (ok_cancel e) (h, λ u. refl)
  resolve_loop_lem cats (id ∷ ids) st end h e =
      let (c, first, rest) = >>=-eq-ok (find quoted cats id) _ e in
      let st' = collect_all entry_url (entries quoted c) st in
      let (good, said) =
        resolve_loop_lem cats ids st' end
          (collect_all-IsCollected entry_url (entries quoted c) st h) rest in
      (
        good,
        λ u. said u ∙ rw first (ground (arith, seen-collect_all entry_url (entries quoted c) st u)),
      )

  -- If Resolve succeeds, no two entries have one URL, and a URL is among them exactly if the
  -- category found for one of the identifiers has a feed with it.
  pub resolve_lem :
      (cats : List Category) (ids : List Text) (out : List Entry)
      → resolve quoted cats ids ≡ ok out
      → Once entry_url out × ((u : Text) → has_key entry_url u out ≡ offers cats u ids)
  unfolding resolve
  resolve_lem cats ids out e =
      let (st, ran, made) = >>=-eq-ok (resolve_loop quoted cats ids (nothing entry_url)) _ e in
      let (good, said) =
        resolve_loop_lem cats ids (nothing entry_url) st (nothing-IsCollected entry_url) ran in
      subst (λ xs. Once entry_url xs × ((u : Text) → has_key entry_url u xs ≡ offers cats u ids))
        (ok_cancel made) (good.once, λ u. sym (good.known u) ∙ said u ∙ no_more (offers cats u ids))
