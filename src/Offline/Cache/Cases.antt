-- ===== src/Offline/Cache/Cases.antt =====
-- The cases of `apply` (internal/store/offline/cache.go), for predicates on the snapshot.
use gator_cli.Prelude.{Bool-cases, inl, inr, text_eq}
use gator_cli.Offline.Changes.{Change, op_read, op_read_all, op_bookmark, op_categorize}
use gator_cli.Offline.Cache.{Snapshot, set_read, set_saved, set_all_read, categorize, apply}

pub apply_cases {ℓ} :
    (P : Snapshot → Type ℓ) (c : Change) (snap : Snapshot)
    → P (set_read c.post_id c.value snap)
    → P (set_all_read c.post_ids snap)
    → P (set_saved c.post_id c.value snap)
    → P (record snap { subs = categorize c.url c.category snap.subs })
    → P snap
    → P (apply c snap)
unfolding apply
apply_cases P c snap read read_all bookmark category other =
    elim (Bool-cases (text_eq c.op op_read)) [
      | inl e ↦ rw e read
      | inr e ↦ rw e (elim (Bool-cases (text_eq c.op op_read_all)) [
        | inl e ↦ rw e read_all
        | inr e ↦ rw e (elim (Bool-cases (text_eq c.op op_bookmark)) [
          | inl e ↦ rw e bookmark
          | inr e ↦ rw e (elim (Bool-cases (text_eq c.op op_categorize)) [
            | inl e ↦ rw e category
            | inr e ↦ rw e other
          ])
        ])
      ])
    ]
