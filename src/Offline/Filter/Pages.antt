-- ===== src/Offline/Filter/Pages.antt =====
-- Pages of a query: the limit and the offset of `selectPosts` (internal/store/offline/filter.go).
use gator_cli.Prelude.{
  ℕ, zero, suc, ◌+◌, ◌≤◌, ◌≡◌, refl, ap, sym, ltb, if◌then◌else◌, none, some, List, [], ◌∷◌, ◌++◌,
  arith, length, take, drop,
}
use gator_cli.Prelude.Int.{ℤ, pos, negsuc}
use native.Mathlib.Nat.{suc-add}
use gator_cli.Offline.Filter.{Post, window}

drop_all : (n : ℕ) (xs : List Post) → length xs ≤ n → drop n xs ≡ []
drop_all zero [] h = refl
drop_all zero (x ∷ xs) h = absurd (omega arith)
drop_all (suc n) [] h = refl
drop_all (suc n) (x ∷ xs) h = drop_all n xs (omega arith)

take_all : (n : ℕ) (xs : List Post) → length xs ≤ n → take n xs ≡ xs
take_all zero [] h = refl
take_all zero (x ∷ xs) h = absurd (omega arith)
take_all (suc n) [] h = refl
take_all (suc n) (x ∷ xs) h = ap (λ l. x ∷ l) (take_all n xs (omega arith))

take-nil : (n : ℕ) → take {A = Post} n [] ≡ []
take-nil zero = refl
take-nil (suc n) = refl

pub take-add : (l m : ℕ) (xs : List Post) → take (l + m) xs ≡ take l xs ++ take m (drop l xs)
take-add zero m xs = ap (λ k. take k xs) (omega arith)
take-add (suc l) m [] = rw suc-add (sym (take-nil m))
take-add (suc l) m (x ∷ xs) = rw suc-add (ap (λ r. x ∷ r) (take-add l m xs))

-- A page is what stands from its offset on, cut at the limit if there is one.
pub window_page :
    (n l : ℕ) (out : List Post)
    → window (pos n) (pos l) out ≡ some (if ltb 0 l then take l (drop n out) else drop n out)
unfolding window
window_page n l out = ground (arith, drop_all n out, take-nil l, take_all l (drop n out))

-- No page exists only where the offset is negative: there the slice expression panics.
pub window-none :
    (offset limit : ℤ) (out : List Post)
    → window offset limit out ≡ none
    → (n : ℕ) × (offset ≡ negsuc n)
unfolding window
window-none (pos n) limit out h = absurd (ground arith)
window-none (negsuc n) limit out h = (n, refl)
