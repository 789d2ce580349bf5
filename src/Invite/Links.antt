-- ===== src/Invite/Links.antt =====
-- From a link of an invitation to its parts (internal/invite/invite.go).
use gator_cli.Prelude.{
  ℕ, ◌≡◌, refl, ap, ◌∙◌, true, false, if◌then◌else◌, Option, some, [], ◌∷◌, ◌++◌, Text, text_eq,
  codes, any, drop, length, has_prefix, trim_left, trim_right, trim_space, keep_unless, arith,
}
use gator_cli.Store.{ok}
use gator_cli.Invite.{is_slash, path, link, Url, has_server, token_of, parse}

trim_right-free : (s : Text) → any is_slash s ≡ false → trim_right is_slash s ≡ s
trim_right-free [] h = refl
trim_right-free (c ∷ s) h =
    let e : is_slash c ≡ false = ground (arith, h) in
    let rest : any is_slash s ≡ false = ground (arith, h) in
    ap (λ b. keep_unless b c (trim_right is_slash s)) e
    ∙ ap (keep_unless false c) (trim_right-free s rest)
    ∙ kept c s
  where
    kept : (c : ℕ) (s : Text) → keep_unless false c s ≡ c ∷ s
    kept c [] = refl
    kept c (d ∷ s) = refl

trim_left-free : (s : Text) → any is_slash s ≡ false → trim_left is_slash s ≡ s
trim_left-free [] h = refl
trim_left-free (c ∷ s) h = let e : is_slash c ≡ false = ground (arith, h) in rw e refl

token_of-path :
    (u : Url) (token : Text)
    → u.path ≡ path ++ token
    → any is_slash token ≡ false
    → token_of u ≡ token
unfolding token_of
token_of-path u token at free =
    ap
      (λ p.
        trim_right is_slash
          (trim_left is_slash (if has_prefix p path then drop (length path) p else p)))
      at
    ∙ ap (trim_right is_slash) (trim_left-free token free)
    ∙ trim_right-free token free

-- If the address of the link that Link makes has https or http for its scheme, a host, and the
-- prefix and the token for its path, and the token is not empty and has no slash, Parse gives the
-- server and the token back.
pub parse-link :
    (quoted : Text → Text) (parse_url : Text → Option Url) (server token : Text) (u : Url)
    → parse_url (trim_space (link server token)) ≡ some u
    → u.path ≡ path ++ token
    → has_server u ≡ true
    → text_eq token [] ≡ false
    → any is_slash token ≡ false
    → parse quoted parse_url (link server token) ≡ ok (u.scheme ++ codes "://" ++ u.host, token)
unfolding parse
parse-link quoted parse_url server token u found at served some_token free =
    let prefix : has_prefix u.path path ≡ true = ap (λ p. has_prefix p path) at in
    rw (found, served, prefix, token_of-path u token at free, some_token, free) refl
