-- ===== src/Options/Credentials.antt =====
-- What `parseCreds` makes of a user name and a password.
use golang_fb_mirror.Base.{
  ℕ, ◌≡◌, refl, true, none, some, [], ◌∷◌, ◌++◌, ◌==◌, ℕ_eq, List_eq, ok, err, arith,
  empty_credentials, empty_username,
}
use golang_fb_mirror.Base.Text.{Str}
use golang_fb_mirror.Names.Parts.{Lacks}
use golang_fb_mirror.Options.{cut_first, parse_creds}

cut_first-hit : (c : ℕ) (s : Str) → cut_first c (c ∷ s) ≡ some ([], s)
unfolding cut_first
cut_first-hit c s = let h : (c == c) ≡ true = ground arith in rw (cut_first, h) refl

cut_first-part :
    (c : ℕ) (part rest : Str) → Lacks c part → cut_first c (part ++ c ∷ rest) ≡ some (part, rest)
unfolding cut_first
cut_first-part c [] rest h = cut_first-hit c rest
cut_first-part c (b ∷ part) rest (n, h) = rw (cut_first, n, cut_first-part c part rest h) refl

cut_first-none : (c : ℕ) (s : Str) → Lacks c s → cut_first c s ≡ none
unfolding cut_first
cut_first-none c [] h = refl
cut_first-none c (b ∷ s) (n, h) = rw (cut_first, n, cut_first-none c s h) refl

-- For a user name that is not empty and has no colon: `parseCreds` returns it with an empty
-- password where it stands alone, and with the whole rest, which may have colons, where a colon and
-- a password follow. Without a user name it is an error.
pub parse_creds-parts :
    (b : ℕ) (name password : Str)
    → Lacks 58 (b ∷ name)
    → (parse_creds (b ∷ name) ≡ ok (b ∷ name, []))
      × (parse_creds (b ∷ name ++ 58 ∷ password) ≡ ok (b ∷ name, password))
      × (parse_creds (58 ∷ password) ≡ err empty_username)
      × (parse_creds [] ≡ err empty_credentials)
unfolding parse_creds
parse_creds-parts b name password h = (
  rw (cut_first-none 58 (b ∷ name) h) refl,
  rw (cut_first-part 58 (b ∷ name) password h) refl,
  refl,
  refl,
)
