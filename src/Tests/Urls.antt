-- ===== src/Tests/Urls.antt =====
-- The theorem on options.rs at a concrete URL, and what a sign in an escape comes to.
use tarant.Base.{ℕ, ◌==◌, ◌≡◌, refl, not, ◌&&◌, Bool, false, some, List, [], ◌∷◌, ◌++◌, ok, arith}
use tarant.Base.Utf8.{is_utf8}
use tarant.Types.Uuid.{nibble}
use tarant.Options.{scheme, contains, new, parse, unescape, from_hex}
use tarant.Options.Url.{KeepsApart, AreTexts, credentials, parse-credentials}

abbrev keep_example : ℕ → Bool
keep_example b = not (b == b'%') && not (b == b':') && not (b == b'@')

KeepsApart_example : KeepsApart keep_example
KeepsApart_example = record { percent = refl; colon = refl; at = refl }

-- "app" and "s@c"
abbrev user_example : List ℕ
user_example = b'a' ∷ b'p' ∷ b'p' ∷ []

abbrev password_example : List ℕ
password_example = b's' ∷ b'@' ∷ b'c' ∷ []

texts_example : AreTexts user_example (some password_example)
unfolding is_utf8
texts_example = (
  ((omega arith, (omega arith, (omega arith, tt))), refl),
  ((omega arith, (omega arith, (omega arith, tt))), refl),
)

no_at : contains b'@' (b'd' ∷ b'b' ∷ []) ≡ false
unfolding contains
no_at = refl

no_slash : contains b'/' (b'd' ∷ b'b' ∷ []) ≡ false
unfolding contains
no_slash = refl

parse-credentials_example :
    parse (
      scheme
      ++ (credentials keep_example user_example (some password_example)
          ++ (b'@' ∷ b'd' ∷ b'b' ∷ [])))
    ≡ ok (record (new (b'd' ∷ b'b' ∷ [])) {
      user = some user_example;
      password = some password_example;
    })
parse-credentials_example =
    parse-credentials keep_example KeepsApart_example user_example (some password_example) b'd'
      (b'b' ∷ []) texts_example no_at no_slash

-- "%+5" is read as one byte.
sign_in_escape : unescape (b'%' ∷ b'+' ∷ b'5' ∷ []) ≡ some (5 ∷ [])
unfolding unescape from_hex nibble is_utf8
sign_in_escape = refl
