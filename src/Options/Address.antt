-- ===== src/Options/Address.antt =====
-- The address that `ConnectOptions::parse` of options.rs finds in any URL.
use tarant.Base.{ℕ, ◌≡◌, ◌≢◌, ◌⊎◌, true, false, Option, none, some, List, [], ◌∷◌, ◌++◌}
use tarant.Options.{scheme, contains}

-- Where the address of a URL comes from: behind a scheme, if there is one, and credentials with their
-- mark, if there are some, stands a host, of which no part is a path or another mark. The host is the
-- address if it has a colon, and is followed by the port 3301 if it has none.
pub record IsAddress (url addr : List ℕ) : Type 0 where
  pub before : List ℕ
  pub login : List ℕ
  pub host : List ℕ
  pub whole : url ≡ before ++ (login ++ host)
  pub scheme_or_none : (before ≡ []) ⊎ (before ≡ scheme)
  pub login_or_none : (login ≡ []) ⊎ ((text : List ℕ) × (login ≡ text ++ (b'@' ∷ [])))
  pub no_credentials : contains b'@' host ≡ false
  pub no_path : contains b'/' host ≡ false
  pub not_empty : host ≢ []
  pub completed :
      ((contains b':' host ≡ true) × (addr ≡ host))
      ⊎ ((contains b':' host ≡ false) × (addr ≡ host ++ (b':' ∷ b'3' ∷ b'3' ∷ b'0' ∷ b'1' ∷ [])))

-- What is left behind the last of a mark, or without one.
behind_last : Option (List ℕ × List ℕ) → List ℕ → List ℕ
behind_last none whole = whole
behind_last (some split) whole = split.1

-- The parts of a URL.
behind_scheme : List ℕ → Option (List ℕ) → List ℕ
behind_scheme url none = url
behind_scheme url (some rest) = rest
