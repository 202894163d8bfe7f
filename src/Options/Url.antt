-- ===== src/Options/Url.antt =====
-- `ConnectOptions::parse` of options.rs on the URLs that a program writes.
use tarant.Base.{
  ℕ, ◌/◌, ◌%◌, ◌<◌, ◌==◌, ==_iff, ◌≡◌, refl, sym, ◌∙◌, ap, ◌⊎◌, if◌then◌else◌, Bool, true, false,
  ◌||◌, Option, none, some, List, [], ◌∷◌, ◌++◌, ok, ◌>>=◌, All, arith, inl, inr, Bool-cases,
}
use mathlib.Core.Option as Option
use mathlib.Core.Bool.{true≢false}
use tarant.Base.Bits.{all_below, all_below_at}
use tarant.Base.Utf8.{is_utf8}
use tarant.Types.Uuid.{hex_digit, nibble}
use tarant.Options.{
  ConnectOptions, scheme, contains, split_once, rsplit_once, strip_prefix, new, from_hex, unescape,
  prepend, percent_decode, credentials_of, decode_password, with_credentials, host_of, checked_host,
  without_scheme, parse,
}

-- A byte as it stands in a URL: itself, or an escape.
unfoldable pub escape : (ℕ → Bool) → ℕ → List ℕ
unfolding hex_digit
escape keep b = if keep b then b ∷ [] else b'%' ∷ hex_digit (b / 16) ∷ hex_digit (b % 16) ∷ []

unfoldable pub escape_all : (ℕ → Bool) → List ℕ → List ℕ
unfolding escape
escape_all keep [] = []
escape_all keep (b ∷ bs) = escape keep b ++ escape_all keep bs

-- What must be escaped, and may not be kept.
pub record KeepsApart (keep : ℕ → Bool) : Type 0 where
  pub percent : keep b'%' ≡ false
  pub colon : keep b':' ≡ false
  pub at : keep b'@' ≡ false

abbrev pub AreBytes : List ℕ → Type 0
AreBytes = All (λ b. b < 256)

abbrev is_read : ℕ → Option ℕ → Bool
is_read b none = false
is_read b (some c) = c == b

from_hex_table :
    all_below 256 (λ b. is_read b (from_hex (hex_digit (b / 16)) (hex_digit (b % 16)))) ≡ true
unfolding all_below from_hex hex_digit is_utf8 nibble
from_hex_table = refl

is_read-some : (b : ℕ) (o : Option ℕ) → is_read b o ≡ true → o ≡ some b
is_read-some b none h = absurd (true≢false (sym h))
is_read-some b (some c) h = ap some ((==_iff c b).0 h)

from_hex-hex_digit : (b : ℕ) → b < 256 → from_hex (hex_digit (b / 16)) (hex_digit (b % 16)) ≡ some b
from_hex-hex_digit b h = is_read-some b _ (all_below_at _ 256 b h from_hex_table)

unescape-kept :
    (b : ℕ) (rest : List ℕ) → (b == b'%') ≡ false → unescape (b ∷ rest) ≡ prepend b (unescape rest)
unfolding unescape
unescape-kept b [] h = rw h refl
unescape-kept b (c ∷ []) h = rw (h, unescape) refl
unescape-kept b (c ∷ d ∷ rest) h = rw (h, unescape) refl

not_kept : (keep : ℕ → Bool) (b c : ℕ) → keep b ≡ true → keep c ≡ false → (b == c) ≡ false
not_kept keep b c h k = elim (Bool-cases (b == c)) [
  | inl e ↦ absurd (true≢false (sym h ∙ ap keep ((==_iff b c).0 e) ∙ k))
  | inr e ↦ e
]

unescape_escaped :
    (c d b : ℕ) (rest : List ℕ)
    → from_hex c d ≡ some b
    → unescape (b'%' ∷ c ∷ d ∷ rest) ≡ prepend b (unescape rest)
unfolding unescape
unescape_escaped c d b rest h = rw h refl

==_same : (c : ℕ) → (c == c) ≡ true
==_same c = (==_iff c c).1 refl

or_false : (a b : Bool) → (a || b) ≡ false → (a ≡ false) × (b ≡ false)
or_false true b h = absurd (true≢false h)
or_false false b h = (refl, h)

percent_apart :
    (c : ℕ) (b : Bool) → (c ≡ b':') ⊎ (c ≡ b'@') → b ≡ false → ((b'%' == c) || b) ≡ false
percent_apart c b (inl e) h = rw (e, h) refl
percent_apart c b (inr e) h = rw (e, h) refl

module _ (keep : ℕ → Bool) (k : KeepsApart keep) where
  unescape-escape :
      (b : ℕ) (rest : List ℕ)
      → b < 256
      → unescape (escape keep b ++ rest) ≡ prepend b (unescape rest)
  unfolding escape
  unescape-escape b rest h = elim (Bool-cases (keep b)) [
    | inl e ↦ rw e (unescape-kept b rest (not_kept keep b b'%' e k.percent))
    | inr e ↦
        rw e (
          unescape_escaped (hex_digit (b / 16)) (hex_digit (b % 16)) b rest
            (from_hex-hex_digit b h))
  ]

  unescape-escape_all : (bs : List ℕ) → AreBytes bs → unescape (escape_all keep bs) ≡ some bs
  unfolding escape_all
  unescape-escape_all [] h = unfold unescape in refl
  unescape-escape_all (b ∷ bs) h =
      unescape-escape b (escape_all keep bs) h.0 ∙ ap (prepend b) (unescape-escape_all bs h.1)

  hex_digit-no_mark : (c n : ℕ) → n < 16 → (c ≡ b':') ⊎ (c ≡ b'@') → (hex_digit n == c) ≡ false
  unfolding hex_digit
  hex_digit-no_mark c n h m = ground (arith, h, m)

  contains-escape_all :
      (c : ℕ) (bs : List ℕ)
      → AreBytes bs
      → keep c ≡ false
      → (c ≡ b':') ⊎ (c ≡ b'@')
      → contains c (escape_all keep bs) ≡ false
  unfolding contains escape_all escape
  contains-escape_all c [] h e m = refl
  contains-escape_all c (b ∷ bs) h e m = elim (Bool-cases (keep b)) [
    | inl f ↦ rw (f, not_kept keep b c f e) (contains-escape_all c bs h.1 e m)
    | inr f ↦
        rw
          (
            f,
            hex_digit-no_mark c (b / 16) (omega (arith, h.0)) m,
            hex_digit-no_mark c (b % 16) (omega arith) m,
          )
          (percent_apart c _ m (contains-escape_all c bs h.1 e m))
  ]

-- Splitting where a mark stands once, or last.
split_once-append :
    (c : ℕ) (xs ys : List ℕ) → contains c xs ≡ false → split_once c (xs ++ (c ∷ ys)) ≡ some (xs, ys)
unfolding split_once contains
split_once-append c [] ys h = rw (==_same c) refl
split_once-append c (x ∷ xs) ys h =
    let apart = or_false (x == c) (contains c xs) h in
    rw (apart.0, split_once-append c xs ys apart.1) refl

split_once-none : (c : ℕ) (xs : List ℕ) → contains c xs ≡ false → split_once c xs ≡ none
unfolding split_once contains
split_once-none c [] h = refl
split_once-none c (x ∷ xs) h =
    let apart = or_false (x == c) (contains c xs) h in
    rw (apart.0, split_once-none c xs apart.1) refl

rsplit_once-none : (c : ℕ) (xs : List ℕ) → contains c xs ≡ false → rsplit_once c xs ≡ none
unfolding rsplit_once contains
rsplit_once-none c [] h = refl
rsplit_once-none c (x ∷ xs) h =
    let apart = or_false (x == c) (contains c xs) h in
    rw (rsplit_once-none c xs apart.1, rsplit_once, apart.0) refl

rsplit_once-append :
    (c : ℕ) (xs ys : List ℕ)
    → contains c ys ≡ false
    → rsplit_once c (xs ++ (c ∷ ys)) ≡ some (xs, ys)
unfolding rsplit_once
rsplit_once-append c [] ys h = rw (rsplit_once-none c ys h, ==_same c) refl
rsplit_once-append c (x ∷ xs) ys h = rw (rsplit_once-append c xs ys h) refl

host_of-append :
    (text host : List ℕ)
    → contains b'@' host ≡ false
    → host_of (text ++ (b'@' ∷ host)) ≡ (some text, host)
unfolding host_of
host_of-append text host h = rw (rsplit_once-append b'@' text host h, host_of) refl

checked_host-kept :
    (c : ℕ) (cs : List ℕ) → contains b'/' (c ∷ cs) ≡ false → checked_host (c ∷ cs) ≡ ok (c ∷ cs)
unfolding checked_host
checked_host-kept c cs h = rw (h, checked_host) refl

-- The credentials of a user as they stand in a URL.
unfoldable pub credentials : (ℕ → Bool) → List ℕ → Option (List ℕ) → List ℕ
unfolding escape_all
credentials keep user none = escape_all keep user
credentials keep user (some password) = escape_all keep user ++ (b':' ∷ escape_all keep password)

-- What a user and a password must be: text.
abbrev pub IsText : List ℕ → Type 0
IsText s = AreBytes s × (is_utf8 s ≡ true)

abbrev pub AreTexts : List ℕ → Option (List ℕ) → Type 0
AreTexts user none = IsText user
AreTexts user (some password) = IsText user × IsText password

module _ (keep : ℕ → Bool) (k : KeepsApart keep) where
  percent_decode-escape_all : (s : List ℕ) → IsText s → percent_decode (escape_all keep s) ≡ ok s
  unfolding percent_decode
  percent_decode-escape_all s t = rw (unescape-escape_all keep k s t.0, t.1) refl

  credentials_of-credentials :
      (user : List ℕ) (password : Option (List ℕ))
      → AreTexts user password
      → credentials_of (credentials keep user password)
        ≡ (escape_all keep user, Option.map (escape_all keep) password)
  unfolding credentials credentials_of
  credentials_of-credentials user none t =
      rw
        (
          split_once-none b':' (escape_all keep user)
              (contains-escape_all keep k b':' user t.0 k.colon (inl refl)),
          credentials_of,
        )
        refl
  credentials_of-credentials user (some p) t =
      rw
        (
          split_once-append b':' (escape_all keep user) (escape_all keep p)
              (contains-escape_all keep k b':' user t.0.0 k.colon (inl refl)),
          credentials_of,
        )
        refl

  decode-credentials :
      (user : List ℕ) (password : Option (List ℕ)) (o : ConnectOptions)
      → AreTexts user password
      → (percent_decode (escape_all keep user) >>= λ u.
          decode_password (Option.map (escape_all keep) password) >>= λ p.
          ok (record o { user = some u; password = p }))
        ≡ ok (record o { user = some user; password = password })
  unfolding decode_password
  decode-credentials user none o t = rw (percent_decode-escape_all user t) refl
  decode-credentials user (some p) o t =
      rw (percent_decode-escape_all user t.0, percent_decode-escape_all p t.1) refl

  with_credentials-credentials :
      (user : List ℕ) (password : Option (List ℕ)) (o : ConnectOptions)
      → AreTexts user password
      → with_credentials (some (credentials keep user password)) o
        ≡ ok (record o { user = some user; password = password })
  unfolding with_credentials
  with_credentials-credentials user password o t =
      ap
        (λ r. percent_decode r.0 >>= λ u.
          decode_password r.1 >>= λ p. ok (record o { user = some u; password = p }))
        (credentials_of-credentials user password t)
      ∙ decode-credentials user password o t

  -- Whatever else is escaped in a URL, as long as `%`, `:` and `@` are: the user and the password of a
  -- URL are read back as they were, with the options of its host, if they are text and the host is not
  -- empty and has neither `@` nor `/`.
  pub parse-credentials :
      (user : List ℕ) (password : Option (List ℕ)) (c : ℕ) (cs : List ℕ)
      → AreTexts user password
      → contains b'@' (c ∷ cs) ≡ false
      → contains b'/' (c ∷ cs) ≡ false
      → parse (scheme ++ (credentials keep user password ++ (b'@' ∷ c ∷ cs)))
        ≡ ok (record (new (c ∷ cs)) { user = some user; password = password })
  unfolding parse without_scheme strip_prefix
  parse-credentials user password c cs t at slash =
      ap (λ h. checked_host h.1 >>= λ host. with_credentials h.0 (new host))
        (host_of-append (credentials keep user password) (c ∷ cs) at)
      ∙ ap (λ r. r >>= λ host. with_credentials (some (credentials keep user password)) (new host))
          (checked_host-kept c cs slash)
      ∙ with_credentials-credentials user password (new (c ∷ cs)) t
