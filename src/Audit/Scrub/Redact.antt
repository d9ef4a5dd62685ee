-- ===== src/Audit/Scrub/Redact.antt =====
-- The password of a connection string and `redact_dsn` of dbcli/src/audit/scrub.rs.
use hepta_dbcli.Prelude.{
  ℕ, zero, ◌+◌, ◌==◌, Bool, true, false, not, ◌&&◌, [], ◌∷◌, ◌++◌, none, some, length, take, drop,
  if◌then◌else◌, ◌≡◌, refl, sym, ap, ◌∙◌, arith, length-append,
}
use mathlib.Core.List.{append_assoc, append-nil}
use hepta_dbcli.Text.{Text, codes, starts_with}
use hepta_dbcli.Text.Laws.{AllOf, Starts}
use hepta_dbcli.Audit.Scrub.{
  find, position, rfind, plus_three, or_else, ends_authority, authority_of, strike, redact_dsn,
}

pub take-front : (xs ys : Text) → take (length xs) (xs ++ ys) ≡ xs
take-front [] ys = refl
take-front (x ∷ xs) ys = ap (◌∷◌ x) (take-front xs ys)

pub drop-front : (xs ys : Text) → drop (length xs) (xs ++ ys) ≡ ys
drop-front [] ys = refl
drop-front (x ∷ xs) ys = drop-front xs ys

pub refuted : (b : Bool) → not b ≡ true → b ≡ false
refuted true h = cc
refuted false h = refl

module _ (p : ℕ → Bool) where
  position-none : (xs : Text) → AllOf (λ c. not (p c)) xs → position p xs ≡ none
  unfolding position
  position-none [] h = refl
  position-none (x ∷ xs) h = rw (refuted (p x) h.0, position-none xs h.1) refl

  position-front :
      (xs : Text) (y : ℕ) (ys : Text)
      → AllOf (λ c. not (p c)) xs
      → p y ≡ true
      → position p (xs ++ y ∷ ys) ≡ some (length xs)
  unfolding position
  position-front [] y ys h k = rw k refl
  position-front (x ∷ xs) y ys h k = rw (refuted (p x) h.0, position-front xs y ys h.1 k) refl

module _ (c : ℕ) where
  abbrev pub others : ℕ → Bool
  others d = not (d == c)

  rfind-none : (xs : Text) → AllOf others xs → rfind c xs ≡ none
  unfolding rfind
  rfind-none [] h = refl
  rfind-none (x ∷ xs) h = rw (rfind-none xs h.1, refuted (x == c) h.0) refl

  pub rfind-last : (xs ys : Text) → AllOf others ys → rfind c (xs ++ c ∷ ys) ≡ some (length xs)
  unfolding rfind
  rfind-last [] ys h = rw (rfind-none ys h) (found (c == c) (ground arith))
    where
      found : (b : Bool) → b ≡ true → (if b then some zero else none) ≡ some zero
      found true h = refl
      found false h = cc
  rfind-last (x ∷ xs) ys h = rw (rfind-last xs ys h) refl

-- The first `://` is the one behind a scheme with no colon.
pub find-scheme :
    (scheme rest : Text)
    → AllOf (others 58) scheme
    → find (codes "://") (scheme ++ codes "://" ++ rest) ≡ some (length scheme)
unfolding find starts_with
find-scheme [] rest h = refl
find-scheme (x ∷ scheme) rest h =
    rw (find, find-scheme scheme rest h.1, differs x (refuted (x == 58) h.0)) refl
  where
    differs : (x : ℕ) → (x == 58) ≡ false → (58 == x) ≡ false
    differs x e = ground arith

-- Where a text is cut at the first character that passes a test.
pub cut-front :
    (p : ℕ → Bool) (a tail : Text)
    → AllOf (λ c. not (p c)) a
    → Starts p tail
    → or_else (position p (a ++ tail)) (length (a ++ tail)) ≡ length a
cut-front p a [] h k = rw (append-nil a, position-none p a h) refl
cut-front p a (t ∷ tail) h k = rw (position-front p a t tail h k) refl

authority-front :
    (a tail : Text)
    → AllOf (λ c. not (ends_authority c)) a
    → Starts ends_authority tail
    → authority_of (a ++ tail) ≡ a
unfolding authority_of
authority-front a tail h k = rw (cut-front ends_authority a tail h k) (take-front a tail)

-- A URL with a user and a password.
abbrev pub dsn : Text → Text → Text → Text → Text → Text
dsn scheme user password host tail =
    scheme ++ codes "://" ++ user ++ 58 ∷ password ++ 64 ∷ host ++ tail

struck :
    (url authority : Text) (start at colon : ℕ)
    → rfind 64 authority ≡ some at
    → rfind 58 (take at authority) ≡ some colon
    → strike url start authority
      ≡ take (start + colon + 1) url ++ codes "****" ++ drop (start + at) url
unfolding strike
struck url authority start at colon l m = rw (strike, l, m) refl

take_of : (n : ℕ) (url xs ys : Text) → n ≡ length xs → url ≡ xs ++ ys → take n url ≡ xs
take_of n url xs ys h k = rw (h, k) (take-front xs ys)

drop_of : (n : ℕ) (url xs ys : Text) → n ≡ length xs → url ≡ xs ++ ys → drop n url ≡ ys
drop_of n url xs ys h k = rw (h, k) (drop-front xs ys)

pub AllOf-append : (p : ℕ → Bool) (xs ys : Text) → AllOf p xs → AllOf p ys → AllOf p (xs ++ ys)
AllOf-append p [] ys h k = k
AllOf-append p (x ∷ xs) ys h k = (h.0, AllOf-append p xs ys h.1 k)

pub AllOf-and : (p q : ℕ → Bool) (xs : Text) → AllOf (λ c. p c && q c) xs → AllOf p xs × AllOf q xs
AllOf-and p q [] h = (tt, tt)
AllOf-and p q (x ∷ xs) h =
    let r = AllOf-and p q xs h.1 in let b = and_true (p x) (q x) h.0 in ((b.0, r.0), (b.1, r.1))
  where
    and_true : (b c : Bool) → (b && c) ≡ true → (b ≡ true) × (c ≡ true)
    and_true true c h = (refl, h)
    and_true false c h = cc

abbrev pub ordinary : ℕ → Bool
ordinary c = not (ends_authority c)

abbrev pub in_password : ℕ → Bool
in_password c = ordinary c && others 58 c

abbrev pub in_host : ℕ → Bool
in_host c = ordinary c && others 64 c

module _ (scheme user password host tail : Text) where
  abbrev head : Text
  head = scheme ++ codes "://"

  abbrev login : Text
  login = user ++ 58 ∷ password

  abbrev url : Text
  url = dsn scheme user password host tail

  url-head : url ≡ head ++ (login ++ 64 ∷ host ++ tail)
  url-head = simp append_assoc

  url-password : url ≡ (head ++ user ++ 58 ∷ []) ++ (password ++ 64 ∷ host ++ tail)
  url-password = simp append_assoc

  url-host : url ≡ (head ++ login) ++ (64 ∷ host ++ tail)
  url-host = simp append_assoc

  colon_at : length head + length user + 1 ≡ length (head ++ user ++ 58 ∷ [])
  colon_at = rw (length-append (head ++ user) (58 ∷ []), length-append head user) (omega arith)

  start_of : AllOf (others 58) scheme → plus_three (find (codes "://") url) ≡ length head
  start_of h =
      rw (url-head, find-scheme scheme (login ++ 64 ∷ host ++ tail) h)
        (sym (length-append scheme (codes "://")))

  authority :
      AllOf ordinary user
      → AllOf in_password password
      → AllOf in_host host
      → AllOf ordinary (login ++ 64 ∷ host)
  authority u p h =
      AllOf-append ordinary login (64 ∷ host)
        (AllOf-append ordinary user (58 ∷ password) u
          (refl, (AllOf-and ordinary (others 58) password p).0))
        (refl, (AllOf-and ordinary (others 64) host h).0)

  -- A URL of a scheme, a user, a password, a host and a tail, which is empty or begins with `/` or `?`: its
  -- password, and nothing else, is replaced by `****`, if there is no colon in the scheme, no `/` or `?` in
  -- user, password and host, no colon in the password and no `@` in the host.
  pub redact_dsn-hides :
      AllOf (others 58) scheme
      → AllOf ordinary user
      → AllOf in_password password
      → AllOf in_host host
      → Starts ends_authority tail
      → redact_dsn url ≡ dsn scheme user (codes "****") host tail
  unfolding redact_dsn
  redact_dsn-hides s u p h t =
      rw
        (
          start_of s,
          drop_of (length head) url head (login ++ 64 ∷ host ++ tail) refl url-head,
          authority-front (login ++ 64 ∷ host) tail (authority u p h) t,
        )
        (struck url (login ++ 64 ∷ host) (length head) (length login) (length user)
            (rfind-last 64 login host (AllOf-and ordinary (others 64) host h).1)
            (ap (rfind 58) (take-front login (64 ∷ host))
              ∙ rfind-last 58 user password (AllOf-and ordinary (others 58) password p).1)
          ∙ ap (λ (front : Text). front ++ codes "****" ++ drop (length head + length login) url)
              (take_of (length head + length user + 1) url (head ++ user ++ 58 ∷ [])
                (password ++ 64 ∷ host ++ tail) colon_at url-password)
          ∙ ap (λ (back : Text). head ++ user ++ 58 ∷ [] ++ codes "****" ++ back)
              (drop_of (length head + length login) url (head ++ login) (64 ∷ host ++ tail)
                (sym (length-append head login)) url-host)
          ∙ simp append_assoc)
