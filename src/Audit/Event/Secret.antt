-- ===== src/Audit/Event/Secret.antt =====
-- The password in the connection record of dbcli/src/audit/event.rs.
use hepta_dbcli.Prelude.{
  ℕ, suc, ◌+◌, ◌==◌, Bool, true, false, not, ◌||◌, List, [], ◌∷◌, ◌++◌, some, length, take, drop,
  ◌≡◌, refl, sym, ap, ◌∙◌, Bool-cases, inl, inr, length-append,
}
use mathlib.Core.List.{append_assoc, append-nil}
use hepta_dbcli.Text.{Text, codes, text_eq, take_until}
use hepta_dbcli.Text.Laws.{AllOf, Starts}
use hepta_dbcli.Audit.Scrub.{ends_authority}
use hepta_dbcli.Audit.Scrub.Redact.{
  take-front, drop-front, rfind-last, find-scheme, cut-front, others, AllOf-append, AllOf-and,
  ordinary, in_password, in_host, dsn, refuted,
}
use hepta_dbcli.Audit.Event.{
  ConnectionInfo, is_char, split_host_port, split_scheme, split_authority, user_of, database_of,
  decoded, unknown_if_empty, strip_char, server_info, from_url,
}

module _ (p : ℕ → Bool) where
  take_until-front :
      (a s : Text) → AllOf (λ c. not (p c)) a → take_until p (a ++ s) ≡ a ++ take_until p s
  unfolding take_until
  take_until-front [] s h = refl
  take_until-front (x ∷ a) s h = rw (refuted (p x) h.0, take_until-front a s h.1) refl

  take_until-all : (a : Text) → AllOf (λ c. not (p c)) a → take_until p a ≡ a
  unfolding take_until
  take_until-all a h =
      ap (take_until p) (sym (append-nil a)) ∙ take_until-front a [] h ∙ append-nil a

  take_until-stop :
      (a : Text) (c : ℕ) (s : Text)
      → AllOf (λ c. not (p c)) a
      → p c ≡ true
      → take_until p (a ++ c ∷ s) ≡ a
  unfolding take_until
  take_until-stop a c s h k = take_until-front a (c ∷ s) h ∙ rw (take_until, k) (append-nil a)

drop-behind : (xs : Text) (y : ℕ) (ys : Text) → drop (suc (length xs)) (xs ++ y ∷ ys) ≡ ys
drop-behind [] y ys = refl
drop-behind (x ∷ xs) y ys = drop-behind xs y ys

-- A character that does not end the authority is neither of the two that do.
neither : (s : Text) → AllOf ordinary s → AllOf (others b'/') s × AllOf (others b'?') s
neither [] h = (tt, tt)
neither (c ∷ s) h =
    let r = neither s h.1 in let b = both (c == b'/') (c == b'?') h.0 in ((b.0, r.0), (b.1, r.1))
  where
    both : (b d : Bool) → not (b || d) ≡ true → (not b ≡ true) × (not d ≡ true)
    both false false h = (refl, refl)
    both false true h = cc
    both true d h = cc

-- What is left of the tail in front of a query is empty or begins with a slash.
path-Starts :
    (tail : Text)
    → Starts ends_authority tail
    → Starts (is_char b'/') (take_until (is_char b'?') tail)
unfolding take_until
path-Starts [] h = tt
path-Starts (c ∷ s) h = elim (Bool-cases (c == b'?')) [
  | inl e ↦ rw (take_until, e) tt
  | inr e ↦ rw (take_until, e) (slash (c == b'/') (c == b'?') h e)
]
  where
    slash : (b d : Bool) → (b || d) ≡ true → d ≡ false → b ≡ true
    slash true d h e = refl
    slash false d h e = cc

-- A URL with a user and no password.
abbrev pub dsn_of_user : Text → Text → Text → Text → Text
dsn_of_user scheme user host tail = scheme ++ codes "://" ++ user ++ b'@' ∷ host ++ tail

module _ (from_utf8_lossy : List ℕ → Text) (name scheme host tail : Text) (read_only : Bool)
    (s : AllOf (others b':') scheme) (server : text_eq scheme (codes "duckdb") ≡ false)
    (h : AllOf in_host host) (t : Starts ends_authority tail) where
  abbrev path : Text
  unfolding take_until
  path = take_until (is_char b'?') tail

  -- What is recorded of a login, which is a user with or without a password.
  abbrev info : Text → ConnectionInfo
  unfolding user_of split_host_port database_of decoded path
  info login = record {
    name = name;
    driver = unknown_if_empty scheme;
    user = user_of from_utf8_lossy (some login);
    host = decoded from_utf8_lossy (split_host_port host).0;
    port = (split_host_port host).1;
    database = database_of from_utf8_lossy (strip_char b'/' path);
    read_only_session = read_only;
  }

  module _ (login : Text) (l : AllOf ordinary login) where
    abbrev address : Text
    address = login ++ b'@' ∷ host

    address-ordinary : AllOf ordinary address
    address-ordinary =
        AllOf-append ordinary login (b'@' ∷ host) l
          (refl, (AllOf-and ordinary (others b'@') host h).0)

    split_scheme-url :
        split_scheme (scheme ++ codes "://" ++ (address ++ tail)) ≡ (scheme, address ++ tail)
    unfolding split_scheme
    split_scheme-url = rw (split_scheme, find-scheme scheme (address ++ tail) s, front, behind) refl
      where
        front : take (length scheme) (scheme ++ codes "://" ++ (address ++ tail)) ≡ scheme
        front =
            ap (take (length scheme)) (append_assoc scheme (codes "://") (address ++ tail))
            ∙ take-front scheme (codes "://" ++ (address ++ tail))

        behind :
            drop (length scheme + 3) (scheme ++ codes "://" ++ (address ++ tail)) ≡ address ++ tail
        behind =
            rw (sym (length-append scheme (codes "://")))
              (drop-front (scheme ++ codes "://") (address ++ tail))

    split_authority-address : split_authority address ≡ (some login, host)
    unfolding split_authority
    split_authority-address =
        rw
          (
            split_authority,
            rfind-last b'@' login host (AllOf-and ordinary (others b'@') host h).1,
            take-front login (b'@' ∷ host),
            drop-behind login b'@' host,
          )
          refl

    server_info-info :
        server_info from_utf8_lossy name scheme (address ++ path) read_only ≡ info login
    unfolding server_info path
    server_info-info =
        rw
          (
            cut-front (is_char b'/') address path (neither address address-ordinary).0
                (path-Starts tail t),
            take-front address path,
            drop-front address path,
            split_authority-address,
          )
          refl

    from_url-info :
        from_url from_utf8_lossy name (scheme ++ codes "://" ++ (address ++ tail)) read_only
        ≡ info login
    unfolding from_url
    from_url-info =
        rw
          (
            split_scheme-url,
            server,
            take_until-front (is_char b'?') address tail (neither address address-ordinary).1,
          )
          server_info-info

  -- The user alone counts of a login.
  same-info :
      (user password : Text) → AllOf (others b':') user → info (user ++ b':' ∷ password) ≡ info user
  unfolding info
  same-info user password n =
      rw
        (
          take_until-stop (is_char b':') user b':' password n refl,
          take_until-all (is_char b':') user n,
        )
        refl

  -- What is recorded of a server's URL of a scheme, a user, a password, a host and a tail, which is empty or
  -- begins with `/` or `?`, is what is recorded of the URL without the password, if there is no colon in
  -- scheme and user, no `/` or `?` in user, password and host, and no `@` in the host. The scheme is not
  -- `duckdb`.
  pub from_url-secret :
      (user password : Text)
      → AllOf in_password user
      → AllOf ordinary password
      → from_url from_utf8_lossy name (dsn scheme user password host tail) read_only
        ≡ from_url from_utf8_lossy name (dsn_of_user scheme user host tail) read_only
  from_url-secret user password u k =
      ap recorded (simp append_assoc)
      ∙ from_url-info (user ++ b':' ∷ password) (
          AllOf-append ordinary user (b':' ∷ password) (AllOf-and ordinary (others b':') user u).0
            (refl, k))
      ∙ same-info user password (AllOf-and ordinary (others b':') user u).1
      ∙ sym (from_url-info user (AllOf-and ordinary (others b':') user u).0)
      ∙ ap recorded (simp append_assoc)
    where
      recorded : Text → ConnectionInfo
      recorded url = from_url from_utf8_lossy name url read_only
