-- ===== src/Guard/Cte.antt =====
-- The gate of dbcli/src/cli.rs and common table expressions.
use hepta_dbcli.Prelude.{
  ℕ, Bool, true, false, not, ◌||◌, List, [], ◌∷◌, ◌++◌, ◌≡◌, ◌≢◌, refl, arith, inl, inr,
  if◌then◌else◌, Bool-cases,
}
use hepta_dbcli.Text.{
  Text, codes, text_eq, one_of, is_word, split, cons_to_first, contains, trim_end, to_uppercase,
}
use hepta_dbcli.Text.Laws.{StartsNot, text_eq_iff}
use hepta_dbcli.Guard.{
  StatementClass, ddl, privilege, data_change, call, read_only, allow, ddl_keywords,
  privilege_keywords, data_change_keywords, data_change_lead_keywords, call_keywords, is_keyword,
  any_keyword, classify_upper, gate, write_gate,
}
use hepta_dbcli.Guard.Comments.{Skippable}
use hepta_dbcli.Guard.Leading.{
  IsWord, one, more, Break, Leads, defines, grants, changes, copies, calls, classify_lem,
}

abbrev stray : ℕ → Bool
stray c = not (is_word c)

one_of_here : (k : Text) (ws : List Text) → one_of k (k ∷ ws) ≡ true
unfolding one_of
one_of_here k ws = rw ((text_eq_iff k k).1 refl)

-- The words behind the first.
abbrev later : List Text → List Text
later [] = []
later (w ∷ ws) = ws

one_of-later : (k : Text) (ws : List Text) → one_of k (later ws) ≡ true → one_of k ws ≡ true
unfolding one_of
one_of-later k [] h = h
one_of-later k (w ∷ ws) h = ground arith

later-cons_to_first : (c : ℕ) (ws : List Text) → later (cons_to_first c ws) ≡ later ws
later-cons_to_first c [] = refl
later-cons_to_first c (w ∷ ws) = refl

-- A word behind a separator is a word of the whole, and not its first.
one_of-split :
    (k s t : Text) (c : ℕ)
    → is_word c ≡ false
    → one_of k (split stray t) ≡ true
    → one_of k (later (split stray (s ++ c ∷ t))) ≡ true
unfolding split
one_of-split k [] t c h e = rw h e
one_of-split k (d ∷ s) t c h e = elim (Bool-cases (is_word d)) [
  | inl word ↦
      rw word (rw (later-cons_to_first d (split stray (s ++ c ∷ t))) (one_of-split k s t c h e))
  | inr gap ↦ rw gap (one_of-later k _ (one_of-split k s t c h e))
]

split-word :
    {w : Text} (t : Text)
    → IsWord w
    → StartsNot is_word t
    → (ws : List Text) × (split stray (w ++ t) ≡ w ∷ ws)
unfolding split
split-word [] (one c e) h = ([], rw e)
split-word (d ∷ t) (one c e) h = (split stray t, rw (e, h))
split-word t (more c {w} e k) h = let (ws, f) = split-word t k h in (ws, rw (e, f))

-- A keyword that stands as a word behind the first is found.
is_keyword_found :
    (s k t : Text) (c : ℕ)
    → is_word c ≡ false
    → IsWord k
    → StartsNot is_word t
    → is_keyword (s ++ c ∷ (k ++ t)) k ≡ true
unfolding is_keyword
is_keyword_found s k t c h w n =
    let (ws, e) = split-word t w n in
    one_of-later k _ (one_of-split k s (k ++ t) c h (rw e (one_of_here k ws)))

any_keyword_found :
    (k u : Text) (ks : List Text)
    → is_keyword u k ≡ true
    → one_of k ks ≡ true
    → any_keyword ks u ≡ true
unfolding any_keyword one_of
any_keyword_found k u [] h e = cc
any_keyword_found k u (j ∷ ks) h e = elim (Bool-cases (text_eq j k)) [
  | inl same ↦ rw ((text_eq_iff j k).0 same, h)
  | inr differ ↦ ground (arith, any_keyword_found k u ks h)
]

abbrev with_keyword : Text
with_keyword = codes "WITH"

-- The gate with no flag given.
abbrev Refused : StatementClass → Type 0
Refused k = gate k false false ≢ allow

-- The branch of the ladder for a CTE, on the answers of its five tests.
abbrev cte_class : Bool → Bool → Bool → Bool → Bool → Bool → StatementClass
cte_class d p c l i k =
    if d
    then ddl
    else if p
    then privilege
    else if c || l || i
    then data_change
    else if k
    then call
    else read_only

with_lem :
    (u : Text)
    → classify_upper with_keyword u
      ≡ cte_class
          (any_keyword ddl_keywords u)
          (any_keyword privilege_keywords u)
          (any_keyword data_change_keywords u)
          (any_keyword data_change_lead_keywords u)
          (contains (codes " INTO ") u)
          (any_keyword call_keywords u)
unfolding classify_upper
with_lem u = refl

with-Refused :
    (k u : Text) {cl : StatementClass}
    → is_keyword u k ≡ true
    → Leads k cl
    → Refused (classify_upper with_keyword u)
with-Refused k u h (defines e) =
    rw with_lem (let f = any_keyword_found k u ddl_keywords h e in ground arith)
with-Refused k u h (grants e) =
    rw with_lem (let f = any_keyword_found k u privilege_keywords h e in ground arith)
with-Refused k u h (changes e) =
    rw with_lem (let f = any_keyword_found k u data_change_keywords h e in ground arith)
with-Refused k u h (copies e) =
    rw with_lem (let f = any_keyword_found k u data_change_lead_keywords h e in ground arith)
with-Refused k u h (calls e) =
    rw with_lem (let f = any_keyword_found k u call_keywords h e in ground arith)

-- A statement that WITH leads, in any mixture of cases, behind any blanks and whole comments and with an
-- ASCII blank or the end right behind it, is refused with no flag given if a keyword of DDL, of privileges, of data changes or of calls
-- stands in it as a word, in any mixture of cases: in the upper-case text between a character
-- that is not of a word and another such, or the end.
pub write_gate-with :
    (wide : ℕ → Text) (p w t x k y : Text) (c : ℕ) {cl : StatementClass}
    → Skippable p
    → IsWord w
    → Break t
    → to_uppercase wide w ≡ codes "WITH"
    → to_uppercase wide (trim_end t) ≡ x ++ c ∷ (k ++ y)
    → is_word c ≡ false
    → IsWord k
    → StartsNot is_word y
    → Leads k cl
    → write_gate wide (p ++ (w ++ t)) false false ≢ allow
unfolding write_gate
write_gate-with wide p w t x k y c s h b e f g i n l =
    rw (classify_lem wide p w t s h b, e, f)
      (with-Refused k (codes "WITH" ++ (x ++ c ∷ (k ++ y)))
        (is_keyword_found (codes "WITH" ++ x) k y c g i n) l)
