-- ===== src/Route/Integers.antt =====
-- The types of integer keys: `is_int_key` of dbcli/src/delta_diff/engine.rs.
use hepta_dbcli.Prelude.{
  ℕ, ◌==◌, Bool, true, not, ◌||◌, List, [], ◌∷◌, ◌++◌, Option, none, some, ◌≡◌, refl, sym, ap, inl,
  inr, ◌⊎◌, Bool-cases,
}
use mathlib.Core.Path.{subst}
use hepta_dbcli.Text.{
  drop_end_while, drop_while, Text, codes, text_eq, one_of, trim, take_until, to_lowercase,
}
use hepta_dbcli.Text.Laws.{AllOf, Starts, text_eq_iff}
use hepta_dbcli.Pairing.{ColumnSpec, TablePlan, spec_for}
use hepta_dbcli.Route.{is_int_key, type_of}

abbrev pub OneOf : Text → List Text → Type 0
OneOf t [] = ⊥
OneOf t (n ∷ ns) = (t ≡ n) ⊎ OneOf t ns

-- The integer types of the servers, and their exact decimals.
abbrev pub counting : List Text
counting =
    codes "tinyint"
    ∷ codes "smallint"
    ∷ codes "mediumint"
    ∷ codes "int"
    ∷ codes "integer"
    ∷ codes "bigint"
    ∷ codes "int2"
    ∷ codes "int4"
    ∷ codes "int8"
    ∷ codes "oid"
    ∷ codes "number"
    ∷ codes "numeric"
    ∷ codes "decimal"
    ∷ []

-- The text is a name of the list, in letters of any case and with blanks about it, and then nothing or an
-- opening parenthesis with any text behind.
abbrev pub Counts : (ℕ → Text) → Text → Type 0
Counts wide t =
    (base : Text) × (rest : Text) × (base ++ rest ≡ t)
    × AllOf (λ c. not (c == b'(')) base
    × Starts (λ c. c == b'(') rest
    × OneOf (to_lowercase wide (trim base)) counting

-- The table has the column, and its type is of the list.
abbrev pub HasIntegerType : (ℕ → Text) → TablePlan → Text → Type 0
HasIntegerType wide plan k = (s : ColumnSpec) × (spec_for plan k ≡ some s) × Counts wide s.data_type

one_of-OneOf : (t : Text) (ns : List Text) → one_of t ns ≡ true → OneOf t ns
unfolding one_of
one_of-OneOf t [] h = cc h
one_of-OneOf t (n ∷ ns) h = elim (Bool-cases (text_eq n t)) [
  | inl e ↦ inl (sym ((text_eq_iff n t).0 e))
  | inr e ↦ inr (one_of-OneOf t ns (subst (λ b. (b || one_of t ns) ≡ true) e h))
]

module _ (p : ℕ → Bool) where
  take_until-cuts :
      (s : Text)
      → (rest : Text) × (take_until p s ++ rest ≡ s)
        × AllOf (λ c. not (p c)) (take_until p s)
        × Starts p rest
  unfolding take_until
  take_until-cuts [] = ([], refl, tt, tt)
  take_until-cuts (c ∷ s) = elim (Bool-cases (p c)) [
    | inl e ↦ rw e (c ∷ s, refl, tt, e)
    | inr e ↦ let r = take_until-cuts s in rw e (r.0, ap (◌∷◌ c) r.1, (rw e refl, r.2), r.3)
  ]

one_of-Counts :
    (wide : ℕ → Text) (t : Text)
    → one_of (to_lowercase wide (trim (take_until (λ c. c == b'(') t))) counting ≡ true
    → Counts wide t
one_of-Counts wide t h =
    let r = take_until-cuts (λ c. c == b'(') t in
    (take_until (λ c. c == b'(') t, r.0, r.1, r.2, r.3, one_of-OneOf _ counting h)

pub is_int_key-HasIntegerType :
    (wide : ℕ → Text) (plan : TablePlan) (k : Text)
    → is_int_key wide plan k ≡ true
    → HasIntegerType wide plan k
unfolding is_int_key take_until to_lowercase one_of drop_end_while drop_while
is_int_key-HasIntegerType wide plan k h = of_spec (spec_for plan k) refl h
  where
    of_spec :
        (o : Option ColumnSpec)
        → spec_for plan k ≡ o
        → one_of (to_lowercase wide (trim (take_until (λ c. c == b'(') (type_of o)))) counting
          ≡ true
        → HasIntegerType wide plan k
    of_spec none e g = cc g
    of_spec (some s) e g = (s, e, one_of-Counts wide s.data_type g)
