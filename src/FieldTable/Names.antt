-- ===== src/FieldTable/Names.antt =====
-- What update_field_table does to the names and the values of a table.
use fat_btree.Prelude.{
  ◌≡◌, refl, sym, ap, ◌∙◌, true, Bool-cases, inl, inr, false, [], ◌∷◌, ◌++◌, All, append_assoc,
  append-nil, ◌||◌, arith, Str,
}
use fat_btree.FieldTable.{FieldTable, str_eq, kv_exist, update_field_table}

-- The fields that update_field_table appends.
pub record Appended (updates table : FieldTable) : Type 0 where
  pub fresh : FieldTable
  pub whole : update_field_table updates table ≡ table ++ fresh

-- Every field of the table stays where it is with its old value, whatever the updates say: new
-- fields go to the end and nothing else changes.
pub update_field_table-Appended : (updates table : FieldTable) → Appended updates table
unfolding update_field_table
update_field_table-Appended [] table = record { fresh = []; whole = sym (append-nil table) }
update_field_table-Appended ((k, v) ∷ updates) table = elim (Bool-cases (kv_exist k table)) [
  | inl e ↦
      let a = update_field_table-Appended updates table in
      record { fresh = a.fresh; whole = rw e a.whole }
  | inr e ↦
      let a = update_field_table-Appended updates (table ++ ((k, v) ∷ [])) in
      record {
        fresh = (k, v) ∷ a.fresh;
        whole = rw e (a.whole ∙ append_assoc table ((k, v) ∷ []) a.fresh);
      }
]

kv_exist-append :
    (name : Str) (xs ys : FieldTable)
    → kv_exist name (xs ++ ys) ≡ kv_exist name xs || kv_exist name ys
unfolding kv_exist
kv_exist-append name [] ys = refl
kv_exist-append name ((k, v) ∷ xs) ys = elim (Bool-cases (str_eq k name)) [
  | inl e ↦ rw e
  | inr e ↦ rw e (kv_exist-append name xs ys)
]

str_eq-eq : (xs ys : Str) → str_eq xs ys ≡ true → xs ≡ ys
unfolding str_eq
str_eq-eq [] [] e = refl
str_eq-eq [] (y ∷ ys) e = cc
str_eq-eq (x ∷ xs) [] e = cc
str_eq-eq (x ∷ xs) (y ∷ ys) e = ground (arith, str_eq-eq xs ys)

-- Afterwards a name is in the table exactly if it was there before or is one of the updates'.
pub kv_exist-update_field_table :
    (name : Str) (updates table : FieldTable)
    → kv_exist name (update_field_table updates table)
      ≡ kv_exist name table || kv_exist name updates
unfolding update_field_table kv_exist
kv_exist-update_field_table name [] table = ground arith
kv_exist-update_field_table name ((k, v) ∷ updates) table =
    let same = str_eq-eq k name in
    let before = kv_exist-update_field_table name updates table in
    let after = kv_exist-update_field_table name updates (table ++ ((k, v) ∷ [])) in
    let one = kv_exist-append name table ((k, v) ∷ []) in
    elim (Bool-cases (str_eq k name)) [
      | inl e ↦
          let there : kv_exist k table ≡ kv_exist name table =
            ap (λ (n : Str). kv_exist n table) (same e) in
          ground (arith, there, before, after, one)
      | inr e ↦ ground (arith, before, after, one)
    ]

-- No name comes twice.
abbrev pub Unique : FieldTable → Type 0
Unique [] = Unit
Unique ((k, v) ∷ fields) = (kv_exist k fields ≡ false) × Unique fields

abbrev pub New : FieldTable → FieldTable → Type 0
New table fields = All (λ (f : Str × Str). kv_exist f.0 table ≡ false) fields

str_eq_sym : (xs ys : Str) → str_eq xs ys ≡ str_eq ys xs
unfolding str_eq
str_eq_sym [] [] = refl
str_eq_sym [] (y ∷ ys) = refl
str_eq_sym (x ∷ xs) [] = refl
str_eq_sym (x ∷ xs) (y ∷ ys) = ground (arith, str_eq_sym xs ys)

New-append :
    (table : FieldTable) (k v : Str) (fields : FieldTable)
    → kv_exist k fields ≡ false
    → New table fields
    → New (table ++ ((k, v) ∷ [])) fields
unfolding kv_exist
New-append table k v [] fresh new = tt
New-append table k v ((j, w) ∷ fields) fresh (n, new) = (
  kv_exist-append j table ((k, v) ∷ []) ∙ ground (arith, str_eq_sym k j),
  New-append table k v fields (ground arith) new,
)

update_field_table-append :
    (fields table : FieldTable)
    → Unique fields
    → New table fields
    → update_field_table fields table ≡ table ++ fields
unfolding update_field_table
update_field_table-append [] table u n = sym (append-nil table)
update_field_table-append ((k, v) ∷ fields) table (fresh, u) (n, new) = rw n (
    update_field_table-append fields (table ++ ((k, v) ∷ [])) u
      (New-append table k v fields fresh new)
    ∙ append_assoc table ((k, v) ∷ []) fields)

none_there : (fields : FieldTable) → New [] fields
unfolding kv_exist
none_there [] = tt
none_there (f ∷ fields) = (refl, none_there fields)

-- A new record has the fields of the request, as they are, if no name comes twice.
pub update_field_table-Unique :
    (fields : FieldTable) → Unique fields → update_field_table fields [] ≡ fields
update_field_table-Unique fields u = update_field_table-append fields [] u (none_there fields)
