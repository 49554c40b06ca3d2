-- ===== src/Parser/Symbols.antt =====
-- AddSymbol and SymbolIx of src/parser.cpp: what the table of symbols gives for each name.
use core_vm.Base.{
  ℕ, ◌<◌, ◌≡◌, refl, subst, ◌⊎◌, sym, ap, ◌∙◌, Bool, true, false, ◌∷◌, Option, none, some, length,
  arith, Bool-cases, Option-cases, inl, inr, if◌then◌else◌,
}
use core_vm.Types.{Name, name_eq, name_eq→eq, CvmType}
use core_vm.Parser.{SymbolTable, find, add_symbol}
use core_vm.Parser.Typed.{FoundBelow, find-FoundBelow}
use core_vm.Parser.Statements.{TableValid, add_symbol-TableValid}

-- No two names have the same cell.
abbrev pub IsSeparate : SymbolTable → Type 0
IsSeparate table =
    (x y : Name) (ix : ℕ) (s t : CvmType)
    → find x table ≡ some (ix, s)
    → find y table ≡ some (ix, t)
    → x ≡ y

-- what is found, and else the new entry for its name
abbrev pub or_new : Option (ℕ × CvmType) → Bool → ℕ × CvmType → Option (ℕ × CvmType)
or_new (some e) same new = some e
or_new none same new = if same then some new else none

or_new_other : (o : Option (ℕ × CvmType)) (new : ℕ × CvmType) → or_new o false new ≡ o
or_new_other (some e) new = refl
or_new_other none new = refl

-- AddSymbol of a name that the table does not have, and of one that it has
added_new :
    (name : Name) (t : CvmType) (table : SymbolTable)
    → find name table ≡ none
    → (add_symbol name t table).1 ≡ (name, length table, t) ∷ table
unfolding add_symbol
added_new name t table h = rw (add_symbol, h)

added_known :
    (name : Name) (t : CvmType) (table : SymbolTable) {x : ℕ × CvmType}
    → find name table ≡ some x
    → (add_symbol name t table).1 ≡ table
unfolding add_symbol
added_known name t table h = rw (add_symbol, h)

added_index :
    (name : Name) (t : CvmType) (table : SymbolTable) → (add_symbol name t table).0 ≡ length table
unfolding add_symbol
added_index name t table = elim (Option-cases (find name table)) [
  | inl e ↦ rw (add_symbol, e)
  | inr (x, e) ↦ rw (add_symbol, e)
]

find-add_symbol :
    (name other : Name) (t : CvmType) (table : SymbolTable)
    → find other (add_symbol name t table).1
      ≡ or_new (find other table) (name_eq other name) (length table, t)
unfolding find
find-add_symbol name other t table =
    let same : name_eq other name ≡ true → find other table ≡ find name table =
      λ e. ap (λ n. find n table) (name_eq→eq other name e) in
    elim (Option-cases (find name table)) [
      | inl e ↦ rw (added_new name t table e) (elim (Bool-cases (name_eq other name)) [
        | inl here ↦ rw (here, same here, e)
        | inr apart ↦ rw (apart, or_new_other (find other table) (length table, t))
      ])
      | inr (x, e) ↦ rw (added_known name t table e) (elim (Bool-cases (name_eq other name)) [
        | inl here ↦ rw (same here, e)
        | inr apart ↦ rw (apart, or_new_other (find other table) (length table, t))
      ])
    ]

-- what is found in such a table is found before, or is the new entry
module _ (name : Name) (t : CvmType) (table : SymbolTable) (valid : TableValid table) where
  found_before :
      (x : Name) (e : ℕ × CvmType)
      → find x (add_symbol name t table).1 ≡ some e
      → (find x table ≡ some e) ⊎ ((x ≡ name) × (e.0 ≡ length table))
  found_before x e h =
      let law = sym (find-add_symbol name x t table) ∙ h in
      elim (Option-cases (find x table)) [
        | inr (e', old) ↦ inl (old ∙ (rw old at law))
        | inl new ↦ elim (Bool-cases (name_eq x name)) [
          | inl here ↦
              let entry : some (length table, t) ≡ some e = rw (new, here) at law in
              let pair : (length table, t) ≡ e = cc in
              inr (name_eq→eq x name here, ap (λ (p : ℕ × CvmType). p.0) (sym pair))
          | inr apart ↦ let wrong : none ≡ some e = rw (new, apart) at law in cc
        ]
      ]

  below : (x : Name) (e : ℕ × CvmType) → find x table ≡ some e → e.0 < length table
  below x e h = subst (FoundBelow (length table)) h (find-FoundBelow (length table) x table valid)

  separate :
      IsSeparate table
      → (x y : Name) (ix : ℕ) (s u : CvmType) → find x (add_symbol name t table).1 ≡ some (ix, s)
      → find y (add_symbol name t table).1 ≡ some (ix, u)
      → x ≡ y
  separate apart x y ix s u hx hy = elim (found_before x (ix, s) hx) [
    | inl old ↦ elim (found_before y (ix, u) hy) [
      | inl old' ↦ apart x y ix s u old old'
      | inr (_, new) ↦ absurd (omega (arith, below x (ix, s) old))
    ]
    | inr (here, new) ↦ elim (found_before y (ix, u) hy) [
      | inl old' ↦ absurd (omega (arith, below y (ix, u) old'))
      | inr (here', _) ↦ here ∙ sym here'
    ]
  ]

-- On a table that gives every name a cell below its size, and no two names the same, AddSymbol
-- returns the size. In the table behind it each name has the entry that it had; where it had none,
-- the name that was added has the cell returned and the type given, and every other name has none.
-- Again each cell is below the size, and no two names have the same.
pub add_symbol-IsSeparate :
    (name : Name) (t : CvmType) (table : SymbolTable)
    → TableValid table
    → IsSeparate table
    → ((add_symbol name t table).0 ≡ length table)
      × ((other : Name)
          → find other (add_symbol name t table).1
            ≡ or_new (find other table) (name_eq other name) ((add_symbol name t table).0, t))
      × TableValid (add_symbol name t table).1
      × IsSeparate (add_symbol name t table).1
add_symbol-IsSeparate name t table valid apart =
    let returned = added_index name t table in
    (
      returned,
      λ other. rw returned (find-add_symbol name other t table),
      (add_symbol-TableValid name t table valid).0,
      separate name t table valid apart,
    )
