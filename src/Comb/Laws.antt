-- ===== src/Comb/Laws.antt =====
-- internal/comb/manager.go: which comb an id names after the directory was loaded.
use hive_worker.Base.{
  Text, ◌≡◌, refl, sym, subst, ap, ◌∙◌, ◌⊎◌, inl, inr, false, Option, none, some, List, [], ◌∷◌,
  ◌++◌, All, Dict, lookup, text_eq, arith, lookup-insert, ok, Option-cases,
}
use hive_worker.Go.Text.{codes, is_empty}
use hive_worker.Go.Text.Affix.{stem_of, has_suffix-append}
use hive_worker.Comb.{Comb, Manager, Entry, found, put, load_files, load, get}

module _ (unmarshal : Text → Option Comb) where
  -- A file, not a directory, whose name ends in .json, that can be read and decoded, and holds a
  -- comb that has an id.
  abbrev pub Gives : Entry → Comb → Type 0
  Gives file comb =
      (stem : Text) × (text : Text) × (file.is_dir ≡ false)
      × (file.name ≡ stem ++ codes ".json")
      × (file.content ≡ some text)
      × (unmarshal text ≡ some comb)
      × (is_empty comb.id ≡ false)

  found-Gives : (file : Entry) (comb : Comb) → found unmarshal file ≡ some comb → Gives file comb
  found-Gives file comb h =
      let (stem, named) = stem_of file.name (codes ".json") (ground arith) in
      elim (Option-cases file.content) [
        | inl unread ↦ absurd (ground arith)
        | inr (text, content) ↦ elim (Option-cases (unmarshal text)) [
          | inl broken ↦ absurd (ground arith)
          | inr (c, decoded) ↦
              (stem, text, ground arith, named, content, ground arith, ground arith)
        ]
      ]

  Gives-found : (file : Entry) (comb : Comb) → Gives file comb → found unmarshal file ≡ some comb
  Gives-found file comb (stem, text, plain, named, content, decoded, named_id) =
      rw (plain, named, has_suffix-append stem (codes ".json"), content, decoded, named_id) refl

  same_comb : {c d : Comb} → ◌≡◌ {A = Option Comb} (some c) (some d) → c ≡ d
  same_comb e = ground arith

  module _ (id : Text) where
    abbrev pub GivesNone : Entry → Type 0
    GivesNone file = (comb : Comb) → Gives file comb → comb.id ≡ id → ⊥

    -- The comb of this id of the last file that gives one, or what there was before.
    abbrev pub IsNamed : List Entry → Option Comb → Option Comb → Type 0
    IsNamed files before named =
        ((earlier : List Entry) × (file : Entry) × (later : List Entry) × (comb : Comb) × (files
            ≡ earlier ++ (file ∷ later))
          × Gives file comb
          × (comb.id ≡ id)
          × All GivesNone later
          × (named ≡ some comb))
        ⊎ (All GivesNone files × (named ≡ before))

    lookup-put :
        (comb : Option Comb) (combs : Dict Text Comb)
        → (lookup id (put unmarshal comb combs) ≡ lookup id combs
            × ((c : Comb) → comb ≡ some c → c.id ≡ id → ⊥))
          ⊎ ((c : Comb) × (comb ≡ some c)
              × (c.id ≡ id)
              × (lookup id (put unmarshal comb combs) ≡ some c))
    lookup-put none combs = inl (refl, λ c e. cc)
    lookup-put (some c) combs = elim (text_eq.dec id c.id) [
      | yes same ↦ inr (c, refl, sym same, ground (arith, lookup-insert id c.id c combs))
      | no other ↦ inl (
        ground (arith, lookup-insert id c.id c combs),
        λ d e p. other (sym (ap (λ (x : Comb). x.id) (same_comb e) ∙ p)),
      )
    ]

    lookup-load_files :
        (files : List Entry) (combs : Dict Text Comb)
        → IsNamed files (lookup id combs) (lookup id (load_files unmarshal files combs))
    unfolding load_files
    lookup-load_files [] combs = inr (tt, refl)
    lookup-load_files (file ∷ rest) combs =
        elim (lookup-load_files rest (put unmarshal (found unmarshal file) combs)) [
          | inl (earlier, last, later, comb, split, gives, same, none_later, named) ↦ inl (
            file ∷ earlier,
            last,
            later,
            comb,
            ap (λ l. file ∷ l) split,
            gives,
            same,
            none_later,
            named,
          )
          | inr (none_rest, named) ↦ elim (lookup-put (found unmarshal file) combs) [
            | inl (kept, nothing) ↦ inr (
              ((λ comb gives same. nothing comb (Gives-found file comb gives) same), none_rest),
              named ∙ kept,
            )
            | inr (comb, there, same, put_in) ↦ inl (
              [],
              file,
              rest,
              comb,
              refl,
              found-Gives file comb there,
              same,
              none_rest,
              named ∙ put_in,
            )
          ]
        ]

    -- After a load that reads the directory, an id names the comb of the last file, in the order of
    -- the directory, that is no directory, ends in .json, can be read and decoded and holds a comb
    -- of this id, which is not empty; where there is none, what it named before.
    pub get-load :
        (files : List Entry) (m : Manager) (after : Manager)
        → load unmarshal (some files) m ≡ ok after
        → IsNamed files (get id m) (get id after)
    unfolding load get
    get-load files m after e =
        let read : load_files unmarshal files m.combs ≡ after.combs = ground arith in
        subst (λ combs. IsNamed files (lookup id m.combs) (lookup id combs)) read
          (lookup-load_files files m.combs)
