-- ===== src/Files/Listing/Order.antt =====
-- internal/files/manager.go: the order of a listing.
use hive_worker.Base.{
  ◌≡◌, refl, Text, Bool, true, false, ◌⊎◌, inl, inr, List, [], ◌∷◌, text_eq, arith,
}
use hive_worker.Go.Sort.{text_less, text_less_asym, text_less_same, IsOrdered}
use hive_worker.Files.Listing.{DirEntry, entry_less}

module _ (to_lower : Text → Text) where
  -- A directory comes before a file; of two directories or two files, the second name, in lower
  -- case, is not less than the first, and where these are equal, as it is written.
  abbrev pub Precedes : DirEntry → DirEntry → Type 0
  Precedes a b =
      ((a.is_dir ≡ true) × (b.is_dir ≡ false))
      ⊎ ((a.is_dir ≡ b.is_dir)
          × (text_less (to_lower b.name) (to_lower a.name) ≡ false)
          × (to_lower a.name ≡ to_lower b.name → text_less b.name a.name ≡ false))

  -- Each entry precedes the next one.
  abbrev pub IsListedInOrder : List DirEntry → Type 0
  IsListedInOrder [] = Unit
  IsListedInOrder (a ∷ []) = Unit
  IsListedInOrder (a ∷ b ∷ rest) = Precedes a b × IsListedInOrder (b ∷ rest)

  pub entry_less_asym :
      (a b : DirEntry) → entry_less to_lower a b ≡ true → entry_less to_lower b a ≡ false
  unfolding entry_less
  entry_less_asym a b h =
      ground
        (arith, text_less_asym a.name b.name, text_less_asym (to_lower a.name) (to_lower b.name))

  entry_less-Precedes : (a b : DirEntry) → entry_less to_lower b a ≡ false → Precedes a b
  unfolding entry_less
  entry_less-Precedes a b h = precedes a.is_dir b.is_dir refl refl
    where
      precedes : (p q : Bool) → a.is_dir ≡ p → b.is_dir ≡ q → Precedes a b
      precedes true false d e = inl (d, e)
      precedes true true d e = inr (
        ground arith,
        ground (arith, text_less_same (to_lower b.name) (to_lower a.name)),
        λ same. ground arith,
      )
      precedes false false d e = inr (
        ground arith,
        ground (arith, text_less_same (to_lower b.name) (to_lower a.name)),
        λ same. ground arith,
      )
      precedes false true d e = absurd (ground arith)

  pub entries-IsListedInOrder :
      (xs : List DirEntry) → IsOrdered (entry_less to_lower) xs → IsListedInOrder xs
  entries-IsListedInOrder [] h = tt
  entries-IsListedInOrder (a ∷ []) h = tt
  entries-IsListedInOrder (a ∷ b ∷ rest) h =
      (entry_less-Precedes a b h.0, entries-IsListedInOrder (b ∷ rest) h.1)
