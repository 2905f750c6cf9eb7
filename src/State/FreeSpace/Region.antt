-- ===== src/State/FreeSpace/Region.antt =====
-- The set of addresses that a list of free items covers, and when a list is in order.
use private_data_objects.Prelude.{
  ℕ, suc, ◌+◌, ◌≤◌, ◌<◌, ◌≡◌, ◌⊎◌, refl, ◌∙◌, Bool, false, ◌&&◌, ◌||◌, arith, u32, List, [], ◌∷◌,
  leb, ltb, rev_append,
}
use private_data_objects.State.Offset.Address.{IsOffset, address}
use private_data_objects.State.FreeSpace.{Item}

abbrev pub start : Item → ℕ
start x = address x.bo

abbrev pub end : Item → ℕ
end x = address x.bo + x.length

-- Whether `a` is one of the `n` addresses from `lo` on.
abbrev pub within : ℕ → ℕ → ℕ → Bool
within lo n a = leb lo a && ltb a (lo + n)

abbrev pub covers : Item → ℕ → Bool
covers x a = within (start x) x.length a

unfoldable pub covered : List Item → ℕ → Bool
covered [] a = false
covered (x ∷ xs) a = covers x a || covered xs a

unfoldable pub total : List Item → ℕ
total [] = 0
total (x ∷ xs) = x.length + total xs

-- The item names bytes, and all blocks together stay below 4 GB, so that no length wraps.
pub record IsItem (x : Item) : Type 0 where
  pub offset : IsOffset x.bo
  pub some_bytes : 0 < x.length
  pub end_fits : end x < u32

-- In order from `lo` on, with a gap between neighbours.
abbrev pub IsOrdered : ℕ → List Item → Type 0
IsOrdered lo [] = Unit
IsOrdered lo (x ∷ xs) = (lo ≤ start x) × IsItem x × IsOrdered (suc (end x)) xs

-- The same backwards: each ends below `hi`, with a gap.
abbrev pub IsOrderedBack : ℕ → List Item → Type 0
IsOrderedBack hi [] = Unit
IsOrderedBack hi (x ∷ xs) = (end x < hi) × IsItem x × IsOrderedBack (start x) xs

-- The item shares no address with the list.
abbrev pub IsApart : Item → List Item → Type 0
IsApart y [] = Unit
IsApart y (x ∷ xs) = ((end y ≤ start x) ⊎ (end x ≤ start y)) × IsApart y xs

pub IsOrdered-le : (lo lo' : ℕ) (xs : List Item) → lo' ≤ lo → IsOrdered lo xs → IsOrdered lo' xs
IsOrdered-le lo lo' [] h o = tt
IsOrdered-le lo lo' (x ∷ xs) h o = (omega arith, o.1, o.2)

pub IsOrderedBack-le :
    (hi hi' : ℕ) (xs : List Item) → hi ≤ hi' → IsOrderedBack hi xs → IsOrderedBack hi' xs
IsOrderedBack-le hi hi' [] h o = tt
IsOrderedBack-le hi hi' (x ∷ xs) h o = (omega arith, o.1, o.2)

pub rev_append-IsOrdered :
    (front rest : List Item) (m : ℕ)
    → IsOrderedBack m front
    → IsOrdered m rest
    → IsOrdered 0 (rev_append front rest)
unfolding rev_append
rev_append-IsOrdered [] rest m b o = IsOrdered-le m 0 rest (omega arith) o
rev_append-IsOrdered (x ∷ front) rest m b o =
    rev_append-IsOrdered front (x ∷ rest) (start x) b.2
      (omega arith, b.1, IsOrdered-le m (suc (end x)) rest b.0 o)

pub covered-rev_append :
    (front rest : List Item) (a : ℕ)
    → covered (rev_append front rest) a ≡ (covered front a || covered rest a)
unfolding rev_append covered
covered-rev_append [] rest a = refl
covered-rev_append (x ∷ front) rest a = covered-rev_append front (x ∷ rest) a ∙ ground arith

pub total-rev_append :
    (front rest : List Item) → total (rev_append front rest) ≡ total front + total rest
unfolding rev_append total
total-rev_append [] rest = omega arith
total-rev_append (x ∷ front) rest = omega (arith, total-rev_append front (x ∷ rest))

-- Two neighbouring ranges are one.
pub within_join :
    (lo mid n m a : ℕ) → lo + n ≡ mid → within lo (m + n) a ≡ (within lo n a || within mid m a)
within_join lo mid n m a e = ground arith
