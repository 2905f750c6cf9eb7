-- ===== src/State/Cache/Order.antt =====
-- The map of the cache: its order, and what is found in it.
use private_data_objects.Prelude.{
  ◌≡◌, refl, ◌⊎◌, inl, inr, ℕ, suc, ◌≤◌, ◌<◌, arith, false, [], ◌∷◌, Option, none, some, ◌==◌,
  length, if◌then◌else◌, Bool-cases,
}
use private_data_objects.State.Cache.{Entry, Entries, find, assign, erase, candidate, most_recent}

-- The keys ascend from `lo` on.
abbrev pub IsAscending : ℕ → Entries → Type 0
IsAscending lo [] = Unit
IsAscending lo ((k, e) ∷ m) = (lo ≤ k) × IsAscending (suc k) m

IsAscending-le : (lo hi : ℕ) (m : Entries) → lo ≤ hi → IsAscending hi m → IsAscending lo m
IsAscending-le lo hi [] h a = tt
IsAscending-le lo hi ((k, e) ∷ m) h a = (omega (arith, a.0), a.1)

IsAscending-find_below : (lo n : ℕ) (m : Entries) → IsAscending lo m → n < lo → find n m ≡ none
unfolding find
IsAscending-find_below lo n [] a h = refl
IsAscending-find_below lo n ((k, e) ∷ m) a h =
    ground (arith, IsAscending-find_below (suc k) n m a.1)

pub IsAscending-assign :
    (lo n : ℕ) (e : Entry) (m : Entries) → lo ≤ n → IsAscending lo m → IsAscending lo (assign n e m)
unfolding assign
IsAscending-assign lo n e [] h a = (h, tt)
IsAscending-assign lo n e ((k, old) ∷ m) h a = ground (arith, IsAscending-assign (suc k) n e m, a)

pub find-assign :
    (lo n j : ℕ) (e : Entry) (m : Entries)
    → IsAscending lo m
    → find j (assign n e m) ≡ (if n == j then some e else find j m)
unfolding find assign
find-assign lo n j e [] a = refl
find-assign lo n j e ((k, old) ∷ m) a = ground (arith, find-assign (suc k) n j e m a.1)

pub length-assign_new :
    (lo n : ℕ) (e : Entry) (m : Entries)
    → IsAscending lo m
    → find n m ≡ none
    → length (assign n e m) ≡ suc (length m)
unfolding find assign
length-assign_new lo n e [] a f = refl
length-assign_new lo n e ((k, old) ∷ m) a f = ground (arith, f, length-assign_new (suc k) n e m a.1)

pub length-assign_old :
    (lo n : ℕ) (e old : Entry) (m : Entries)
    → IsAscending lo m
    → find n m ≡ some old
    → length (assign n e m) ≡ length m
unfolding find assign
length-assign_old lo n e old [] a f = absurd (ground (arith, f))
length-assign_old lo n e old ((k, other) ∷ m) a f =
    ground
      (arith, f, length-assign_old (suc k) n e old m a.1, IsAscending-find_below (suc k) n m a.1)

pub IsAscending-erase : (lo n : ℕ) (m : Entries) → IsAscending lo m → IsAscending lo (erase n m)
unfolding erase
IsAscending-erase lo n [] a = tt
IsAscending-erase lo n ((k, e) ∷ m) a = elim (Bool-cases (k == n)) [
  | inl same ↦ rw same (IsAscending-le lo (suc k) m (omega (arith, a.0)) a.1)
  | inr other ↦ rw other (a.0, IsAscending-erase (suc k) n m a.1)
]

pub find-erase :
    (lo n j : ℕ) (m : Entries)
    → IsAscending lo m
    → find j (erase n m) ≡ (if n == j then none else find j m)
unfolding find erase
find-erase lo n j [] a = ground arith
find-erase lo n j ((k, e) ∷ m) a =
    ground (arith, find-erase (suc k) n j m a.1, IsAscending-find_below (suc k) n m a.1)

pub length-erase :
    (n : ℕ) (e : Entry) (m : Entries) → find n m ≡ some e → suc (length (erase n m)) ≡ length m
unfolding find erase
length-erase n e [] f = absurd (ground (arith, f))
length-erase n e ((k, old) ∷ m) f = ground (arith, f, length-erase n e m)

-- An entry that may be replaced.
abbrev pub IsIdle : Entry → Type 0
IsIdle e = (e.pinned ≡ false) × (e.references ≡ 0)

candidate-cases :
    (n : ℕ) (e : Entry) (best : Option (ℕ × ℕ)) (r : ℕ × ℕ)
    → candidate n e best ≡ some r
    → (best ≡ some r) ⊎ ((n ≡ r.0) × IsIdle e)
unfolding candidate
candidate-cases n e none r h = ground (arith, h)
candidate-cases n e (some (k, clock)) r h = ground (arith, h)

-- What `most_recent` chooses is the best so far or an entry of the map that is idle.
pub most_recent-IsIdle :
    (lo : ℕ) (m : Entries) (best : Option (ℕ × ℕ)) (r : ℕ × ℕ)
    → IsAscending lo m
    → most_recent m best ≡ some r
    → (best ≡ some r) ⊎ ((e : Entry) × (find r.0 m ≡ some e) × IsIdle e)
unfolding most_recent find
most_recent-IsIdle lo [] best r a h = inl h
most_recent-IsIdle lo ((n, e) ∷ m) best r a h =
    elim (most_recent-IsIdle (suc n) m (candidate n e best) r a.1 h) [
      | inr (e', f, idle) ↦
          inr (e', (ground (arith, f, IsAscending-find_below (suc n) r.0 m a.1)), idle)
      | inl c ↦ elim (candidate-cases n e best r c) [
        | inl b ↦ inl b
        | inr (k, idle) ↦ inr (e, (ground (arith, k)), idle)
      ]
    ]
