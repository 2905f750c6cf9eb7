-- ===== src/Ledger/Updates/Keys.antt =====
-- The keys of the table `ccl`.
use private_data_objects.Prelude.{◌≡◌, refl, ap, arith, [], ◌∷◌, ◌++◌, ByteArray, append_assoc}
use private_data_objects.Ledger.Records.{Text}
use private_data_objects.Ledger.Host.{Host}
use private_data_objects.Ledger.Tables.{Ledger}
use private_data_objects.Ledger.Updates.{to_string, vector_to_string, ccl_key}
use private_data_objects.Ledger.Queries.{get_details_about_state}

vector_to_string-append :
    (v w : ByteArray) → vector_to_string (v ++ w) ≡ vector_to_string v ++ vector_to_string w
unfolding vector_to_string
vector_to_string-append [] w = refl
vector_to_string-append (x ∷ v) w = ground (
  arith,
  vector_to_string-append v w,
  append_assoc (to_string x) (vector_to_string v) (vector_to_string w),
)

swapped : (s : ByteArray) → vector_to_string (1 ∷ 11 ∷ s) ≡ vector_to_string (11 ∷ 1 ∷ s)
unfolding vector_to_string to_string
swapped s = refl

ccl_key-swapped :
    (id : Text) (p s : ByteArray) → ccl_key id (p ++ 1 ∷ 11 ∷ s) ≡ ccl_key id (p ++ 11 ∷ 1 ∷ s)
ccl_key-swapped id p s =
    ap (λ r. id ++ r)
      (ground (
        arith,
        vector_to_string-append p (1 ∷ 11 ∷ s),
        vector_to_string-append p (11 ∷ 1 ∷ s),
        swapped s,
      ))

module _ (h : Host) where
  -- Two state hashes that differ in the order of adjacent bytes 1 and 11 share the key of the table, and a
  -- query for the details of either gets the same answer, in every state of the ledger.
  pub get_details-swapped :
      (id : Text) (p s : ByteArray) (l : Ledger h)
      → get_details_about_state h id (p ++ 1 ∷ 11 ∷ s) l
        ≡ get_details_about_state h id (p ++ 11 ∷ 1 ∷ s) l
  unfolding get_details_about_state
  get_details-swapped id p s l = rw (ccl_key-swapped id p s) refl
