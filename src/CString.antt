-- ===== src/CString.antt =====
-- Strings of C and C++ as lists of bytes.
use Prim.Native.Char.{code}
use Prim.Native.String.{String}
use private_data_objects.Prelude.{[], ◌∷◌, ByteArray, ◌==◌, if◌then◌else◌}
use private_data_objects.Outcome.{Outcome, ok, err, undefined, ◌>>=◌}

abbrev pub Text : Type 0
Text = ByteArray

-- A literal, which is ASCII.
abbrev pub codes : String → Text
codes String.[] = []
codes (String.◌∷◌ c s) = code c ∷ codes s

-- What a C function reads of `s.c_str()`: it stops at the first zero.
unfoldable pub c_str : Text → Text
c_str [] = []
c_str (c ∷ s) = let rest = c ∷ c_str s in if c == 0 then [] else rest

-- A string that is made from a pointer to bytes: without a zero the bytes behind are read too.
unfoldable pub string_at : ByteArray → Outcome Text
string_at [] = err undefined
string_at (c ∷ s) = let rest = (do t ← string_at s; ok (c ∷ t)) in if c == 0 then ok [] else rest
