-- ===== src/Base/Text.antt =====
-- `s.strip()` for a Python string, and `not s.strip()`: every character is white space.
use Prim.Native.Nat.{ℕ}
use Prim.Native.Char.{Char, code}
use Prim.Native.String.{String}
use mathlib.Core.Bool.{Bool, true, ◌&&◌, ◌||◌}
use elcorazon_backend.Base.Tests.{leb, nat_beq, if◌then◌else◌}

-- The code points of `str.isspace`.
is_space : ℕ → Bool
is_space c =
    leb 9 c && leb c 13
    || leb 28 c && leb c 32
    || nat_beq c 133
    || nat_beq c 160
    || nat_beq c 5760
    || leb 8192 c && leb c 8202
    || nat_beq c 8232
    || nat_beq c 8233
    || nat_beq c 8239
    || nat_beq c 8287
    || nat_beq c 12_288

unfoldable pub is_blank : String → Bool
unfolding is_space
is_blank String.[] = true
is_blank (String.◌∷◌ c s) = is_space (code c) && is_blank s

put_back : Bool → Char → String → String
put_back true c String.[] = String.[]
put_back _ c s = String.◌∷◌ c s

without_end : String → String
unfolding is_space put_back
without_end String.[] = String.[]
without_end (String.◌∷◌ c s) = put_back (is_space (code c)) c (without_end s)

-- `s.strip()`
unfoldable pub strip : String → String
unfolding is_space without_end
strip String.[] = String.[]
strip (String.◌∷◌ c s) =
    let rest = strip s in if is_space (code c) then rest else String.◌∷◌ c (without_end s)
