-- ===== src/Identity/Stable.antt =====
-- A key that was normalised is a key, and normalises to itself.
use ailending_hub.Prelude.{ℕ, Bool, true, not, ◌&&◌, ◌==◌, String}
use Prim.Native.Char.{Char, code}
use Prim.Native.String.append

-- Every character satisfies the test.
abbrev pub all_chars : (ℕ → Bool) → String → Bool
all_chars p String.[] = true
all_chars p (String.◌∷◌ c s) = p (code c) && all_chars p s

abbrev pub not_feed : ℕ → Bool
not_feed n = not (n == 10)
