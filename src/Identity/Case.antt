-- ===== src/Identity/Case.antt =====
-- Python's `str.strip`, `str.upper` and `str.lower`, and the substitution of a space for each run of
-- white space. The case of a character beyond ASCII is a parameter, since Unicode's tables give it;
-- the lower case of a sigma, which depends on its place, is in no word that the code looks for.
use ailending_hub.Prelude.{
  ℕ, ◌+◌, ◌-◌, ◌%◌, ◌<◌, ◌≡◌, Bool, true, false, ◌&&◌, String, arith, if◌then◌else◌, leb, ltb,
  is_empty,
}
use ailending_hub.Prelude.Texts.{is_space}
use Prim.Native.Nat.{compare, Ordering}
use Prim.Native.Char.{Char, char, code, IsScalar}
use Prim.Native.String.{◌++◌}

unfoldable pub lstrip : String → String
lstrip String.[] = ""
lstrip (String.◌∷◌ c s) = let rest = lstrip s in if is_space (code c) then rest else String.◌∷◌ c s

unfoldable pub rstrip : String → String
rstrip String.[] = ""
rstrip (String.◌∷◌ c s) =
    let rest = rstrip s in if is_space (code c) && is_empty rest then "" else String.◌∷◌ c rest

unfoldable pub strip : String → String
unfolding lstrip rstrip
strip s = rstrip (lstrip s)

-- `re.sub(r"\s+", " ", s)`: the flag says that the run goes on.
unfoldable pub collapse : Bool → String → String
collapse inside String.[] = ""
collapse inside (String.◌∷◌ c s) =
    let within = collapse true s in
    let after = collapse false s in
    if is_space (code c)
    then if inside then within else String.◌∷◌ (char 32 tt) within
    else String.◌∷◌ c after

pub scalar : (n : ℕ) → n < 128 → IsScalar n
scalar n h = rw below tt
  where
    below : compare n 55296 ≡ Ordering.lt
    below = ground arith

-- The character of a number below 128.
unfoldable pub ascii : ℕ → Char
ascii n = char (n % 128) (scalar (n % 128) (omega arith))

module _ (beyond : Char → String) where
  unfoldable pub upper_char : Char → String
  unfolding ascii
  upper_char c =
      if leb 97 (code c) && leb (code c) 122
      then String.◌∷◌ (ascii (code c - 32)) ""
      else if ltb (code c) 128
      then String.◌∷◌ c ""
      else beyond c

  -- `str.upper`
  unfoldable pub upper : String → String
  unfolding upper_char
  upper String.[] = ""
  upper (String.◌∷◌ c s) = upper_char c ++ upper s

  unfoldable pub lower_char : Char → String
  unfolding ascii
  lower_char c =
      if leb 65 (code c) && leb (code c) 90
      then String.◌∷◌ (ascii (code c + 32)) ""
      else if ltb (code c) 128
      then String.◌∷◌ c ""
      else beyond c

  -- `str.lower`
  unfoldable pub lower : String → String
  unfolding lower_char
  lower String.[] = ""
  lower (String.◌∷◌ c s) = lower_char c ++ lower s
