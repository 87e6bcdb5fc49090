-- ===== src/Identity/Keys.antt =====
-- identity/keys.py: the normalisation of a raw key.
use ailending_hub.Prelude.{
  ℕ, Bool, true, false, not, ◌&&◌, ◌||◌, ◌==◌, Option, none, some, List, [], ◌∷◌, String,
  if◌then◌else◌, leb, ltb, is_empty, member, Result, ok, err,
}
use ailending_hub.Identity.Case.{strip, collapse, upper}
use Prim.Native.Char.{Char, code}
use Prim.Native.String.{count}

pub data Entity : Type 0 where
  customer account loan application case_entity : Entity

pub data KeyProblem : Type 0 where
  null placeholder charset too_short : KeyProblem

pub record SpineKey : Type 0 where
  pub entity : Entity
  pub value : String

pub record RejectedKey : Type 0 where
  pub entity : Entity
  pub raw : Option String
  pub problem : KeyProblem

pub data Key : Type 0 where
  usable : SpineKey → Key
  rejected : RejectedKey → Key

-- `PLACEHOLDER_KEYS`
abbrev pub placeholder_keys : List String
placeholder_keys =
    "" ∷ "0" ∷ "-" ∷ "NA" ∷ "N/A" ∷ "NULL" ∷ "NONE" ∷ "UNKNOWN" ∷ "NOT AVAILABLE" ∷ "XXX" ∷ []

-- `MIN_KEY_LENGTH`
abbrev pub min_key_length : ℕ
min_key_length = 3

-- `[A-Z0-9]` and `[A-Z0-9_-]`
abbrev pub is_key_start : ℕ → Bool
is_key_start n = leb 65 n && leb n 90 || leb 48 n && leb n 57

abbrev pub is_key_char : ℕ → Bool
is_key_char n = is_key_start n || n == 95 || n == 45

-- `[A-Z0-9_-]*$`, where `$` also matches before a last line feed.
unfoldable pub rest_allowed : String → Bool
rest_allowed String.[] = true
rest_allowed (String.◌∷◌ c s) = is_key_char (code c) && rest_allowed s || code c == 10 && is_empty s

-- `_ALLOWED.match(text)`
unfoldable pub is_allowed : String → Bool
unfolding rest_allowed
is_allowed String.[] = false
is_allowed (String.◌∷◌ c s) = is_key_start (code c) && rest_allowed s

-- A text that is neither empty nor rejected is a key.
unfoldable pub key_of_text : Entity → String → String → Key
unfolding is_allowed
key_of_text entity raw text =
    if is_empty text
    then rejected (record { entity = entity; raw = some raw; problem = null })
    else if member text placeholder_keys
    then rejected (record { entity = entity; raw = some text; problem = placeholder })
    else if not (is_allowed text)
    then rejected (record { entity = entity; raw = some text; problem = charset })
    else if ltb (count text) min_key_length
    then rejected (record { entity = entity; raw = some text; problem = too_short })
    else usable (record { entity = entity; value = text })

module _ (beyond : Char → String) where
  -- `_WHITESPACE.sub(" ", raw.strip()).upper()`
  unfoldable pub key_text : String → String
  unfolding strip collapse upper
  key_text raw = upper beyond (collapse false (strip raw))

  -- `raw` is `None`, or the text that `str` gives.
  unfoldable pub normalise : Entity → Option String → Key
  unfolding key_text key_of_text
  normalise entity none = rejected (record { entity = entity; raw = none; problem = null })
  normalise entity (some raw) = key_of_text entity raw (key_text raw)

  -- A key that is rejected raises a `ValueError`.
  unfoldable pub normalise_strict : Entity → Option String → Result RejectedKey SpineKey
  unfolding normalise
  normalise_strict entity raw = elim (normalise entity raw) [ usable k ↦ ok k | rejected r ↦ err r ]
