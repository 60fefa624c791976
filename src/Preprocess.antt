-- ===== src/Preprocess.antt =====
-- app/analysis/preprocess.py: the lines that count for the embedding.
pub mod Kept
use capturemate_ai.Prelude.{
  ℕ, Bool, true, false, ◌&&◌, ◌||◌, not, List, [], ◌∷◌, Str, eqb, if◌then◌else◌, str_eq,
}
use capturemate_ai.Text.{Unicode, codes, split, splitlines, join, contains, nonempty}

-- The characters that match a literal letter under IGNORECASE. `i` has the Turkish letters too.
abbrev any_case : ℕ → ℕ → ℕ → Bool
any_case lower upper c = eqb c lower || eqb c upper

abbrev letter_i : ℕ → Bool
letter_i c = eqb c b'i' || eqb c b'I' || eqb c 0x130 || eqb c 0x131

module _ (unicode : Unicode) where
  open unicode use {is_decimal, is_alnum}

  -- `_STATUS_BAR.fullmatch`: \d{1,2}:\d{2} | \d{1,3}%? | 5G | LTE | Wi-?Fi
  unfoldable pub is_clock : Str → Bool
  is_clock (a ∷ b ∷ c ∷ d ∷ []) = is_decimal a && eqb b b':' && is_decimal c && is_decimal d
  is_clock (a ∷ b ∷ c ∷ d ∷ e ∷ []) =
      is_decimal a && is_decimal b && eqb c b':' && is_decimal d && is_decimal e
  is_clock _ = false

  abbrev decimal_or_percent : ℕ → Bool
  decimal_or_percent c = is_decimal c || eqb c b'%'

  unfoldable pub is_battery : Str → Bool
  is_battery (a ∷ []) = is_decimal a
  is_battery (a ∷ b ∷ []) = is_decimal a && decimal_or_percent b
  is_battery (a ∷ b ∷ c ∷ []) = is_decimal a && is_decimal b && decimal_or_percent c
  is_battery (a ∷ b ∷ c ∷ d ∷ []) = is_decimal a && is_decimal b && is_decimal c && eqb d b'%'
  is_battery _ = false

  unfoldable pub is_network : Str → Bool
  is_network (a ∷ b ∷ []) = eqb a b'5' && any_case b'g' b'G' b
  is_network (a ∷ b ∷ c ∷ []) = any_case b'l' b'L' a && any_case b't' b'T' b && any_case b'e' b'E' c
  is_network (a ∷ b ∷ c ∷ d ∷ []) =
      any_case b'w' b'W' a && letter_i b && any_case b'f' b'F' c && letter_i d
  is_network (a ∷ b ∷ c ∷ d ∷ e ∷ []) =
      any_case b'w' b'W' a && letter_i b && eqb c b'-' && any_case b'f' b'F' d && letter_i e
  is_network _ = false

  all_symbols : Str → Bool
  all_symbols [] = true
  all_symbols (c ∷ s) = not (is_alnum c) && all_symbols s

  -- `_is_noise`; [\W_]+ is one character or more, none of them a letter or a digit.
  unfoldable pub is_noise : Str → Bool
  unfolding is_clock is_battery is_network all_symbols
  is_noise line =
      is_clock line || is_battery line || is_network line || (nonempty line && all_symbols line)

  -- The loop over the lines, with the set `seen`; the result is `lines`.
  unfoldable pub kept_lines : List Str → List Str → List Str
  unfolding is_noise split join contains
  kept_lines seen [] = []
  kept_lines seen (raw ∷ raws) =
      let line = join (codes " ") (split raw) in
      let skip = kept_lines seen raws in
      let keep = line ∷ kept_lines (line ∷ seen) raws in
      if not (nonempty line) || is_noise line || contains line seen then skip else keep

  unfoldable pub preprocess_for_embedding : Str → Str
  unfolding kept_lines splitlines join
  preprocess_for_embedding text = join (codes "\n") (kept_lines [] (splitlines text))
