-- ===== src/Ocr.antt =====
-- app/ocr/paddle_engine.py: the texts in a result of PaddleOCR. A result is a value of lists (tuples
-- are lists here), texts, numbers and dicts; any other object in it is null.
pub mod Formats
use capturemate_ai.Prelude.{ℕ, Option, none, some, List, [], ◌∷◌, ◌++◌, Str, true, false, Bool}
use capturemate_ai.Text.{codes, join}
use capturemate_ai.Json.{
  Value, Values, null, bool, int, float, str, list, dict, nil, cons, Result, ok, raise, ◌>>=◌, get,
  or_else, iterate, to_list,
}

-- [t for t in rec if isinstance(t, str)]
unfoldable pub only_texts : Values → List Str
only_texts nil = []
only_texts (cons (str s) vs) = s ∷ only_texts vs
only_texts (cons v vs) = only_texts vs

abbrev texts_of_rec : Value → List Str
texts_of_rec (list vs) = only_texts vs
texts_of_rec _ = []

-- The texts of one result of PaddleOCR 3.x.
unfoldable pub rec_texts : Value → List Str
unfolding only_texts get
rec_texts (dict fs) = texts_of_rec (get (codes "rec_texts") fs)
rec_texts _ = []

unfoldable pub all_rec_texts : List Value → List Str
unfolding rec_texts
all_rec_texts [] = []
all_rec_texts (res ∷ results) = rec_texts res ++ all_rec_texts results

-- isinstance(v, (int, float))
abbrev pub is_number : Value → Bool
is_number (bool b) = true
is_number (int n) = true
is_number (float x) = true
is_number _ = false

-- The text of a pair of a text and a number.
abbrev pub pair_text : Values → Option Str
pair_text (cons (str s) (cons v nil)) = elim (is_number v) [ true ↦ some s | false ↦ none ]
pair_text _ = none

abbrev pub or_walked : Option Str → List Str → List Str
or_walked none texts = texts
or_walked (some s) texts = s ∷ []

unfoldable mutual
  -- `walk`, and its loop.
  pub walk : Value → List Str
  walk (list vs) = or_walked (pair_text vs) (walk_all vs)
  walk _ = []

  pub walk_all : Values → List Str
  walk_all nil = []
  walk_all (cons v vs) = walk v ++ walk_all vs

abbrev pub or_walk : List Str → List Str → List Str
or_walk [] texts = texts
or_walk (s ∷ ss) texts = s ∷ ss

-- `_texts_from_result`
unfoldable pub texts_from_result : Value → Result (List Str)
unfolding iterate or_else all_rec_texts walk
texts_from_result result = do
  results ← iterate (or_else result (list nil))
  ok (or_walk (all_rec_texts results) (walk result))

abbrev joined : Result (List Str) → Option Str
joined (ok texts) = some (join (codes "\n") texts)
joined (raise e) = none

abbrev read_result : Option Value → Option Str
read_result none = none
read_result (some result) = joined (texts_from_result result)

-- PaddleOcrEngine.extract_text; `decode` is cv2.imdecode and `ocr` the call of PaddleOCR, each
-- `none` where it fails. `none` is an exception.
unfoldable pub extract_text :
    {Image : Type 0} → (List ℕ → Option Image) → (Image → Option Value) → List ℕ → Option Str
unfolding texts_from_result join
extract_text decode ocr image_bytes = elim (decode image_bytes) [
  | none ↦ none
  | some image ↦ read_result (ocr image)
]
