-- ===== src/Images.antt =====
-- app/main.py: the loop of /v1/analyze that turns the images into the items of the batch.
pub mod Collected
pub mod Loop
pub mod Refused
use capturemate_ai.Prelude.{
  ℕ, suc, Bool, true, false, Option, none, some, List, [], ◌∷◌, ◌++◌, Str, length, get_elem?, ltb,
  if◌then◌else◌,
}
use capturemate_ai.Text.{codes, decimal, strip, nonempty}
use capturemate_ai.Json.{
  Value, Fields, list, dict, str, end, Error, validation_error, get, or_else, opt_str, to_list,
}
use capturemate_ai.Models.{AnalyzeBatchItem}

-- What a request comes to: an answer, an HTTPException, or an exception that nothing catches.
pub data Answer {ℓ} (A : Type ℓ) : Type ℓ where
  answer : A → Answer A
  refused : (status_code : ℕ) → (detail : Str) → Answer A
  uncaught : Error → Answer A

infixl 5 ◌>>=◌
abbrev pub ◌>>=◌ {ℓ κ} : {A : Type ℓ} {B : Type κ} → Answer A → (A → Answer B) → Answer B
answer a >>= f = f a
refused n d >>= f = refused n d
uncaught e >>= f = uncaught e

-- An uploaded file; `none` is an exception on reading it.
pub record Upload : Type 0 where
  pub filename : Option Str
  pub content : Option (List ℕ)

-- `MAX_IMAGE_BYTES`
unfoldable pub max_image_bytes : ℕ
max_image_bytes = 12582912

-- `MIN_USEFUL_CHARS`
unfoldable pub min_useful_chars : ℕ
min_useful_chars = 10

abbrev pub metadata_list : Option Value → Answer (List Value)
metadata_list none = refused 400 (codes "invalid metadata JSON")
metadata_list (some (list vs)) = answer (to_list vs)
metadata_list (some v) = answer []

-- `_parse_metadata`; the JSON parser is a parameter, `none` is JSONDecodeError.
unfoldable pub parse_metadata : (Str → Option Value) → Option Str → Answer (List Value)
unfolding to_list
parse_metadata json_loads none = answer []
parse_metadata json_loads (some []) = answer []
parse_metadata json_loads (some (c ∷ s)) = metadata_list (json_loads (c ∷ s))

abbrev dict_or_empty : Option Value → Fields
dict_or_empty (some (dict fs)) = fs
dict_or_empty _ = end

-- The entry of an image: that of its place, where it is an object.
unfoldable pub entry_of : List Value → ℕ → Fields
entry_of meta index = dict_or_empty (get_elem? meta index)

abbrev shown : Option Str → Str
shown none = codes "None"
shown (some s) = s

-- `extract` is engine.extract_text on the image of the index, `none` where it raises; `validate`
-- builds an AnalyzeBatchItem from its three fields, `none` where Pydantic refuses them.
module _ (extract : ℕ → List ℕ → Option Str)
    (validate : Value → Str → Value → Option AnalyzeBatchItem) (meta : List Value) where
  -- entry.get("clientId") or image.filename or f"image_{index}"
  unfoldable pub client_id_value : ℕ → Upload → Value
  unfolding entry_of get or_else opt_str decimal
  client_id_value index image =
      or_else (or_else (get (codes "clientId") (entry_of meta index)) (opt_str image.filename))
        (str (codes "image_" ++ decimal index))

  abbrev built : Option AnalyzeBatchItem → Answer (Option AnalyzeBatchItem)
  built none = uncaught validation_error
  built (some item) = answer (some item)

  -- The item of a text, unless the text is too short to be of use.
  abbrev item_of : ℕ → Upload → Option Str → Answer (Option AnalyzeBatchItem)
  item_of index image none = answer none
  item_of index image (some raw_text) =
      if ltb (length (strip raw_text)) min_useful_chars
      then answer none
      else built (
          validate (client_id_value index image) raw_text
            (get (codes "capturedAt") (entry_of meta index)))

  abbrev item_of_content : ℕ → Upload → Option (List ℕ) → Answer (Option AnalyzeBatchItem)
  item_of_content index image none = answer none
  item_of_content index image (some content) =
      if ltb max_image_bytes (length content)
      then refused 413 (codes "image too large: " ++ shown image.filename)
      else item_of index image (extract index content)

  -- One round of the loop; `answer none` is `continue`.
  unfoldable pub read_image : ℕ → Upload → Answer (Option AnalyzeBatchItem)
  unfolding client_id_value entry_of get strip
  read_image index image = item_of_content index image image.content

  abbrev prepend : Option AnalyzeBatchItem → List AnalyzeBatchItem → List AnalyzeBatchItem
  prepend none items = items
  prepend (some item) items = item ∷ items

  -- The loop, from an index on.
  unfoldable pub read_images : ℕ → List Upload → Answer (List AnalyzeBatchItem)
  unfolding read_image
  read_images index [] = answer []
  read_images index (image ∷ images) = do
    item ← read_image index image
    items ← read_images (suc index) images
    answer (prepend item items)
