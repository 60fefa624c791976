-- ===== src/Tests/OcrTests.antt =====
-- Runs of the reading of OCR results.
use capturemate_ai.Prelude.{ℕ, ◌≡◌, refl, Option, some, none, map, List, [], ◌∷◌, Str}
use capturemate_ai.Text.{codes}
use capturemate_ai.Json.{list, of_list, int, ok}
use capturemate_ai.Prelude.Int.{pos}
use capturemate_ai.Ocr.{texts_from_result, extract_text}
use capturemate_ai.Ocr.Formats.{page₂, pages₃, Line, flattened, texts_of, texts_from_result-pages}
use capturemate_ai.Tests.Samples.{count_float}

abbrev sample_line : Str → Line
sample_line text = record {
  box = (count_float 0, count_float 1) ∷ (count_float 2, count_float 3) ∷ [];
  text = text;
  conf = count_float 1;
}

abbrev sample_pages : List (List Str)
sample_pages = (codes "a" ∷ codes "b" ∷ []) ∷ [] ∷ (codes "c" ∷ []) ∷ []

abbrev sample_lines : List (List Line)
sample_lines = (sample_line (codes "a") ∷ sample_line (codes "b") ∷ []) ∷ []

texts_from_result-pages_example :
    (texts_from_result (list (of_list (pages₃ sample_pages))) ≡ ok (flattened sample_pages))
    × (texts_from_result (list (of_list (map page₂ sample_lines))) ≡ ok (texts_of sample_lines))
texts_from_result-pages_example = texts_from_result-pages sample_pages sample_lines

-- An image that cannot be decoded, and a result that is no list, raise an exception.
abbrev no_image : List ℕ → Option ℕ
no_image bytes = none

broken_image : extract_text no_image (λ image. some (int (pos 0))) (1 ∷ []) ≡ none
unfolding extract_text
broken_image = refl

two_lines :
    extract_text {Image = ℕ}
      (λ bytes. some 0)
      (λ image. some (list (of_list (map page₂ sample_lines))))
      []
    ≡ some (codes "a\nb")
unfolding extract_text of_list
two_lines = refl
