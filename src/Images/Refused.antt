-- ===== src/Images/Refused.antt =====
-- When the loop over the images, or the reading of the metadata, refuses a request.
use capturemate_ai.Prelude.{
  ℕ, suc, ◌≡◌, refl, sym, ap, ◌⊎◌, inl, inr, Bool-cases, true, Option, none, some, List, [], ◌∷◌,
  Str, In, here, there, length, ltb,
}
use capturemate_ai.Text.{codes, strip}
use capturemate_ai.Json.{Value, Error, null, bool, int, float, str, list, dict, get}
use capturemate_ai.Models.{AnalyzeBatchItem}
use capturemate_ai.Images.{
  Answer, answer, refused, uncaught, ◌>>=◌, Upload, max_image_bytes, min_useful_chars,
  metadata_list, parse_metadata, client_id_value, entry_of, built, item_of, item_of_content,
  read_image, read_images,
}

pub refused_inj {ℓ} :
    {A : Type ℓ} {n m : ℕ} {d d' : Str}
    → ◌≡◌ {A = Answer A} (refused n d) (refused m d')
    → (n ≡ m) × (d ≡ d')
refused_inj {A = A} {n = n} {d = d} h = (ap status_or h, ap detail_or h)
  where
    status_or : Answer A → ℕ
    status_or (refused k s) = k
    status_or _ = n

    detail_or : Answer A → Str
    detail_or (refused k s) = s
    detail_or _ = d

pub answer-refused {ℓ} : {A : Type ℓ} {n : ℕ} {d : Str} {a : A} → ¬ answer a ≡ refused n d
answer-refused h = cc

pub uncaught-refused {ℓ} :
    {A : Type ℓ} {n : ℕ} {d : Str} {e : Error} → ¬ ◌≡◌ {A = Answer A} (uncaught e) (refused n d)
uncaught-refused h = cc

pub bind-refused {ℓ κ} :
    {A : Type ℓ} {B : Type κ} (r : Answer A) (f : A → Answer B) {n : ℕ} {d : Str}
    → (r >>= f) ≡ refused n d
    → (r ≡ refused n d) ⊎ ((a : A) × (r ≡ answer a) × (f a ≡ refused n d))
bind-refused (answer a) f h = inr (a, refl, h)
bind-refused (refused m d') f h = let (same, told) = refused_inj h in inl (rw (same, told) refl)
bind-refused (uncaught e) f h = absurd (uncaught-refused h)

metadata_list-refused :
    (o : Option Value) (n : ℕ) (d : Str) → metadata_list o ≡ refused n d → (n ≡ 400) × (o ≡ none)
metadata_list-refused none n d h = (sym (refused_inj h).0, refl)
metadata_list-refused (some (list vs)) n d h = absurd (answer-refused h)
metadata_list-refused (some null) n d h = absurd (answer-refused h)
metadata_list-refused (some (bool b)) n d h = absurd (answer-refused h)
metadata_list-refused (some (int i)) n d h = absurd (answer-refused h)
metadata_list-refused (some (float x)) n d h = absurd (answer-refused h)
metadata_list-refused (some (str s)) n d h = absurd (answer-refused h)
metadata_list-refused (some (dict fs)) n d h = absurd (answer-refused h)

pub parse_metadata-refused :
    (json_loads : Str → Option Value) (metadata : Option Str) (n : ℕ) (d : Str)
    → parse_metadata json_loads metadata ≡ refused n d
    → (n ≡ 400) × ((text : Str) × (metadata ≡ some text) × (json_loads text ≡ none))
unfolding parse_metadata
parse_metadata-refused json_loads none n d h = absurd (answer-refused h)
parse_metadata-refused json_loads (some []) n d h = absurd (answer-refused h)
parse_metadata-refused json_loads (some (c ∷ s)) n d h =
    let (code, bad) = metadata_list-refused (json_loads (c ∷ s)) n d h in (code, (c ∷ s, refl, bad))

-- An image that can be read has more than 12 MB.
pub record IsLarge (image : Upload) : Type 0 where
  pub bytes : List ℕ
  pub is_read : image.content ≡ some bytes
  pub large : ltb max_image_bytes (length bytes) ≡ true

module _ (extract : ℕ → List ℕ → Option Str)
    (validate : Value → Str → Value → Option AnalyzeBatchItem) (meta : List Value) where
  built-refused :
      (o : Option AnalyzeBatchItem) {n : ℕ} {d : Str}
      → ¬ built extract validate meta o ≡ refused n d
  built-refused none h = uncaught-refused h
  built-refused (some item) h = answer-refused h

  item_of-refused :
      (i : ℕ) (image : Upload) (o : Option Str) {n : ℕ} {d : Str}
      → ¬ item_of extract validate meta i image o ≡ refused n d
  item_of-refused i image none h = answer-refused h
  item_of-refused i image (some text) h =
      elim (Bool-cases (ltb (length (strip text)) min_useful_chars)) [
        | inl short ↦ answer-refused (rw short at h)
        | inr long ↦
            built-refused
              (validate (client_id_value extract validate meta i image) text
                (get (codes "capturedAt") (entry_of meta i)))
              (rw long at h)
      ]

  content-refused :
      (i : ℕ) (image : Upload) (o : Option (List ℕ)) (n : ℕ) (d : Str)
      → image.content ≡ o
      → item_of_content extract validate meta i image o ≡ refused n d
      → (n ≡ 413) × IsLarge image
  content-refused i image none n d c h = absurd (answer-refused h)
  content-refused i image (some bytes) n d c h =
      elim (Bool-cases (ltb max_image_bytes (length bytes))) [
        | inl big ↦
            (sym (refused_inj (rw big at h)).0, record { bytes = bytes; is_read = c; large = big })
        | inr small ↦ absurd (item_of-refused i image (extract i bytes) (rw small at h))
      ]

  read_image-refused :
      (i : ℕ) (image : Upload) (n : ℕ) (d : Str)
      → read_image extract validate meta i image ≡ refused n d
      → (n ≡ 413) × IsLarge image
  unfolding read_image
  read_image-refused i image n d h = content-refused i image image.content n d refl h

  pub read_images-refused :
      (i : ℕ) (images : List Upload) (n : ℕ) (d : Str)
      → read_images extract validate meta i images ≡ refused n d
      → (n ≡ 413) × ((image : Upload) × In image images × IsLarge image)
  unfolding read_images
  read_images-refused i [] n d h = absurd (answer-refused h)
  read_images-refused i (image ∷ images) n d h =
      elim (bind-refused (read_image extract validate meta i image) _ h) [
        | inl this ↦
            let (code, big) = read_image-refused i image n d this in (code, (image, here refl, big))
        | inr (r, one, h₁) ↦
            elim (bind-refused (read_images extract validate meta (suc i) images) _ h₁) [
              | inl more ↦
                  let (code, (other, m, big)) = read_images-refused (suc i) images n d more in
                  (code, (other, there m, big))
              | inr (rest, e, h₂) ↦ absurd (answer-refused h₂)
            ]
      ]
