-- ===== src/Images/Collected.antt =====
-- Which images become items of the batch.
use capturemate_ai.Prelude.{
  ℕ, suc, ◌≡◌, refl, sym, ap, subst, ◌∙◌, ◌⊎◌, inl, inr, false, Option, none, some, some_inj,
  none-some, Bool-cases, List, [], ◌∷◌, Str, length, ltb,
}
use capturemate_ai.Text.{codes, strip}
use capturemate_ai.Json.{Value, null, int, str, get}
use capturemate_ai.Prelude.Int.{ℤ}
use capturemate_ai.Models.{AnalyzeBatchItem}
use capturemate_ai.Images.{
  Answer, answer, refused, uncaught, ◌>>=◌, Upload, max_image_bytes, min_useful_chars, entry_of,
  client_id_value, built, item_of, item_of_content, read_image,
}

pub answer_inj {ℓ} : {A : Type ℓ} {a b : A} → answer a ≡ answer b → a ≡ b
answer_inj {A = A} {a = a} h = ap value_or h
  where
    value_or : Answer A → A
    value_or (answer x) = x
    value_or _ = a

pub refused-answer {ℓ} : {A : Type ℓ} {n : ℕ} {d : Str} {a : A} → ¬ refused n d ≡ answer a
refused-answer h = cc

pub uncaught-answer {ℓ} : {A : Type ℓ} {a : A} {e : _} → ¬ uncaught e ≡ answer a
uncaught-answer h = cc

pub bind-answer {ℓ κ} :
    {A : Type ℓ} {B : Type κ} (r : Answer A) (f : A → Answer B) {b : B}
    → (r >>= f) ≡ answer b
    → (a : A) × (r ≡ answer a) × (f a ≡ answer b)
bind-answer (answer a) f h = (a, refl, h)
bind-answer (refused n d) f h = absurd (refused-answer h)
bind-answer (uncaught e) f h = absurd (uncaught-answer h)

pub answers-bind {ℓ κ} :
    {A : Type ℓ} {B : Type κ} (r : Answer A) (f : A → Answer B) {a : A} {b : B}
    → r ≡ answer a
    → f a ≡ answer b
    → (r >>= f) ≡ answer b
answers-bind (answer x) f h k = rw (answer_inj h) k
answers-bind (refused n d) f h k = absurd (refused-answer h)
answers-bind (uncaught e) f h k = absurd (uncaught-answer h)

-- What Pydantic documents of AnalyzeBatchItem: a text of at least one character with an id that
-- is a text, and a time that is None or an integer, makes an item; and an item has the id and the
-- text that it was made from.
pub record IsItemModel (validate : Value → Str → Value → Option AnalyzeBatchItem) : Type 0 where
  pub accepts :
      (id : Str) (c : ℕ) (text : Str) (time : Value)
      → (time ≡ null) ⊎ ((n : ℤ) × (time ≡ int n))
      → (item : AnalyzeBatchItem) × (validate (str id) (c ∷ text) time ≡ some item)
  pub fields :
      (id : Value) (text : Str) (time : Value) (item : AnalyzeBatchItem)
      → validate id text time ≡ some item
      → (id ≡ str item.client_id) × (item.masked_text ≡ text)

module _ (extract : ℕ → List ℕ → Option Str)
    (validate : Value → Str → Value → Option AnalyzeBatchItem) (meta : List Value) where
  -- The image can be read, and a text of ten characters or more can be extracted from it.
  pub record IsUseful (index : ℕ) (image : Upload) (text : Str) : Type 0 where
    pub bytes : List ℕ
    pub is_read : image.content ≡ some bytes
    pub extracted : extract index bytes ≡ some text
    pub long_enough : ltb (length (strip text)) min_useful_chars ≡ false

  -- No image that can be read has more than 12 MB.
  abbrev pub IsSmall : Upload → Type 0
  IsSmall image =
      (bytes : List ℕ) → image.content ≡ some bytes → ltb max_image_bytes (length bytes) ≡ false

  -- The items of the images from an index on: one for each useful image, in order, with its text
  -- and its client id.
  pub data Collected : ℕ → List Upload → List AnalyzeBatchItem → Type 0 where
    finished : {i : ℕ} → Collected i [] []
    left_out :
        {i : ℕ} {image : Upload} {images : List Upload} {items : List AnalyzeBatchItem}
        → IsSmall image
        → ((text : Str) → ¬ IsUseful i image text)
        → Collected (suc i) images items
        → Collected i (image ∷ images) items
    taken :
        {i : ℕ} {image : Upload} {images : List Upload} {item : AnalyzeBatchItem}
        {items : List AnalyzeBatchItem}
        → IsSmall image
        → IsUseful i image item.masked_text
        → client_id_value extract validate meta i image ≡ str item.client_id
        → Collected (suc i) images items
        → Collected i (image ∷ images) (item ∷ items)

  -- The outcome of one round.
  pub data Read (i : ℕ) (image : Upload) : Option AnalyzeBatchItem → Type 0 where
    skipped : IsSmall image → ((text : Str) → ¬ IsUseful i image text) → Read i image none
    kept :
        {item : AnalyzeBatchItem}
        → IsSmall image
        → IsUseful i image item.masked_text
        → client_id_value extract validate meta i image ≡ str item.client_id
        → Read i image (some item)

  pub IsSmall-content :
      (image : Upload) (bytes : List ℕ)
      → image.content ≡ some bytes
      → ltb max_image_bytes (length bytes) ≡ false
      → IsSmall image
  IsSmall-content image bytes e h other e' = rw (some_inj (sym e ∙ e')) at h

  module _ (model : IsItemModel validate) (i : ℕ) (image : Upload) where
    built-Read :
        (text : Str) (o : Option AnalyzeBatchItem) (r : Option AnalyzeBatchItem)
        → validate
            (client_id_value extract validate meta i image)
            text
            (get (codes "capturedAt") (entry_of meta i))
          ≡ o
        → built extract validate meta o ≡ answer r
        → IsSmall image
        → IsUseful i image text
        → Read i image r
    built-Read text none r e h s u = absurd (uncaught-answer h)
    built-Read text (some item) r e h s u =
        let (id, same) = model.fields _ text _ item e in
        subst (Read i image) (answer_inj h) (kept s (subst (IsUseful i image) (sym same) u) id)

    text-Read :
        (bytes : List ℕ) (o : Option Str) (r : Option AnalyzeBatchItem)
        → image.content ≡ some bytes
        → extract i bytes ≡ o
        → item_of extract validate meta i image o ≡ answer r
        → IsSmall image
        → Read i image r
    text-Read bytes none r c e h s = subst (Read i image) (answer_inj h) (
        skipped s
          (λ t u. none-some (sym e ∙ ap (extract i) (some_inj (sym c ∙ u.is_read)) ∙ u.extracted)))
    text-Read bytes (some text) r c e h s =
        elim (Bool-cases (ltb (length (strip text)) min_useful_chars)) [
          | inl short ↦ subst (Read i image) (answer_inj (rw short at h)) (
              skipped s (λ t u.
                let same : text ≡ t =
                  some_inj (sym e ∙ ap (extract i) (some_inj (sym c ∙ u.is_read)) ∙ u.extracted) in
                let long = rw (sym same) at u.long_enough in cc))
          | inr long ↦
              built-Read text _ r refl (rw long at h) s
                (record { bytes = bytes; is_read = c; extracted = e; long_enough = long })
        ]

    pub content-Read :
        (o : Option (List ℕ)) (r : Option AnalyzeBatchItem)
        → image.content ≡ o
        → item_of_content extract validate meta i image o ≡ answer r
        → Read i image r
    content-Read none r c h =
        subst (Read i image) (answer_inj h)
          (skipped (λ b e. absurd (none-some (sym c ∙ e))) (λ t u. none-some (sym c ∙ u.is_read)))
    content-Read (some bytes) r c h = elim (Bool-cases (ltb max_image_bytes (length bytes))) [
      | inl large ↦ absurd (refused-answer (rw large at h))
      | inr small ↦
          text-Read bytes (extract i bytes) r c refl (rw small at h)
            (IsSmall-content image bytes c small)
    ]

  pub read_image-Read :
      IsItemModel validate
      → (i : ℕ) (image : Upload) (r : Option AnalyzeBatchItem)
      → read_image extract validate meta i image ≡ answer r
      → Read i image r
  unfolding read_image
  read_image-Read model i image r h = content-Read model i image image.content r refl h
