-- ===== src/Images/Loop.antt =====
-- The loop over the images of a request, and when it returns.
use capturemate_ai.Prelude.{
  ℕ, suc, ◌≡◌, refl, subst, ◌⊎◌, inl, inr, false, Option, none, some, Bool-cases, List, [], ◌∷◌,
  Str, length, ltb,
}
use capturemate_ai.Text.{codes, strip, strip_by}
use capturemate_ai.Json.{Value, null, int, str, get}
use capturemate_ai.Prelude.Int.{ℤ}
use capturemate_ai.Models.{AnalyzeBatchItem}
use capturemate_ai.Images.{
  Answer, answer, Upload, min_useful_chars, entry_of, client_id_value, item_of, item_of_content,
  built, read_image, prepend, read_images,
}
use capturemate_ai.Images.Collected.{
  IsItemModel, IsSmall, Collected, finished, left_out, taken, Read, skipped, kept, read_image-Read,
  bind-answer, answers-bind, answer_inj,
}

empty_text : ¬ ltb (length (strip [])) min_useful_chars ≡ false
unfolding strip strip_by min_useful_chars
empty_text h = cc

module _ (extract : ℕ → List ℕ → Option Str)
    (validate : Value → Str → Value → Option AnalyzeBatchItem) (meta : List Value)
    (model : IsItemModel validate) where
  Read-Collected :
      (i : ℕ) (image : Upload) (images : List Upload) (r : Option AnalyzeBatchItem)
      (items : List AnalyzeBatchItem)
      → Read extract validate meta i image r
      → Collected extract validate meta (suc i) images items
      → Collected extract validate meta i (image ∷ images) (prepend extract validate meta r items)
  Read-Collected i image images none items (skipped s n) c = left_out s n c
  Read-Collected i image images (some item) items (kept s u id) c = taken s u id c

  -- Where the loop over the images returns items, no image that could be read is larger than 12
  -- MB, and the items are those of the useful images, in order: one for each image from which ten
  -- characters or more could be extracted, with that text and the client id of its metadata, its
  -- file name or its place. This supposes the documented behaviour of the item's model.
  pub read_images-Collected :
      (i : ℕ) (images : List Upload) (items : List AnalyzeBatchItem)
      → read_images extract validate meta i images ≡ answer items
      → Collected extract validate meta i images items
  unfolding read_images
  read_images-Collected i [] items h =
      subst (Collected extract validate meta i []) (answer_inj h) finished
  read_images-Collected i (image ∷ images) items h =
      let (r, one, h₁) = bind-answer (read_image extract validate meta i image) _ h in
      let (rest, more, h₂) = bind-answer (read_images extract validate meta (suc i) images) _ h₁ in
      subst (Collected extract validate meta i (image ∷ images)) (answer_inj h₂) (
        Read-Collected i image images r rest
          (read_image-Read extract validate meta model i image r one)
          (read_images-Collected (suc i) images rest more))

  -- The image is not too large, and its metadata make an item.
  pub record IsFine (i : ℕ) (image : Upload) : Type 0 where
    pub small : IsSmall extract validate meta image
    pub id : Str
    pub named : client_id_value extract validate meta i image ≡ str id
    pub timed :
        (get (codes "capturedAt") (entry_of meta i) ≡ null)
        ⊎ ((n : ℤ) × (get (codes "capturedAt") (entry_of meta i) ≡ int n))

  abbrev pub AllFine : ℕ → List Upload → Type 0
  AllFine i [] = Unit
  AllFine i (image ∷ images) = IsFine i image × AllFine (suc i) images

  abbrev HasAnswer : {A : Type 0} → Answer A → Type 0
  HasAnswer {A} r = (a : A) × (r ≡ answer a)

  long_answers :
      (i : ℕ) (image : Upload) (text : Str)
      → IsFine i image
      → ltb (length (strip text)) min_useful_chars ≡ false
      → HasAnswer (
          built extract validate meta (
            validate
              (client_id_value extract validate meta i image)
              text
              (get (codes "capturedAt") (entry_of meta i))))
  long_answers i image [] f long = absurd (empty_text long)
  long_answers i image (c ∷ text) f long =
      let (item, e) = model.accepts f.id c text _ f.timed in (some item, rw (f.named, e) refl)

  text_answers :
      (i : ℕ) (image : Upload) (o : Option Str)
      → IsFine i image
      → HasAnswer (item_of extract validate meta i image o)
  text_answers i image none f = (none, refl)
  text_answers i image (some text) f =
      elim (Bool-cases (ltb (length (strip text)) min_useful_chars)) [
        | inl short ↦ (none, rw short refl)
        | inr long ↦ rw long (long_answers i image text f long)
      ]

  content_answers :
      (i : ℕ) (image : Upload) (o : Option (List ℕ))
      → image.content ≡ o
      → IsFine i image
      → HasAnswer (item_of_content extract validate meta i image o)
  content_answers i image none c f = (none, refl)
  content_answers i image (some bytes) c f =
      rw (f.small bytes c) (text_answers i image (extract i bytes) f)

  image_answers :
      (i : ℕ) (image : Upload)
      → IsFine i image
      → HasAnswer (read_image extract validate meta i image)
  unfolding read_image
  image_answers i image f = content_answers i image image.content refl f

  -- If no image is too large and the metadata of each make an item, then the loop returns items,
  -- whatever images cannot be read and whatever texts cannot be extracted. This supposes the
  -- documented behaviour of the item's model.
  pub read_images-answers :
      (i : ℕ) (images : List Upload)
      → AllFine i images
      → (items : List AnalyzeBatchItem) × (read_images extract validate meta i images
          ≡ answer items)
  unfolding read_images
  read_images-answers i [] f = ([], refl)
  read_images-answers i (image ∷ images) (f, fs) =
      let (r, e) = image_answers i image f in
      let (items, e') = read_images-answers (suc i) images fs in
      (
        prepend extract validate meta r items,
        answers-bind (read_image extract validate meta i image) _ e
            (answers-bind (read_images extract validate meta (suc i) images) _ e' refl),
      )
