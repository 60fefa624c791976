-- ===== src/Ocr/Formats.antt =====
-- The two formats of PaddleOCR's results, and that their texts are all read, in order.
use capturemate_ai.Prelude.{◌≡◌, refl, ap, ◌∙◌, none, List, [], ◌∷◌, ◌++◌, map, Str}
use capturemate_ai.Prelude.Float.{Float}
use capturemate_ai.Text.{codes}
use capturemate_ai.Json.{
  Value, Values, float, str, list, dict, nil, cons, ok, ◌>>=◌, field, end, or_else, truthy, iterate,
  of_list,
}
use capturemate_ai.Json.Keys.{to_list-of_list}
use capturemate_ai.Ocr.{
  only_texts, all_rec_texts, pair_text, or_walked, walk, walk_all, or_walk, texts_from_result,
}

-- A result of version 3: for each page its texts.
abbrev pub page₃ : List Str → Value
page₃ texts = dict (field (codes "rec_texts") (list (of_list (map str texts))) end)

abbrev pub pages₃ : List (List Str) → List Value
pages₃ pages = map page₃ pages

-- A line of version 2: a box of points, a text and how sure it is.
pub record Line : Type 0 where
  pub box : List (Float × Float)
  pub text : Str
  pub conf : Float

abbrev pub point : Float × Float → Value
point (x, y) = list (cons (float x) (cons (float y) nil))

abbrev pub line₂ : Line → Value
line₂ l = list (
    cons (list (of_list (map point l.box)))
      (cons (list (cons (str l.text) (cons (float l.conf) nil))) nil))

abbrev pub page₂ : List Line → Value
page₂ lines = list (of_list (map line₂ lines))

abbrev pub flattened {ℓ} : {A : Type ℓ} → List (List A) → List A
flattened [] = []
flattened (xs ∷ xss) = xs ++ flattened xss

abbrev text_of : Line → Str
text_of l = l.text

abbrev pub texts_of : List (List Line) → List Str
texts_of pages = flattened (map (map text_of) pages)

only_texts-str : (texts : List Str) → only_texts (of_list (map str texts)) ≡ texts
unfolding only_texts of_list
only_texts-str [] = refl
only_texts-str (s ∷ texts) = ap (◌∷◌ s) (only_texts-str texts)

all_rec_texts-pages : (pages : List (List Str)) → all_rec_texts (pages₃ pages) ≡ flattened pages
unfolding all_rec_texts
all_rec_texts-pages [] = refl
all_rec_texts-pages (page ∷ pages) =
    ap (λ x. x ++ all_rec_texts (pages₃ pages)) (only_texts-str page)
    ∙ ap (λ x. page ++ x) (all_rec_texts-pages pages)

-- A list of lists is no pair of a text and a number.
unpaired :
    {A : Type 0} (f : A → Values) (xs : List A)
    → pair_text (of_list (map (λ a. list (f a)) xs)) ≡ none
unfolding of_list
unpaired f [] = refl
unpaired f (x ∷ []) = refl
unpaired f (x ∷ y ∷ xs) = refl

pages_unpaired : (pages : List (List Str)) → pair_text (of_list (pages₃ pages)) ≡ none
unfolding of_list
pages_unpaired [] = refl
pages_unpaired (x ∷ []) = refl
pages_unpaired (x ∷ y ∷ pages) = refl

walk-list : (vs : Values) → pair_text vs ≡ none → walk (list vs) ≡ walk_all vs
unfolding walk
walk-list vs h = ap (λ o. or_walked o (walk_all vs)) h

walk-points : (box : List (Float × Float)) → walk_all (of_list (map point box)) ≡ []
unfolding walk of_list
walk-points [] = refl
walk-points (p ∷ box) = walk-points box

walk-box : (box : List (Float × Float)) → walk (list (of_list (map point box))) ≡ []
walk-box box =
    walk-list (of_list (map point box))
      (unpaired (λ (p : Float × Float). cons (float p.0) (cons (float p.1) nil)) box)
    ∙ walk-points box

walk-line : (l : Line) → walk (line₂ l) ≡ l.text ∷ []
unfolding walk
walk-line l = ap (λ x. x ++ (l.text ∷ [])) (walk-box l.box)

walk-lines : (lines : List Line) → walk_all (of_list (map line₂ lines)) ≡ map text_of lines
unfolding walk of_list
walk-lines [] = refl
walk-lines (l ∷ lines) =
    ap (λ x. x ++ walk_all (of_list (map line₂ lines))) (walk-line l)
    ∙ ap (◌∷◌ l.text) (walk-lines lines)

walk-page : (lines : List Line) → walk (page₂ lines) ≡ map text_of lines
walk-page lines =
    walk-list (of_list (map line₂ lines)) (
      unpaired
        (λ (l : Line).
          cons (list (of_list (map point l.box)))
            (cons (list (cons (str l.text) (cons (float l.conf) nil))) nil))
        lines)
    ∙ walk-lines lines

walk-pages : (pages : List (List Line)) → walk_all (of_list (map page₂ pages)) ≡ texts_of pages
unfolding walk of_list
walk-pages [] = refl
walk-pages (page ∷ pages) =
    ap (λ x. x ++ walk_all (of_list (map page₂ pages))) (walk-page page)
    ∙ ap (λ x. map text_of page ++ x) (walk-pages pages)

no_rec_texts : (pages : List (List Line)) → all_rec_texts (map page₂ pages) ≡ []
unfolding all_rec_texts
no_rec_texts [] = refl
no_rec_texts (page ∷ pages) = no_rec_texts pages

no_walk : (pages : List (List Str)) → walk_all (of_list (pages₃ pages)) ≡ []
unfolding walk of_list
no_walk [] = refl
no_walk (page ∷ pages) = no_walk pages

results : (vs : List Value) → iterate (or_else (list (of_list vs)) (list nil)) ≡ ok vs
unfolding iterate or_else truthy of_list
results [] = refl
results (v ∷ vs) = ap (λ x. ok (v ∷ x)) (to_list-of_list vs)

texts_of_list :
    (vs : List Value)
    → texts_from_result (list (of_list vs))
      ≡ ok (or_walk (all_rec_texts vs) (walk (list (of_list vs))))
unfolding texts_from_result
texts_of_list vs =
    ap (λ r. r >>= (λ rs. ok (or_walk (all_rec_texts rs) (walk (list (of_list vs)))))) (results vs)

or_walk-nothing : (texts : List Str) (other : List Str) → other ≡ [] → or_walk texts other ≡ texts
or_walk-nothing [] other h = h
or_walk-nothing (s ∷ ss) other h = refl

-- Every text of a result is read, in the order of the pages and lines, in both formats of
-- PaddleOCR: in version 3, where each page has its texts, and in version 2, where each page has
-- lines of a box, a text and how sure it is.
pub texts_from_result-pages :
    (pages : List (List Str)) (line_pages : List (List Line))
    → (texts_from_result (list (of_list (pages₃ pages))) ≡ ok (flattened pages))
      × (texts_from_result (list (of_list (map page₂ line_pages))) ≡ ok (texts_of line_pages))
texts_from_result-pages pages line_pages = (
  texts_of_list (pages₃ pages)
      ∙ ap ok (
          or_walk-nothing (all_rec_texts (pages₃ pages)) (walk (list (of_list (pages₃ pages))))
            (walk-list (of_list (pages₃ pages)) (pages_unpaired pages) ∙ no_walk pages)
          ∙ all_rec_texts-pages pages),
  texts_of_list (map page₂ line_pages)
      ∙ ap ok (
          ap (λ x. or_walk x (walk (list (of_list (map page₂ line_pages)))))
            (no_rec_texts line_pages)
          ∙ (walk-list (of_list (map page₂ line_pages))
                (unpaired (λ (lines : List Line). of_list (map line₂ lines)) line_pages)
              ∙ walk-pages line_pages)),
)
