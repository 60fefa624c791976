-- ===== src/Details/Texts.antt =====
-- The lists of texts in the details of a restaurant.
use capturemate_ai.Prelude.{
  ◌≡◌, refl, sym, ap, ◌∙◌, true, List, [], ◌∷◌, map, Str, In, here, there, if◌then◌else◌,
}
use capturemate_ai.Text.{strip, nonempty}
use capturemate_ai.Text.Strip.{strip-twice}
use capturemate_ai.Json.{Value, Values, str, list, to_list, of_list, to_str}
use capturemate_ai.Json.Keys.{to_list-of_list}
use capturemate_ai.Details.{Integers, stripped_texts, normalize_string_list}

abbrev pub list_value : List Str → Value
list_value ss = list (of_list (map str ss))

module _ (ints : Integers) (format : Value → Str) where
  abbrev kept_text : Str → List Str → List Str
  kept_text s rest = if nonempty s then s ∷ rest else rest

  texts-cons :
      (v : Value) (vs : List Value)
      → stripped_texts ints format (v ∷ vs)
        ≡ kept_text (strip (to_str format v)) (stripped_texts ints format vs)
  unfolding stripped_texts
  texts-cons v vs = refl

  str_text : (s : Str) → to_str format (str s) ≡ s
  unfolding to_str
  str_text s = refl

  kept-twice :
      (s : Str) (rest : List Str)
      → strip s ≡ s
      → stripped_texts ints format (map str rest) ≡ rest
      → stripped_texts ints format (map str (kept_text s rest)) ≡ kept_text s rest
  kept-twice [] rest h k = k
  kept-twice (c ∷ s) rest h k =
      texts-cons (str (c ∷ s)) (map str rest)
      ∙ (ap (λ x. kept_text (strip x) (stripped_texts ints format (map str rest)))
            (str_text (c ∷ s))
          ∙ (ap (λ x. kept_text x (stripped_texts ints format (map str rest))) h
              ∙ ap (◌∷◌ (c ∷ s)) k))

  texts-twice :
      (vs : List Value)
      → stripped_texts ints format (map str (stripped_texts ints format vs))
        ≡ stripped_texts ints format vs
  unfolding stripped_texts
  texts-twice [] = refl
  texts-twice (v ∷ vs) =
      kept-twice (strip (to_str format v)) (stripped_texts ints format vs)
        (strip-twice (to_str format v)) (texts-twice vs)

  -- A text of the list: it is not blank, has no blanks at its ends, and is that of an entry.
  pub record IsEntry (vs : List Value) (s : Str) : Type 0 where
    pub stripped : strip s ≡ s
    pub not_blank : nonempty s ≡ true
    pub entry : Value
    pub listed : In entry vs
    pub same : s ≡ strip (to_str format entry)

  IsEntry-there : (v : Value) (vs : List Value) (s : Str) → IsEntry vs s → IsEntry (v ∷ vs) s
  IsEntry-there v vs s e = record {
    stripped = e.stripped;
    not_blank = e.not_blank;
    entry = e.entry;
    listed = there e.listed;
    same = e.same;
  }

  kept-IsEntry :
      (v : Value) (vs : List Value) (t : Str) (rest : List Str)
      → t ≡ strip (to_str format v)
      → ((s : Str) → In s rest → IsEntry vs s)
      → (s : Str) → In s (kept_text t rest)
      → IsEntry (v ∷ vs) s
  kept-IsEntry v vs [] rest h f s m = IsEntry-there v vs s (f s m)
  kept-IsEntry v vs (c ∷ t) rest h f s (there m) = IsEntry-there v vs s (f s m)
  kept-IsEntry v vs (c ∷ t) rest h f s (here e) = record {
    stripped = ap strip (e ∙ h) ∙ (strip-twice (to_str format v) ∙ sym (e ∙ h));
    not_blank = ap nonempty e;
    entry = v;
    listed = here refl;
    same = e ∙ h;
  }

  texts-IsEntry : (vs : List Value) (s : Str) → In s (stripped_texts ints format vs) → IsEntry vs s
  unfolding stripped_texts
  texts-IsEntry [] s m = elim m [ ]
  texts-IsEntry (v ∷ vs) s m =
      kept-IsEntry v vs (strip (to_str format v)) (stripped_texts ints format vs) refl
        (texts-IsEntry vs) s m

  -- Of a list, the tags and features are texts of its entries, stripped and not blank; and
  -- validating them again changes nothing.
  pub normalize_string_list-IsEntry :
      (vs : Values)
      → ((s : Str) → In s (normalize_string_list ints format (list vs)) → IsEntry (to_list vs) s)
        × (normalize_string_list ints format
              (list_value (normalize_string_list ints format (list vs)))
            ≡ normalize_string_list ints format (list vs))
  unfolding normalize_string_list
  normalize_string_list-IsEntry vs = (
    texts-IsEntry (to_list vs),
    ap (stripped_texts ints format) (to_list-of_list _) ∙ texts-twice (to_list vs),
  )
