-- ===== src/Fallback/Keywords.antt =====
-- What the keyword classification of fallback.py returns.
use capturemate_ai.Prelude.{
  ◌≡◌, refl, inl, inr, true, List, [], ◌∷◌, Str, In, here, there, Bool-cases, arith, some, All,
  str_eq,
}
use capturemate_ai.Prelude.Dict.{Dict, lookup}
use capturemate_ai.Text.{Unicode, has_infix}
use capturemate_ai.Text.Search.{Occurs, has_infix_sound, has_infix_complete}
use capturemate_ai.Fallback.{
  any_keyword, classify_keywords, category_keywords, unknown_category, fallback_analysis, actions,
}

module _ (unicode : Unicode) where
  -- A keyword of the list, in lower case, stands in the text.
  abbrev pub Mentions : List Str → Str → Type 0
  Mentions keywords text = (k : Str) × In k keywords × Occurs (unicode.lower k) text

  -- The category is that of the first row with a keyword in the text, or unknown without one.
  pub data Classified (text : Str) : Dict Str (List Str) → Str → Type 0 where
    nowhere : Classified text [] unknown_category
    first :
        {c : Str} {ks : List Str} {rows : Dict Str (List Str)}
        → Mentions ks text
        → Classified text ((c, ks) ∷ rows) c
    later :
        {c d : Str} {ks : List Str} {rows : Dict Str (List Str)}
        → ¬ Mentions ks text
        → Classified text rows d
        → Classified text ((c, ks) ∷ rows) d

  any_keyword_sound :
      (ks : List Str) (text : Str) → any_keyword unicode ks text ≡ true → Mentions ks text
  unfolding any_keyword
  any_keyword_sound [] text h = cc
  any_keyword_sound (k ∷ ks) text h = elim (Bool-cases (has_infix (unicode.lower k) text)) [
    | inl hit ↦ (k, here refl, has_infix_sound (unicode.lower k) text hit)
    | inr miss ↦ let (j, i, o) = any_keyword_sound ks text (rw miss at h) in (j, there i, o)
  ]

  any_keyword_complete :
      (ks : List Str) (text : Str) → Mentions ks text → any_keyword unicode ks text ≡ true
  unfolding any_keyword
  any_keyword_complete [] text (k, i, o) = elim i [ ]
  any_keyword_complete (j ∷ ks) text (k, here e, o) =
      rw (has_infix_complete (unicode.lower j) text (rw e at o)) refl
  any_keyword_complete (j ∷ ks) text (k, there i, o) =
      ground (arith, any_keyword_complete ks text (k, i, o))

  classify_keywords_lem :
      (rows : Dict Str (List Str)) (text : Str)
      → Classified text rows (classify_keywords unicode rows text)
  unfolding classify_keywords
  classify_keywords_lem [] text = nowhere
  classify_keywords_lem ((c, ks) ∷ rows) text = elim (Bool-cases (any_keyword unicode ks text)) [
    | inl hit ↦ rw hit (first (any_keyword_sound ks text hit))
    | inr miss ↦ rw miss (
        later (λ m. let hit = any_keyword_complete ks text m in cc)
          (classify_keywords_lem rows text))
  ]

  Classified-all :
      {text : Str} (P : Str → Type 0) (rows : Dict Str (List Str)) {c : Str}
      → P unknown_category
      → All (λ (row : Str × List Str). P row.0) rows
      → Classified text rows c
      → P c
  Classified-all P [] unknown all nowhere = unknown
  Classified-all P (row ∷ rows) unknown all (first m) = all.0
  Classified-all P (row ∷ rows) unknown all (later n c) = Classified-all P rows unknown all.1 c

  abbrev HasAction : Str → Type 0
  HasAction category = (a : Str) × (lookup category actions ≡ some a)

  action_of_unknown : HasAction unknown_category
  unfolding actions lookup
  action_of_unknown = (_, refl)

  actions_of_rows : All (λ (row : Str × List Str). HasAction row.0) category_keywords
  unfolding actions category_keywords lookup
  actions_of_rows = ((_, refl), ((_, refl), ((_, refl), ((_, refl), ((_, refl), tt)))))

  -- The fallback's category is that of the first row of the table with a keyword, in lower case,
  -- in the lower-case text, and unknown where no row has one; its action is the one that the table
  -- of actions has for the category, which has one.
  pub fallback_analysis-Classified :
      (text : Str)
      → Classified (unicode.lower text) category_keywords (fallback_analysis unicode text).category
        × ((a : Str) × (lookup (fallback_analysis unicode text).category actions ≡ some a)
            × ((fallback_analysis unicode text).recommended_action ≡ some a))
  unfolding fallback_analysis
  fallback_analysis-Classified text =
      let c = classify_keywords_lem category_keywords (unicode.lower text) in
      let (a, e) = Classified-all HasAction category_keywords action_of_unknown actions_of_rows c in
      (c, (a, e, e))
