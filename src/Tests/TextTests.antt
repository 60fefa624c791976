-- ===== src/Tests/TextTests.antt =====
-- Runs of the keyword classification and of the line filter.
use capturemate_ai.Prelude.{◌≡◌, refl, some, List, [], ◌∷◌, Str, str_eq}
use capturemate_ai.Prelude.Dict.{lookup}
use capturemate_ai.Text.{codes}
use capturemate_ai.Fallback.{actions, category_keywords, fallback_analysis}
use capturemate_ai.Fallback.Keywords.{Classified, fallback_analysis-Classified}
use capturemate_ai.Preprocess.{kept_lines}
use capturemate_ai.Preprocess.Kept.{IsKept, kept_lines-IsKept}
use capturemate_ai.Tests.Samples.{ascii}

abbrev exam : Str
exam = codes "Monday 시험"

study_of_exam : (fallback_analysis ascii exam).category ≡ codes "study"
unfolding fallback_analysis
study_of_exam = refl

fallback_analysis-Classified_example :
    Classified ascii exam category_keywords (fallback_analysis ascii exam).category
    × ((a : Str) × (lookup (fallback_analysis ascii exam).category actions ≡ some a)
        × ((fallback_analysis ascii exam).recommended_action ≡ some a))
fallback_analysis-Classified_example = fallback_analysis-Classified ascii exam

abbrev screen : List Str
screen =
    codes "12:30" ∷ codes "hello  there" ∷ codes "LTE" ∷ codes " hello there" ∷ codes "---" ∷ []

kept_of_screen : kept_lines ascii [] screen ≡ codes "hello there" ∷ []
unfolding kept_lines
kept_of_screen = refl

kept_lines-IsKept_example : IsKept ascii [] screen (kept_lines ascii [] screen)
kept_lines-IsKept_example = kept_lines-IsKept ascii screen
