-- ===== src/Preprocess/Kept.antt =====
-- Which lines preprocess.py keeps.
use capturemate_ai.Prelude.{
  ◌≡◌, refl, ap, ◌⊎◌, inl, inr, Bool, true, false, ◌||◌, not, List, [], ◌∷◌, Str, In, here, there,
  str_eq, map, if◌then◌else◌,
}
use capturemate_ai.Text.{Unicode, codes, join, split, contains, nonempty}
use capturemate_ai.Text.Search.{contains_sound, contains_complete}
use capturemate_ai.Preprocess.{is_noise, kept_lines}

module _ (unicode : Unicode) where
  -- " ".join(raw.split())
  abbrev pub spaced : Str → Str
  spaced raw = join (codes " ") (split raw)

  -- A line that is worth keeping.
  abbrev pub IsContent : Str → Type 0
  IsContent line = (nonempty line ≡ true) × (is_noise unicode line ≡ false)

  -- The first list, in its order, is part of the second.
  pub data Selected : List Str → List Str → Type 0 where
    done : Selected [] []
    keep : {l : Str} {ls ms : List Str} → Selected ls ms → Selected (l ∷ ls) (l ∷ ms)
    drop : {l : Str} {ls ms : List Str} → Selected ls ms → Selected ls (l ∷ ms)

  -- Each line differs from the later ones, and from those already seen.
  abbrev pub Distinct : List Str → List Str → Type 0
  Distinct seen [] = Unit
  Distinct seen (l ∷ ls) = (¬ In l seen) × Distinct (l ∷ seen) ls

  -- What the loop keeps of the raw lines, with the lines that it has seen.
  pub record IsKept (seen raws lines : List Str) : Type 0 where
    pub distinct : Distinct seen lines
    pub selected : Selected lines (map spaced raws)
    pub content : (l : Str) → In l lines → IsContent l
    pub complete :
        (raw : Str)
        → In raw raws
        → IsContent (spaced raw)
        → In (spaced raw) seen ⊎ In (spaced raw) lines

  skipped :
      (seen : List Str) (raw : Str) (raws lines : List Str)
      → (IsContent (spaced raw) → In (spaced raw) seen)
      → IsKept seen raws lines
      → IsKept seen (raw ∷ raws) lines
  skipped seen raw raws lines old k = record {
    distinct = k.distinct;
    selected = drop k.selected;
    content = k.content;
    complete =
        λ r m c. elim m [ here e ↦ inl (rw e (old (rw e at c))) | there m' ↦ k.complete r m' c ];
  }

  kept :
      (seen : List Str) (raw : Str) (raws lines : List Str)
      → IsContent (spaced raw)
      → ¬ In (spaced raw) seen
      → IsKept (spaced raw ∷ seen) raws lines
      → IsKept seen (raw ∷ raws) (spaced raw ∷ lines)
  kept seen raw raws lines c new k = record {
    distinct = (new, k.distinct);
    selected = keep k.selected;
    content = λ l m. elim m [ here e ↦ rw e c | there m' ↦ k.content l m' ];
    complete = λ r m d. elim m [
      | here e ↦ inr (here (ap spaced e))
      | there m' ↦ elim (k.complete r m' d) [
        | inl (here e) ↦ inr (here e)
        | inl (there i) ↦ inl i
        | inr i ↦ inr (there i)
      ]
    ];
  }

  -- The test of the loop body, on the values of its three parts.
  branches :
      (seen : List Str) (raw : Str) (raws less more : List Str) (text noise old : Bool)
      → nonempty (spaced raw) ≡ text
      → is_noise unicode (spaced raw) ≡ noise
      → contains (spaced raw) seen ≡ old
      → IsKept seen raws less
      → IsKept (spaced raw ∷ seen) raws more
      → IsKept seen (raw ∷ raws) (if not text || noise || old then less else spaced raw ∷ more)
  branches seen raw raws less more false noise old t n o k k' =
      skipped seen raw raws less (λ c. let h = c.0 in cc) k
  branches seen raw raws less more true true old t n o k k' =
      skipped seen raw raws less (λ c. let h = c.1 in cc) k
  branches seen raw raws less more true false true t n o k k' =
      skipped seen raw raws less (λ c. contains_sound (spaced raw) seen o) k
  branches seen raw raws less more true false false t n o k k' =
      kept seen raw raws more (t, n) (λ i. let h = contains_complete (spaced raw) seen i in cc) k'

  kept_lines_lem : (seen raws : List Str) → IsKept seen raws (kept_lines unicode seen raws)
  unfolding kept_lines
  kept_lines_lem seen [] = record {
    distinct = tt;
    selected = done;
    content = λ l m. elim m [ ];
    complete = λ r m. elim m [ ];
  }
  kept_lines_lem seen (raw ∷ raws) =
      branches seen raw raws _ _ _ _ _ refl refl refl (kept_lines_lem seen raws)
        (kept_lines_lem (spaced raw ∷ seen) raws)

  -- The lines that are kept are pairwise different, in the order of the raw lines, each with text
  -- and no noise, and every raw line whose words make a line with text and no noise is among them.
  pub kept_lines-IsKept : (raws : List Str) → IsKept [] raws (kept_lines unicode [] raws)
  kept_lines-IsKept = kept_lines_lem []
