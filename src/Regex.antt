-- ===== src/Regex.antt =====
-- The regular expressions that the program uses, matched as Python's `re` does: alternatives are
-- tried in order, repetition is greedy, and `sub` replaces the leftmost matches that do not overlap.
pub mod Lookahead
pub mod Deletion
pub mod Twice
pub mod Ends
use capturemate_ai.Prelude.{
  ℕ, zero, suc, ◌-◌, Bool, true, false, ◌||◌, not, Option, none, some, List, [], ◌∷◌, ◌++◌, Str,
  eqb, if◌then◌else◌, length, take,
}
use capturemate_ai.Text.{Unicode}

pub data Re : Type 0 where
  -- one character of a class
  chr : (ℕ → Bool) → Re
  -- \b
  boundary : Re
  cat : Re → Re → Re
  alt : Re → Re → Re
  -- r?
  maybe : Re → Re
  -- r{n}
  repeat : ℕ → Re → Re
  -- c*
  many : (ℕ → Bool) → Re
  -- (?=r)
  ahead : Re → Re
  -- $, at the end or before the line feed that ends the text
  finish : Re

-- A place in the text: the character before it, and what follows.
pub record Place : Type 0 where
  pub before : Option ℕ
  pub rest : Str

-- c+
abbrev pub some_of : (ℕ → Bool) → Re
some_of p = cat (chr p) (many p)

module _ (unicode : Unicode) where
  -- \w
  unfoldable pub is_word : ℕ → Bool
  is_word c = unicode.is_alnum c || eqb c b'_'

  unfoldable pub word_before : Option ℕ → Bool
  unfolding is_word
  word_before none = false
  word_before (some c) = is_word c

  unfoldable pub word_after : Str → Bool
  unfolding is_word
  word_after [] = false
  word_after (c ∷ s) = is_word c

  unfoldable pub at_boundary : Place → Bool
  unfolding word_before word_after
  at_boundary pl = if word_before pl.before then not (word_after pl.rest) else word_after pl.rest

  abbrev step : (ℕ → Bool) → Str → List Place
  step p [] = []
  step p (c ∷ s) = if p c then record { before = some c; rest = s } ∷ [] else []

  pub many_from : (ℕ → Bool) → Option ℕ → Str → List Place
  many_from p before [] = record { before = before; rest = [] } ∷ []
  many_from p before (c ∷ s) =
      let longer = many_from p (some c) s in
      let stop : Place = record { before = before; rest = c ∷ s } in
      if p c then longer ++ (stop ∷ []) else stop ∷ []

  pub flat : (Place → List Place) → List Place → List Place
  flat f [] = []
  flat f (pl ∷ pls) = f pl ++ flat f pls

  times : ℕ → (Place → List Place) → Place → List Place
  unfolding flat
  times zero f pl = pl ∷ []
  times (suc n) f pl = flat (times n f) (f pl)

  abbrev pub at_finish : Str → Bool
  at_finish [] = true
  at_finish (c ∷ []) = eqb c 10
  at_finish (c ∷ d ∷ s) = false

  abbrev if_any : List Place → Place → List Place
  if_any [] pl = []
  if_any (q ∷ qs) pl = pl ∷ []

  -- The places where a match that begins here can end, the preferred one first.
  unfoldable pub ends : Re → Place → List Place
  unfolding at_boundary many_from flat times
  ends (chr p) pl = step p pl.rest
  ends boundary pl = if at_boundary pl then pl ∷ [] else []
  ends (cat r s) pl = flat (ends s) (ends r pl)
  ends (alt r s) pl = ends r pl ++ ends s pl
  ends (maybe r) pl = ends r pl ++ (pl ∷ [])
  ends (repeat n r) pl = times n (ends r) pl
  ends (many p) pl = many_from p pl.before pl.rest
  ends (ahead r) pl = if_any (ends r pl) pl
  ends finish pl = if at_finish pl.rest then pl ∷ [] else []

  abbrev first : List Place → Option Place
  first [] = none
  first (pl ∷ pls) = some pl

  -- The length of the match at a place, if there is one.
  unfoldable pub match_length : Re → Option ℕ → Str → Option ℕ
  unfolding ends
  match_length r before s = elim (first (ends r (record { before = before; rest = s }))) [
    | none ↦ none
    | some pl ↦ some (length s - length pl.rest)
  ]

  module _ {S : Type 0} (r : Re) (repl : Str → S → Str × S) where
    -- `skip` characters belong to a match already replaced. No pattern here matches the empty text.
    pub sub_from : Option ℕ → ℕ → Str → S → Str × S
    unfolding match_length
    sub_from before skip [] st = ([], st)
    sub_from before (suc skip) (c ∷ s) st = sub_from (some c) skip s st
    sub_from before zero (c ∷ s) st = elim (match_length r before (c ∷ s)) [
      | none ↦ let (out, st') = sub_from (some c) zero s st in (c ∷ out, st')
      | some n ↦
          let (text, st₁) = repl (take n (c ∷ s)) st in
          let (out, st₂) = sub_from (some c) (n - 1) s st₁ in (text ++ out, st₂)
    ]

    -- pattern.sub(repl, text), with the state that `repl` changes.
    unfoldable pub sub : Str → S → Str × S
    unfolding sub_from
    sub text st = sub_from none zero text st
