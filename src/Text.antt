-- ===== src/Text.antt =====
-- The methods of Python's `str` that the program calls, on lists of code points.
pub mod Search
pub mod Replaced
pub mod Strip
use Prim.Native.Char.{code}
use capturemate_ai.Prelude.{
  ℕ, zero, suc, ◌+◌, ◌-◌, ◌/◌, ◌%◌, String, Bool, true, false, ◌&&◌, ◌||◌, List, [], ◌∷◌, ◌++◌, Str,
  ltb, leb, eqb, if◌then◌else◌, length, ◌==◌, str_eq,
}

-- A literal of the source.
abbrev pub codes : String → Str
codes String.[] = []
codes (String.◌∷◌ c s) = code c ∷ codes s

-- The tables of the Unicode database that come with the interpreter.
pub record Unicode : Type 0 where
  pub lower : Str → Str
  pub casefold : Str → Str
  pub is_alnum : ℕ → Bool
  pub is_decimal : ℕ → Bool

-- str.isspace of one character
unfoldable pub is_space : ℕ → Bool
is_space c =
    (leb 9 c && leb c 13)
    || (leb 28 c && leb c 32)
    || eqb c 0x85
    || eqb c 0xa0
    || eqb c 0x1680
    || (leb 0x2000 c && leb c 0x200a)
    || eqb c 0x2028
    || eqb c 0x2029
    || eqb c 0x202f
    || eqb c 0x205f
    || eqb c 0x3000

-- The line boundaries of `splitlines`; \r\n counts as one.
unfoldable pub is_line_break : ℕ → Bool
is_line_break c =
    (leb 10 c && leb c 13) || (leb 28 c && leb c 30) || eqb c 0x85 || eqb c 0x2028 || eqb c 0x2029

unfoldable pub drop_while : (ℕ → Bool) → Str → Str
drop_while p [] = []
drop_while p (c ∷ s) = let rest = drop_while p s in if p c then rest else c ∷ s

unfoldable pub rstrip_by : (ℕ → Bool) → Str → Str
rstrip_by p [] = []
rstrip_by p (c ∷ s) =
    let rest = rstrip_by p s in elim rest [ [] ↦ if p c then [] else c ∷ [] | d ∷ t ↦ c ∷ d ∷ t ]

unfoldable pub strip_by : (ℕ → Bool) → Str → Str
unfolding drop_while rstrip_by
strip_by p s = rstrip_by p (drop_while p s)

-- s.strip()
unfoldable pub strip : Str → Str
unfolding strip_by is_space
strip = strip_by is_space

-- The pieces between the characters of p, the last one in `acc`, reversed.
abbrev snoc : Str → ℕ → Str
snoc s c = s ++ (c ∷ [])

abbrev push_word : Str → List Str → List Str
push_word [] ws = ws
push_word (c ∷ s) ws = (c ∷ s) ∷ ws

unfoldable pub split_from : Str → Str → List Str
split_from word [] = push_word word []
split_from word (c ∷ s) =
    let rest = split_from [] s in
    let more = split_from (snoc word c) s in if is_space c then push_word word rest else more

-- s.split()
unfoldable pub split : Str → List Str
unfolding split_from is_space
split s = split_from [] s

unfoldable pub lines_from : Bool → Str → Str → List Str
lines_from after_cr line [] = push_word line []
lines_from after_cr line (c ∷ s) =
    let skip = lines_from false [] s in
    let break = line ∷ lines_from (eqb c 13) [] s in
    let more = lines_from false (snoc line c) s in
    if after_cr && eqb c 10 then skip else if is_line_break c then break else more

-- s.splitlines()
unfoldable pub splitlines : Str → List Str
unfolding lines_from is_line_break
splitlines s = lines_from false [] s

-- sep.join(parts)
unfoldable pub join : Str → List Str → Str
join sep [] = []
join sep (s ∷ []) = s
join sep (s ∷ t ∷ ss) = s ++ (sep ++ join sep (t ∷ ss))

-- The pieces of an f-string, one after the other.
abbrev pub paste : List Str → Str
paste [] = []
paste (s ∷ ss) = s ++ paste ss

unfoldable pub starts_with : Str → Str → Bool
starts_with s [] = true
starts_with [] (p ∷ ps) = false
starts_with (c ∷ s) (p ∷ ps) = eqb c p && starts_with s ps

-- t in s
unfoldable pub has_infix : Str → Str → Bool
unfolding starts_with
has_infix t [] = starts_with [] t
has_infix t (c ∷ s) = starts_with (c ∷ s) t || has_infix t s

-- s.replace(old, new), for a nonempty `old`; `skip` characters belong to a match already replaced.
unfoldable pub replace_from : Str → Str → ℕ → Str → Str
replace_from old new skip [] = []
replace_from old new (suc skip) (c ∷ s) = replace_from old new skip s
replace_from old new zero (c ∷ s) =
    let hit = new ++ replace_from old new (length old - 1) s in
    let miss = c ∷ replace_from old new zero s in if starts_with (c ∷ s) old then hit else miss

unfoldable pub replace : Str → Str → Str → Str
unfolding replace_from starts_with
replace old new s = replace_from old new zero s

-- str(n); one unit of fuel for each digit.
unfoldable pub decimal_from : ℕ → ℕ → Str → Str
decimal_from zero n acc = acc
decimal_from (suc fuel) n acc =
    let digit = 48 + n % 10 in
    let more = decimal_from fuel (n / 10) (digit ∷ acc) in if ltb n 10 then digit ∷ acc else more

unfoldable pub decimal : ℕ → Str
unfolding decimal_from
decimal n = decimal_from (suc n) n []

-- s < t, by code points
unfoldable pub str_lt : Str → Str → Bool
str_lt s [] = false
str_lt [] (b ∷ t) = true
str_lt (a ∷ s) (b ∷ t) = ltb a b || (eqb a b && str_lt s t)

unfoldable pub insert_sorted : Str → List Str → List Str
insert_sorted s [] = s ∷ []
insert_sorted s (t ∷ ts) = if str_lt t s then t ∷ insert_sorted s ts else s ∷ t ∷ ts

-- sorted(strings)
unfoldable pub sorted : List Str → List Str
unfolding str_lt insert_sorted
sorted [] = []
sorted (s ∷ ss) = insert_sorted s (sorted ss)

unfoldable pub contains : Str → List Str → Bool
contains s [] = false
contains s (t ∷ ts) = t == s || contains s ts

-- list(dict.fromkeys(strings)): the first of equal ones stays.
unfoldable pub fromkeys_from : List Str → List Str → List Str
fromkeys_from seen [] = []
fromkeys_from seen (s ∷ ss) =
    let old = fromkeys_from seen ss in
    let new = s ∷ fromkeys_from (s ∷ seen) ss in if contains s seen then old else new

unfoldable pub fromkeys : List Str → List Str
unfolding fromkeys_from contains
fromkeys = fromkeys_from []

-- Truth of a text.
abbrev pub nonempty : Str → Bool
nonempty [] = false
nonempty (c ∷ s) = true

-- s or t
abbrev pub or_text : Str → Str → Str
or_text [] t = t
or_text (c ∷ s) t = c ∷ s
