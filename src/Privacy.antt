-- ===== src/Privacy.antt =====
-- app/privacy.py: masking of personal data with restorable tokens, and their restoration.
use capturemate_ai.Prelude.{
  ℕ, ◌+◌, Bool, true, false, ◌||◌, ◌&&◌, Option, none, some, List, [], ◌∷◌, ◌++◌, Str, ltb, leb,
  eqb, if◌then◌else◌, take, drop, str_eq,
}
use capturemate_ai.Prelude.Dict.{Dict, lookup, insert}
use capturemate_ai.Text.{Unicode, codes, is_space, strip, decimal, replace}
use capturemate_ai.Regex.{Re, chr, boundary, cat, alt, maybe, repeat, some_of, sub}

-- `mapping` and `counters` of `mask_text`.
pub record MaskState : Type 0 where
  pub mapping : Dict Str Str
  pub counters : Dict Str ℕ

pub record MaskResult : Type 0 where
  pub text : Str
  pub mapping : Dict Str Str

abbrev pub one_char : ℕ → ℕ → Bool
one_char a c = eqb c a

abbrev pub hyphen_or_space : ℕ → Bool
hyphen_or_space c = eqb c b'-' || is_space c

abbrev pub hyphen_space_dot : ℕ → Bool
hyphen_space_dot c = eqb c b'-' || is_space c || eqb c b'.'

abbrev pub ascii_letter : ℕ → Bool
ascii_letter c = (leb b'A' c && leb c b'Z') || (leb b'a' c && leb c b'z')

abbrev pub ascii_digit : ℕ → Bool
ascii_digit c = leb b'0' c && leb c b'9'

abbrev pub domain_char : ℕ → Bool
domain_char c = ascii_letter c || ascii_digit c || eqb c b'.' || eqb c b'-'

abbrev pub local_char : ℕ → Bool
local_char c = domain_char c || eqb c b'_' || eqb c b'%' || eqb c b'+'

module _ (unicode : Unicode) where
  abbrev pub digit : Re
  digit = chr unicode.is_decimal

  -- \b\d{6}[-\s]?[1-4]\d{6}\b
  unfoldable pub rrn_pattern : Re
  rrn_pattern = cat boundary (
      cat (repeat 6 digit) (
        cat (maybe (chr hyphen_or_space))
          (cat (chr (λ c. leb b'1' c && leb c b'4')) (cat (repeat 6 digit) boundary))))

  -- \b(?:\d{4}[-\s]?){3}\d{4}\b
  unfoldable pub card_pattern : Re
  card_pattern = cat boundary (
      cat (repeat 3 (cat (repeat 4 digit) (maybe (chr hyphen_or_space))))
        (cat (repeat 4 digit) boundary))

  -- [A-Za-z0-9._%+-]+@[A-Za-z0-9.-]+\.[A-Za-z]{2,}
  unfoldable pub email_pattern : Re
  email_pattern = cat (some_of local_char) (
      cat (chr (one_char b'@')) (
        cat (some_of domain_char)
          (cat (chr (one_char b'.')) (cat (chr ascii_letter) (some_of ascii_letter)))))

  -- [-\s.]?\d{3,4}[-\s.]?\d{4}\b
  abbrev pub phone_tail : Re
  phone_tail = cat (maybe (chr hyphen_space_dot)) (
      cat (cat (repeat 3 digit) (maybe digit))
        (cat (maybe (chr hyphen_space_dot)) (cat (repeat 4 digit) boundary)))

  abbrev pub mobile_digit : ℕ → Bool
  mobile_digit c = eqb c b'0' || eqb c b'1' || (leb b'6' c && leb c b'9')

  -- \b01[016789]… | \b0\d{1,2}…
  unfoldable pub phone_pattern : Re
  phone_pattern =
      alt
        (cat boundary (
          cat (chr (one_char b'0'))
            (cat (chr (one_char b'1')) (cat (chr mobile_digit) phone_tail))))
        (cat boundary (cat (chr (one_char b'0')) (cat (cat digit (maybe digit)) phone_tail)))

abbrev get_or_zero : Option ℕ → ℕ
get_or_zero none = 0
get_or_zero (some n) = n

-- `_make_token`: the token, and the counters.
unfoldable pub make_token : Str → Str → Dict Str ℕ → Str × Dict Str ℕ
unfolding decimal lookup insert
make_token label namespace counters =
    let n = get_or_zero (lookup label counters) + 1 in
    (
      codes "[" ++ (label ++ (codes "_" ++ (namespace ++ (decimal n ++ codes "]")))),
      insert label n counters,
    )

-- `repl` of `_sub_soft`
unfoldable pub soft_token : Str → Str → Str → MaskState → Str × MaskState
unfolding make_token
soft_token label namespace original st =
    let (token, counters') = make_token label namespace st.counters in
    (token, record { mapping = insert token original st.mapping; counters = counters' })

module _ (unicode : Unicode) where
  -- `_sub_soft`
  unfoldable pub sub_soft : Str → Re → Str → Str → MaskState → Str × MaskState
  unfolding soft_token sub
  sub_soft label pattern namespace text st =
      sub unicode pattern (soft_token label namespace) text st

  -- A hard rule keeps nothing of what it replaces.
  unfoldable pub sub_hard : Str → Re → Str → Str
  unfolding sub
  sub_hard label pattern text =
      (sub unicode {S = Unit {0}} pattern (λ original st. (codes "[" ++ (label ++ codes "]"), st))
        text tt).0

pub record Span : Type 0 where
  pub start : ℕ
  pub stop : ℕ
  pub label : Str

unfoldable pub insert_span : Span → List Span → List Span
insert_span s [] = s ∷ []
insert_span s (t ∷ ts) = if ltb s.start t.start then t ∷ insert_span s ts else s ∷ t ∷ ts

-- sorted(spans, key=start, reverse=True), which is stable.
unfoldable pub sort_spans : List Span → List Span
unfolding insert_span
sort_spans [] = []
sort_spans (s ∷ ss) = insert_span s (sort_spans ss)

-- The loop of `_mask_ner`.
unfoldable pub mask_spans : Str → List Span → Str → MaskState → Str × MaskState
unfolding make_token
mask_spans namespace [] text st = (text, st)
mask_spans namespace (s ∷ ss) text st =
    let (token, counters') = make_token s.label namespace st.counters in
    let original = drop s.start (take s.stop text) in
    mask_spans namespace ss (take s.start text ++ (token ++ drop s.stop text))
      (record { mapping = insert token original st.mapping; counters = counters' })

-- `detect` is the detector's; `none` is any exception, after which the text stays as it is.
unfoldable pub mask_ner :
    Bool → (Str → Option (List Span)) → Str → Str → MaskState → Str × MaskState
unfolding mask_spans sort_spans
mask_ner false detect namespace text st = (text, st)
mask_ner true detect namespace text st = elim (detect text) [
  | none ↦ (text, st)
  | some spans ↦ mask_spans namespace (sort_spans spans) text st
]

abbrev pub empty_state : MaskState
empty_state = record { mapping = []; counters = [] }

module _ (unicode : Unicode) (use_presidio : Bool) (detect : Str → Option (List Span)) where
  -- The two hard rules, in order.
  unfoldable pub mask_hard : Str → Str
  unfolding sub_hard rrn_pattern card_pattern
  mask_hard text =
      sub_hard unicode (codes "CARD") (card_pattern unicode)
        (sub_hard unicode (codes "RRN") (rrn_pattern unicode) text)

  unfoldable pub mask_text : Str → Str → MaskResult
  unfolding mask_ner mask_hard sub_soft email_pattern phone_pattern strip
  mask_text text namespace =
      let (seen, st₀) = mask_ner use_presidio detect namespace text empty_state in
      let hard = mask_hard seen in
      let (mailed, st₁) =
        sub_soft unicode (codes "EMAIL") (email_pattern unicode) namespace hard st₀ in
      let (phoned, st₂) =
        sub_soft unicode (codes "PHONE") (phone_pattern unicode) namespace mailed st₁ in
      record { text = strip phoned; mapping = st₂.mapping }

unfoldable pub restore_text : Str → Dict Str Str → Str
unfolding replace
restore_text text [] = text
restore_text text ((token, original) ∷ mapping) = restore_text (replace token original text) mapping
