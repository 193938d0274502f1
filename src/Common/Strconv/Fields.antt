-- ===== src/Common/Strconv/Fields.antt =====
-- Go's `strings.Fields`, and words joined by spaces. On text that is not ASCII it is FieldsFunc at the
-- spaces of Unicode, which is a parameter.
use Prim.Native.Char.{Char, code}
use Prim.Native.String.{String, ◌++◌}
use mathlib.Core.Path.{◌≡◌, refl, ap, ◌∙◌}
use mathlib.Core.Bool.{Bool, true, false, ◌||◌, ◌&&◌}
use mathlib.Core.Logic.{inl, inr}
use mathlib.Core.List.{List, [], ◌∷◌}
use native.Mathlib.Omega.{arith}
use text.Mathlib.TextLemmas.{nil-append, cons-append}
use seven_db.Common.Tests.{leb, ltb, nat_beq, if-true, if◌then◌else◌, Bool-cases}

-- the spaces of ASCII
abbrev is_space : Char → Bool
is_space c = nat_beq (code c) 32 || (leb 9 (code c) && leb (code c) 13)

abbrev cons_word : String → List String → List String
cons_word String.[] ws = ws
cons_word (String.◌∷◌ c w) ws = String.◌∷◌ c w ∷ ws

-- the word at the front, which may be empty, and those after it
unfoldable words : String → String × List String
words String.[] = ("", [])
words (String.◌∷◌ c s) =
    let (w, ws) = words s in if is_space c then ("", cons_word w ws) else (String.◌∷◌ c w, ws)

unfoldable ascii_fields : String → List String
unfolding words
ascii_fields s = let (w, ws) = words s in cons_word w ws

-- every byte is below 128
unfoldable pub is_ascii : String → Bool
is_ascii String.[] = true
is_ascii (String.◌∷◌ c s) = let rest = is_ascii s in if ltb (code c) 128 then rest else false

unfoldable pub all_ascii : List String → Bool
all_ascii [] = true
all_ascii (s ∷ ss) = is_ascii s && all_ascii ss

-- strings.Fields, with strings.FieldsFunc(s, unicode.IsSpace)
unfoldable pub fields : (String → List String) → String → List String
unfolding ascii_fields is_ascii
fields fields_func s = if is_ascii s then ascii_fields s else fields_func s

-- strings.Join(args, " ")
unfoldable pub join : List String → String
join [] = ""
join (s ∷ []) = s
join (s ∷ (t ∷ ss)) = s ++ (" " ++ join (t ∷ ss))

unfoldable pub no_space : String → Bool
no_space String.[] = true
no_space (String.◌∷◌ c s) = let rest = no_space s in if is_space c then false else rest

-- a word is not empty and has no space in it
abbrev pub IsWord : String → Type 0
IsWord String.[] = ⊥
IsWord (String.◌∷◌ c s) = no_space (String.◌∷◌ c s) ≡ true

abbrev pub AllWords : List String → Type 0
AllWords [] = Unit
AllWords (s ∷ ss) = IsWord s × AllWords ss

space-append : (s : String) → " " ++ s ≡ String.◌∷◌ " " s
space-append s = cons-append " " "" s ∙ ap (String.◌∷◌ " ") (nil-append s)

words-space : (w s : String) → no_space w ≡ true → words (w ++ (" " ++ s)) ≡ (w, ascii_fields s)
unfolding words ascii_fields no_space
words-space String.[] s h = ap words (nil-append (" " ++ s) ∙ space-append s) ∙ refl
words-space (String.◌∷◌ c w) s h = elim (Bool-cases (is_space c)) [
  | inl space ↦ absurd (ground (arith, space))
  | inr letter ↦
      ap words (cons-append c w (" " ++ s))
      ∙ rw (letter, words-space w s (ground (arith, letter))) refl
]

words-end : (w : String) → no_space w ≡ true → words w ≡ (w, [])
unfolding words no_space
words-end String.[] h = refl
words-end (String.◌∷◌ c w) h = elim (Bool-cases (is_space c)) [
  | inl space ↦ absurd (ground (arith, space))
  | inr letter ↦ rw (letter, words-end w (ground (arith, letter))) refl
]

IsWord-no_space : (w : String) → IsWord w → no_space w ≡ true
IsWord-no_space String.[] h = absurd h
IsWord-no_space (String.◌∷◌ c w) h = h

cons_word-IsWord : (w : String) (ws : List String) → IsWord w → cons_word w ws ≡ w ∷ ws
cons_word-IsWord String.[] ws h = absurd h
cons_word-IsWord (String.◌∷◌ c w) ws h = refl

-- Words that are joined by spaces are read back.
ascii_fields-join : (ws : List String) → AllWords ws → ascii_fields (join ws) ≡ ws
unfolding ascii_fields join words
ascii_fields-join [] h = refl
ascii_fields-join (w ∷ []) h =
    ap (λ p. cons_word p.0 p.1) (words-end w (IsWord-no_space w h.0)) ∙ cons_word-IsWord w [] h.0
ascii_fields-join (w ∷ (v ∷ ws)) h =
    ap (λ p. cons_word p.0 p.1) (words-space w (join (v ∷ ws)) (IsWord-no_space w h.0))
    ∙ cons_word-IsWord w (ascii_fields (join (v ∷ ws))) h.0
    ∙ ap (λ t. w ∷ t) (ascii_fields-join (v ∷ ws) h.1)

ascii_fields-space :
    (w : String) (ws : List String)
    → IsWord w
    → AllWords ws
    → ascii_fields (w ++ (" " ++ join ws)) ≡ w ∷ ws
unfolding ascii_fields
ascii_fields-space w ws h hs =
    ap (λ p. cons_word p.0 p.1) (words-space w (join ws) (IsWord-no_space w h))
    ∙ cons_word-IsWord w (ascii_fields (join ws)) h
    ∙ ap (λ t. w ∷ t) (ascii_fields-join ws hs)

is_ascii-append : (w s : String) → is_ascii w ≡ true → is_ascii s ≡ true → is_ascii (w ++ s) ≡ true
unfolding is_ascii
is_ascii-append String.[] s h k = ap is_ascii (nil-append s) ∙ k
is_ascii-append (String.◌∷◌ c w) s h k =
    ap is_ascii (cons-append c w s) ∙ ground (arith, h, is_ascii-append w s, k)

is_ascii-space : (s : String) → is_ascii s ≡ true → is_ascii (" " ++ s) ≡ true
unfolding is_ascii
is_ascii-space s h = is_ascii-append " " s refl h

is_ascii-join : (ws : List String) → all_ascii ws ≡ true → is_ascii (join ws) ≡ true
unfolding join all_ascii is_ascii
is_ascii-join [] h = refl
is_ascii-join (w ∷ []) h = ground (arith, h)
is_ascii-join (w ∷ (v ∷ ws)) h =
    is_ascii-append w (" " ++ join (v ∷ ws)) (ground (arith, h))
      (is_ascii-space (join (v ∷ ws)) (is_ascii-join (v ∷ ws) (ground (arith, h))))

-- A word, a space and joined words, of which there may be none, are read back too, in ASCII.
pub fields-space :
    (fields_func : String → List String) (w : String) (ws : List String)
    → IsWord w
    → AllWords ws
    → is_ascii w ≡ true
    → all_ascii ws ≡ true
    → fields fields_func (w ++ (" " ++ join ws)) ≡ w ∷ ws
unfolding fields
fields-space fields_func w ws h hs a rest =
    let line = w ++ (" " ++ join ws) in
    if-true (is_ascii line) (ascii_fields line) (fields_func line)
      (is_ascii-append w (" " ++ join ws) a (is_ascii-space (join ws) (is_ascii-join ws rest)))
    ∙ ascii_fields-space w ws h hs
