-- ===== src/Text.antt =====
-- Go strings as lists of code points, with the functions of package `strings` that the program
-- calls. A text literal is written `codes "…"`. Equality, `+` and `Sprintf("%s:%d")` are exact.
pub mod Decimal
use Prim.Native.Char.{code}
use Prim.Native.String.{String}
use ssh_roundrobin.Prelude.{
  ℕ, zero, suc, ◌+◌, ◌-◌, ◌≡◌, refl, ◌↔◌, ◌≢◌, Bool, true, false, ◌&&◌, ◌||◌, not, List, [], ◌∷◌,
  ◌++◌, arith, ltb, leb, ◌==◌, if◌then◌else◌, length, ℤ, pos, negsuc, All, ap, sym, ◌∙◌,
  append_assoc, append-nil,
}

abbrev pub Text : Type 0
Text = List ℕ

-- An `error` value is its message.
abbrev pub Error : Type 0
Error = Text

abbrev pub codes : String → Text
codes String.[] = []
codes (String.◌∷◌ c s) = code c ∷ codes s

-- `a == b` on strings.
unfoldable pub text_eq : Text → Text → Bool
text_eq [] [] = true
text_eq [] (b ∷ t) = false
text_eq (a ∷ s) [] = false
text_eq (a ∷ s) (b ∷ t) = (a == b) && text_eq s t

pub text_eq_iff : (s t : Text) → (text_eq s t ≡ true) ↔ (s ≡ t)
unfolding text_eq
text_eq_iff [] [] = ground arith
text_eq_iff [] (b ∷ t) = ground arith
text_eq_iff (a ∷ s) [] = ground arith
text_eq_iff (a ∷ s) (b ∷ t) = ground (arith, text_eq_iff s t)

pub text_eq_refl : (s : Text) → text_eq s s ≡ true
text_eq_refl s = (text_eq_iff s s).1 refl

pub text_eq_cases : (s t : Text) → (s ≡ t → text_eq s t ≡ true) × (s ≢ t → text_eq s t ≡ false)
text_eq_cases s t = ground (arith, text_eq_iff s t)

abbrev pub is_empty : Text → Bool
is_empty [] = true
is_empty (c ∷ s) = false

-- `unicode.IsSpace`.
unfoldable pub is_space : ℕ → Bool
is_space c =
    (leb 9 c && leb c 13)
    || c == 0x20
    || c == 0x85
    || c == 0xA0
    || c == 0x1680
    || (leb 0x2000 c && leb c 0x200A)
    || c == 0x2028
    || c == 0x2029
    || c == 0x202F
    || c == 0x205F
    || c == 0x3000

unfoldable pub trim_left : Text → Text
trim_left [] = []
trim_left (c ∷ s) = let rest = trim_left s in if is_space c then rest else c ∷ s

-- The end of a text is cut at its last character that is no white space.
unfoldable pub trim_right : Text → Text
trim_right [] = []
trim_right (c ∷ s) = let rest = trim_right s in if is_empty rest && is_space c then [] else c ∷ rest

-- `strings.TrimSpace`.
unfoldable pub trim_space : Text → Text
unfolding trim_left trim_right is_space
trim_space s = trim_right (trim_left s)

-- `unicode.ToLower` on the characters whose lower case is ASCII: A-Z, the Kelvin sign and I with a
-- dot. Other characters stay; the program only compares the result with ASCII words.
unfoldable pub lower : ℕ → ℕ
lower c =
    if leb b'A' c && leb c b'Z'
    then c + 32
    else if c == 0x212A
    then b'k'
    else if c == 0x130
    then b'i'
    else c

unfoldable pub to_lower : Text → Text
unfolding lower
to_lower [] = []
to_lower (c ∷ s) = lower c ∷ to_lower s

unfoldable pub has_prefix : Text → Text → Bool
has_prefix s [] = true
has_prefix [] (p ∷ ps) = false
has_prefix (c ∷ s) (p ∷ ps) = (c == p) && has_prefix s ps

-- `s[n:]`.
unfoldable pub drop_chars : ℕ → Text → Text
drop_chars zero s = s
drop_chars (suc n) [] = []
drop_chars (suc n) (c ∷ s) = drop_chars n s

-- `strings.ReplaceAll` for a pattern that is not empty; `skip` counts the rest of a match.
replace_from : Text → Text → ℕ → Text → Text
replace_from old new skip [] = []
replace_from old new (suc skip) (c ∷ s) = replace_from old new skip s
replace_from old new zero (c ∷ s) =
    let hit = has_prefix (c ∷ s) old in
    let rest = replace_from old new (if hit then length old - 1 else 0) s in
    if hit then new ++ rest else c ∷ rest

unfoldable pub replace_all : Text → Text → Text → Text
unfolding replace_from has_prefix
replace_all s old new = replace_from old new 0 s

-- `strings.Fields`: the maximal runs without white space; `word` is the run being read.
fields_from : Text → Text → List Text
fields_from word [] = if is_empty word then [] else word ∷ []
fields_from word (c ∷ s) =
    let rest = fields_from (if is_space c then [] else word ++ c ∷ []) s in
    if is_space c && not (is_empty word) then word ∷ rest else rest

unfoldable pub fields : Text → List Text
unfolding fields_from is_space
fields s = fields_from [] s

replace_all_host :
    replace_all (codes "ssh %h -p %h") (codes "%h") (codes "a%h") ≡ codes "ssh a%h -p a%h"
unfolding replace_all
replace_all_host = refl

fields_run : fields (codes "  nc  -x h ") ≡ codes "nc" ∷ codes "-x" ∷ codes "h" ∷ []
unfolding fields
fields_run = refl

trim_space_run : trim_space (codes "  a b\t ") ≡ codes "a b"
unfolding trim_space
trim_space_run = refl

-- `strings.Split` by a separator of one character.
split_from : ℕ → Text → Text → List Text
split_from sep word [] = word ∷ []
split_from sep word (c ∷ s) =
    let rest = split_from sep (if c == sep then [] else word ++ c ∷ []) s in
    if c == sep then word ∷ rest else rest

unfoldable pub split : Text → ℕ → List Text
unfolding split_from
split s sep = split_from sep [] s

split_run : split (codes "h::p") b':' ≡ codes "h" ∷ [] ∷ codes "p" ∷ []
unfolding split
split_run = refl

-- A text without the separator.
abbrev pub Without : ℕ → Text → Type 0
Without sep = All (λ c. c ≢ sep)

split_from-append :
    (sep : ℕ) (word s rest : Text)
    → Without sep s
    → split_from sep word (s ++ rest) ≡ split_from sep (word ++ s) rest
unfolding split_from
split_from-append sep word [] rest h = ap (λ w. split_from sep w rest) (sym (append-nil word))
split_from-append sep word (c ∷ s) rest (h, hs) =
    ground (arith, split_from-append sep (word ++ c ∷ []) s rest hs, append_assoc word (c ∷ []) s)

-- A part without separators that a separator ends is split off, and so is the last part.
pub split-part :
    (sep : ℕ) (s rest : Text) → Without sep s → split (s ++ sep ∷ rest) sep ≡ s ∷ split rest sep
unfolding split split_from
split-part sep s rest h = split_from-append sep [] s (sep ∷ rest) h ∙ ground arith

pub split_last : (sep : ℕ) (s : Text) → Without sep s → split s sep ≡ s ∷ []
unfolding split split_from
split_last sep s h =
    ap (split_from sep []) (sym (append-nil s)) ∙ split_from-append sep [] s [] h ∙ refl

-- A text without white space, with a line end behind it, is trimmed to itself.
trim_right-newline : (s : Text) → All (λ c. is_space c ≡ false) s → trim_right (s ++ codes "\n") ≡ s
unfolding trim_right
trim_right-newline [] h = unfold is_space in refl
trim_right-newline (c ∷ s) (h, hs) = rw (trim_right-newline s hs) (ground (arith, h))

pub trim_space-newline :
    (s : Text) → All (λ c. is_space c ≡ false) s → trim_space (s ++ codes "\n") ≡ s
unfolding trim_space trim_left
trim_space-newline [] h = unfold is_space trim_right in refl
trim_space-newline (c ∷ s) (h, hs) = rw h (trim_right-newline (c ∷ s) (h, hs))
