-- ===== src/Text/Decimal.antt =====
-- `strconv.Itoa` with `%d`, and `strconv.Atoi`: integers in decimal.
use ssh_roundrobin.Prelude.{
  ℕ, zero, suc, ◌+◌, ◌-◌, ◌*◌, ◌/◌, ◌%◌, ◌^◌, ◌≤◌, ◌<◌, ◌≡◌, refl, sym, ap, ◌∙◌, Bool, true, false,
  ◌&&◌, [], ◌∷◌, ◌++◌, append_assoc, append-nil, ltb, leb, ◌==◌, if◌then◌else◌, length,
  length-append, Bool-cases, inl, inr, All, All-append, arith, ℤ, pos, negsuc, sub_ℕ,
}
use ssh_roundrobin.Text.{Text, codes, is_empty}
use ssh_roundrobin.Outcome.{Result, ok, err}

-- The digits of `n`; fuel `n` is enough, since each round divides by ten.
unfoldable pub digits : ℕ → ℕ → Text
digits zero n = (b'0' + n) ∷ []
digits (suc fuel) n = elim (ltb n 10) [
  | true ↦ (b'0' + n) ∷ []
  | false ↦ digits fuel (n / 10) ++ (b'0' + n % 10) ∷ []
]

unfoldable pub itoa : ℤ → Text
unfolding digits
itoa (pos n) = digits n n
itoa (negsuc n) = b'-' ∷ digits (suc n) (suc n)

itoa_run : itoa (negsuc 119) ≡ codes "-120"
unfolding itoa
itoa_run = refl

-- The loop of `strconv.ParseUint` in base ten: the first character that is no digit, or the first
-- value past 64 bits, ends it.
unfoldable pub parse_digits : ℕ → Text → Result ℕ
parse_digits n [] = ok n
parse_digits n (c ∷ s) =
    let m = n * 10 + (c - b'0') in
    let rest = parse_digits m s in
    if leb b'0' c && leb c b'9'
    then if ltb m (2 ^ 64) then rest else err (codes "value out of range")
    else err (codes "invalid syntax")

unfoldable pub parse_uint : Text → Result ℕ
parse_uint [] = err (codes "invalid syntax")
parse_uint (c ∷ s) = parse_digits 0 (c ∷ s)

-- The bounds of an `int` of 64 bits.
abbrev pub in_range : Bool → ℕ → Result ℤ
in_range negative n =
    if negative
    then if leb n (2 ^ 63) then ok (sub_ℕ 0 n) else err (codes "value out of range")
    else if ltb n (2 ^ 63)
    then ok (pos n)
    else err (codes "value out of range")

abbrev signed : Bool → Result ℕ → Result ℤ
signed negative (err e) = err e
signed negative (ok n) = in_range negative n

-- A sign, then digits.
unfoldable pub parse_int : Text → Result ℤ
parse_int [] = err (codes "invalid syntax")
parse_int (c ∷ s) =
    let minus = signed true (parse_uint s) in
    let plus = signed false (parse_uint s) in
    if c == b'-' then minus else if c == b'+' then plus else signed false (parse_uint (c ∷ s))

-- `strconv.Atoi`; `quote` is `strconv.Quote`.
unfoldable pub atoi : (Text → Text) → Text → Result ℤ
atoi quote s = elim (parse_int s) [
  | ok n ↦ ok n
  | err e ↦ err (codes "strconv.Atoi: parsing " ++ (quote s ++ (codes ": " ++ e)))
]

abbrev pub Int64 : ℤ → Type 0
Int64 (pos n) = n < 2 ^ 63
Int64 (negsuc n) = n < 2 ^ 63

-- A decimal digit.
abbrev pub Digit : ℕ → Type 0
Digit c = (b'0' ≤ c) × (c ≤ b'9')

pub digits-Digit : (fuel n : ℕ) → n ≤ fuel → All Digit (digits fuel n)
unfolding digits
digits-Digit zero n h = omega arith
digits-Digit (suc fuel) n h = elim (Bool-cases (ltb n 10)) [
  | inl e ↦ rw (e, digits) (ground arith)
  | inr e ↦
      rw (e, digits)
        (All-append Digit (digits fuel (n / 10)) _ (digits-Digit fuel (n / 10) (ground arith))
          (omega arith))
]

parse_digits-digit :
    (a d n : ℕ) (s : Text)
    → d < 10
    → a * 10 + d ≡ n
    → n < 2 ^ 64
    → parse_digits a ((b'0' + d) ∷ s) ≡ parse_digits n s
unfolding parse_digits
parse_digits-digit a d n s h e k = ground (arith, value)
  where
    value : a * 10 + (b'0' + d - b'0') ≡ n
    value = omega (arith, e)

pub parse_digits-digits :
    (fuel n : ℕ) (rest : Text)
    → n ≤ fuel
    → n < 2 ^ 64
    → parse_digits 0 (digits fuel n ++ rest) ≡ parse_digits n rest
unfolding digits
parse_digits-digits zero n rest h k =
    parse_digits-digit 0 n n rest (omega arith) (omega arith) (omega arith)
parse_digits-digits (suc fuel) n rest h k = elim (Bool-cases (ltb n 10)) [
  | inl e ↦
      rw (e, digits) (parse_digits-digit 0 n n rest (ground arith) (omega arith) (omega arith))
  | inr e ↦
      rw (e, digits, append_assoc (digits fuel (n / 10)) ((b'0' + n % 10) ∷ []) rest)
        (parse_digits-digits fuel (n / 10) ((b'0' + n % 10) ∷ rest) (ground arith) (omega arith)
          ∙ parse_digits-digit (n / 10) (n % 10) n rest (omega arith) (omega arith) (omega arith))
]

-- A printed number begins with a digit.
length-digits : (fuel n : ℕ) → 0 < length (digits fuel n)
unfolding digits
length-digits zero n = omega arith
length-digits (suc fuel) n = elim (Bool-cases (ltb n 10)) [
  | inl e ↦ rw (e, digits) (omega arith)
  | inr e ↦
      rw (e, digits) (omega (arith, length-append (digits fuel (n / 10)) ((b'0' + n % 10) ∷ [])))
]

digits-cons : (fuel n : ℕ) → n ≤ fuel → (c : ℕ) × (s : Text) × (digits fuel n ≡ c ∷ s) × Digit c
digits-cons fuel n h = first (digits fuel n) (digits-Digit fuel n h) (length-digits fuel n)
  where
    first : (t : Text) → All Digit t → 0 < length t → (c : ℕ) × (s : Text) × (t ≡ c ∷ s) × Digit c
    first [] all l = absurd (omega (arith, l))
    first (c ∷ s) all l = (c, s, refl, all.0)

widen : (s : Text) → All Digit s → All (λ c. (b'-' ≤ c) × (c ≤ b'9')) s
widen [] h = tt
widen (c ∷ s) h = (omega (arith, h.0), widen s h.1)

parse_uint-cons : (t : Text) (c : ℕ) (s : Text) → t ≡ c ∷ s → parse_uint t ≡ parse_digits 0 t
unfolding parse_uint
parse_uint-cons t c s e = rw (e, parse_uint) refl

parse_uint-digits : (n : ℕ) → n < 2 ^ 64 → parse_uint (digits n n) ≡ ok n
parse_uint-digits n h =
    let (c, s, e, _) = digits-cons n n (omega arith) in
    parse_uint-cons (digits n n) c s e
    ∙ ap (parse_digits 0) (sym (append-nil (digits n n)))
    ∙ parse_digits-digits n n [] (omega arith) h
    ∙ unfold parse_digits in refl

parse_int-Digit :
    (t : Text) (c : ℕ) (s : Text) → t ≡ c ∷ s → Digit c → parse_int t ≡ signed false (parse_uint t)
unfolding parse_int
parse_int-Digit t c s e d = ground (arith, e)

parse_int-itoa : (n : ℤ) → Int64 n → parse_int (itoa n) ≡ ok n
unfolding itoa
parse_int-itoa (pos n) h =
    let (c, s, e, d) = digits-cons n n (omega arith) in
    parse_int-Digit (digits n n) c s e d
    ∙ ap (signed false) (parse_uint-digits n (omega (arith, h)))
    ∙ ground arith
parse_int-itoa (negsuc n) h =
    unfold parse_int in
    ap (signed true) (parse_uint-digits (suc n) (omega (arith, h))) ∙ ground arith

-- Reading back a printed `int`.
pub atoi-itoa : (quote : Text → Text) (n : ℤ) → Int64 n → atoi quote (itoa n) ≡ ok n
unfolding atoi
atoi-itoa quote n h = rw (parse_int-itoa n h, atoi) refl

-- A printed number holds digits and a minus sign only.
pub itoa-All : (n : ℤ) → All (λ c. (b'-' ≤ c) × (c ≤ b'9')) (itoa n)
unfolding itoa
itoa-All (pos n) = widen (digits n n) (digits-Digit n n (omega arith))
itoa-All (negsuc n) =
    (omega arith, widen (digits (suc n) (suc n)) (digits-Digit (suc n) (suc n) (omega arith)))

pub itoa-not_empty : (n : ℤ) → is_empty (itoa n) ≡ false
unfolding itoa
itoa-not_empty (pos n) = let (c, s, e, d) = digits-cons n n (omega arith) in rw e refl
itoa-not_empty (negsuc n) = refl
