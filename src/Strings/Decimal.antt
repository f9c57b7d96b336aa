-- ===== src/Strings/Decimal.antt =====
-- `itoa` of servers/select.go, routing/builtin.go and remotelists/types.go, and `strconv.Itoa` (here
-- `decimal`, for numbers that are not negative) and `strconv.Atoi`.
use blacktemple_kn.Prelude.{
  ℤ, pos, negsuc, ℕ, zero, suc, ◌+◌, ◌-◌, ◌*◌, ◌/◌, ◌%◌, ◌<◌, ◌≤◌, ◌==◌, leb, Bool, ◌&&◌,
  if◌then◌else◌, Option, none, some, [], ◌∷◌, Text, ◌≡◌, ◌≢◌, refl, ap, sym, ◌∙◌, arith, Bool-cases,
  inl, inr,
}

-- The loop of `itoa`: `done` is what the buffer holds from index i on.
unfoldable pub decimal_loop : ℕ → ℕ → Text → Text
decimal_loop zero n done = done
decimal_loop (suc rounds) n done =
    let rest = decimal_loop rounds (n / 10) ((b'0' + n % 10) ∷ done) in
    if n == 0 then done else rest

-- The rounds are bounded by the number itself. The buffer has room for 12 digits.
unfoldable pub decimal : ℕ → Text
decimal n = if n == 0 then b'0' ∷ [] else decimal_loop n n []

unfoldable pub itoa : ℤ → Text
unfolding decimal
itoa (pos n) = decimal n
itoa (negsuc n) = b'-' ∷ decimal (suc n)

abbrev pub is_digit : ℕ → Bool
is_digit c = leb b'0' c && leb c b'9'

-- The value of the digits behind those that made `acc`; `none` at any other character.
unfoldable pub digits_value : ℕ → Text → Option ℕ
digits_value acc [] = some acc
digits_value acc (c ∷ cs) =
    let rest = digits_value (acc * 10 + (c - b'0')) cs in if is_digit c then rest else none

-- `strconv.Atoi` on a text without a sign, where the number fits an int.
unfoldable pub atoi : Text → Option ℕ
unfolding digits_value
atoi [] = none
atoi (c ∷ cs) = digits_value 0 (c ∷ cs)

digits_value-digit :
    (acc d : ℕ) (done : Text)
    → d < 10
    → digits_value acc ((b'0' + d) ∷ done) ≡ digits_value (acc * 10 + d) done
unfolding digits_value
digits_value-digit acc d done h = let e : (b'0' + d) - b'0' ≡ d = omega arith in ground (arith, e)

-- What `decimal_loop` puts in front of `done` reads as the number.
decimal_loop-value :
    (rounds n : ℕ) (done : Text)
    → n ≤ rounds
    → (k : ℕ) × ((acc : ℕ)
        → digits_value acc (decimal_loop rounds n done) ≡ digits_value (acc * k + n) done)
unfolding decimal_loop
decimal_loop-value zero n done h = (1, λ acc. ap (λ v. digits_value v done) (omega arith))
decimal_loop-value (suc rounds) n done h = elim (Bool-cases (n == 0)) [
  | inl e ↦ (1, λ acc. rw (e, decimal_loop) (ap (λ v. digits_value v done) (ground arith)))
  | inr e ↦
      let (k, ih) = decimal_loop-value rounds (n / 10) ((b'0' + n % 10) ∷ done) (ground arith) in
      (
        k * 10,
        λ acc.
            rw (e, decimal_loop)
              (ih acc
                ∙ digits_value-digit (acc * k + n / 10) (n % 10) done (omega arith)
                ∙ ap (λ v. digits_value v done) (omega arith)),
      )
]

decimal_loop-ne-nil : (rounds n c : ℕ) (cs : Text) → decimal_loop rounds n (c ∷ cs) ≢ []
unfolding decimal_loop
decimal_loop-ne-nil zero n c cs h = cc
decimal_loop-ne-nil (suc rounds) n c cs h =
    ground (arith, decimal_loop-ne-nil rounds (n / 10) (b'0' + n % 10) (c ∷ cs))

atoi-digits_value : (t : Text) → t ≢ [] → atoi t ≡ digits_value 0 t
unfolding atoi
atoi-digits_value [] h = absurd (h refl)
atoi-digits_value (c ∷ cs) h = refl

decimal-suc : (n : ℕ) → decimal (suc n) ≡ decimal_loop (suc n) (suc n) []
unfolding decimal
decimal-suc n = ground arith

decimal-ne-nil : (n : ℕ) → decimal n ≢ []
unfolding decimal
decimal-ne-nil zero h = cc
decimal-ne-nil (suc n) h =
    let e : decimal_loop (suc n) (suc n) []
        ≡ decimal_loop n (suc n / 10) ((b'0' + suc n % 10) ∷ []) =
      unfold decimal_loop in ground arith in
    decimal_loop-ne-nil n (suc n / 10) (b'0' + suc n % 10) [] (sym e ∙ (sym (decimal-suc n) ∙ h))

-- A number that `itoa` prints is read back by `Atoi`.
pub atoi-decimal : (n : ℕ) → atoi (decimal n) ≡ some n
atoi-decimal zero = unfold atoi decimal digits_value in refl
atoi-decimal (suc n) =
    let (k, value) = decimal_loop-value (suc n) (suc n) [] (omega arith) in
    atoi-digits_value (decimal (suc n)) (decimal-ne-nil (suc n))
    ∙ (rw (decimal-suc n, value 0) (unfold digits_value in ap some (omega arith)))
