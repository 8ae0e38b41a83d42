-- ===== src/FeePolicy/Decimals.antt =====
-- Formatting and matching of numbers, for internal/domain/configuration.go.
use kelolakelas_identity_ser.Base.{
  Bool-cases, if_both, length, ◌≢◌, inl, inr, ℕ, zero, suc, ◌+◌, ◌-◌, ◌*◌, ◌/◌, ◌%◌, ◌≤◌, ◌<◌, ◌≡◌,
  refl, ap, ◌∙◌, true, some, [], ◌∷◌, ◌++◌, ltb, ◌==◌, nat_eq, Text, arith, All,
}
use mathlib.Core.List.{append-nil}
use mathlib.Core.Path.{subst}
use kelolakelas_identity_ser.FeePolicy.{
  emit, decimal, is_digit, digit_run, match_number, parse_digits,
}

-- Enough fuel: the result does not depend on it.
emit-fuel : (f g n : ℕ) (out : Text) → n < f → n < g → emit f n out ≡ emit g n out
unfolding emit
emit-fuel zero g n out hf hg = absurd (omega arith)
emit-fuel (suc f) zero n out hf hg = absurd (omega arith)
emit-fuel (suc f) (suc g) n out hf hg = ground (
  arith,
  λ (p : 10 ≤ n). emit-fuel f g (n / 10) ((b'0' + n % 10) ∷ out) (omega arith) (omega arith),
)

emit_one : (f n : ℕ) (out : Text) → n < 10 → emit (suc f) n out ≡ (b'0' + n) ∷ out
unfolding emit
emit_one f n out h = ground arith

emit_more :
    (n : ℕ) (out : Text)
    → 10 ≤ n
    → emit (suc n) n out ≡ emit (suc (n / 10)) (n / 10) ((b'0' + n % 10) ∷ out)
unfolding emit
emit_more n out h =
    ground (
      arith,
      emit-fuel n (suc (n / 10)) (n / 10) ((b'0' + n % 10) ∷ out) (omega arith) (omega arith),
    )

digit_above : (n c : ℕ) → is_digit c ≡ true → (n * 10 + (c - b'0')) / 10 ≡ n
digit_above n c d = ground arith

digit_below : (n c : ℕ) → is_digit c ≡ true → b'0' + (n * 10 + (c - b'0')) % 10 ≡ c
digit_below n c d = ground arith

emit_step :
    (n c : ℕ) (out : Text)
    → 0 < n
    → is_digit c ≡ true
    → emit (suc (n * 10 + (c - b'0'))) (n * 10 + (c - b'0')) out ≡ emit (suc n) n (c ∷ out)
emit_step n c out h d =
    emit_more (n * 10 + (c - b'0')) out (omega arith)
    ∙ ap (λ x. emit (suc x) x ((b'0' + (n * 10 + (c - b'0')) % 10) ∷ out)) (digit_above n c d)
    ∙ ap (λ x. emit (suc n) n (x ∷ out)) (digit_below n c d)

-- The digits of a number that was read digit by digit.
emit-parse_digits :
    (n : ℕ) (ds out : Text)
    → 0 < n
    → All (λ c. is_digit c ≡ true) ds
    → emit (suc (parse_digits n ds)) (parse_digits n ds) out ≡ emit (suc n) n (ds ++ out)
unfolding parse_digits
emit-parse_digits n [] out h ok = refl
emit-parse_digits n (c ∷ ds) out h ok =
    emit-parse_digits (n * 10 + (c - b'0')) ds out (omega arith) ok.1
    ∙ emit_step n c (ds ++ out) h ok.0

-- What is formatted reads back.
parse_digits-emit :
    (f n : ℕ) (out : Text) → n < f → parse_digits 0 (emit f n out) ≡ parse_digits n out
unfolding emit parse_digits
parse_digits-emit zero n out h = absurd (omega arith)
parse_digits-emit (suc f) n out h =
    ground
      (arith, λ (p : 10 ≤ n). parse_digits-emit f (n / 10) ((b'0' + n % 10) ∷ out) (omega arith))

abbrev bound : ℕ → ℕ
bound zero = 10
bound (suc k) = 10 * bound k

abbrev Digits : Text → Type 0
Digits = All (λ c. is_digit c ≡ true)

-- A digit that is not zero, and at most `k` digits after it.
abbrev Leading : ℕ → Text → Type 0
Leading k [] = ⊥
Leading k (c ∷ ds) = (is_digit c ≡ true) × (c ≢ b'0') × Digits ds × (length ds ≤ k)

shift : (k n : ℕ) → suc k + n ≡ k + suc n
shift k n = omega arith

emit-Leading :
    (f n k : ℕ) (out : Text)
    → 0 < n
    → n < f
    → n < bound k
    → Digits out
    → Leading (k + length out) (emit f n out)
unfolding emit
emit-Leading zero n k out p h b d = absurd (omega arith)
emit-Leading (suc f) n zero out p h b d =
    if_both (Leading (0 + length out)) (ltb n 10) _ _
      (λ q. (ground arith, ground arith, d, omega arith)) (λ q. absurd (ground arith))
emit-Leading (suc f) n (suc k) out p h b d =
    if_both (Leading (suc k + length out)) (ltb n 10) _ _
      (λ q. (ground arith, ground arith, d, omega arith))
      (λ q. rw (shift k (length out)) (
        emit-Leading f (n / 10) k ((b'0' + n % 10) ∷ out) (ground arith) (ground arith)
          (ground arith) (ground arith, d)))

digit_run-append :
    (k : ℕ) (ds rest : Text)
    → Digits ds
    → length ds ≤ k
    → ((j : ℕ) → digit_run j rest ≡ ([], rest))
    → digit_run k (ds ++ rest) ≡ (ds, rest)
unfolding digit_run
digit_run-append k [] rest d h r = r k
digit_run-append zero (c ∷ ds) rest d h r = absurd (omega arith)
digit_run-append (suc k) (c ∷ ds) rest d h r =
    ground (arith, d.0, digit_run-append k ds rest d.1 (omega arith) r)

record Run (k : ℕ) (s : Text) (r : Text × Text) : Type 0 where
  digits : Digits r.0
  short : length r.0 ≤ k
  whole : r.0 ++ r.1 ≡ s

suc_le : {m n : ℕ} → m ≤ n → suc m ≤ suc n
suc_le h = omega arith

digit_run-Run : (k : ℕ) (s : Text) → Run k s (digit_run k s)
unfolding digit_run
digit_run-Run k [] = record { digits = tt; short = omega arith; whole = refl }
digit_run-Run zero (c ∷ s) = record { digits = tt; short = omega arith; whole = refl }
digit_run-Run (suc k) (c ∷ s) =
    let r = digit_run-Run k s in
    if_both (Run (suc k) (c ∷ s)) (is_digit c) _ _
      (λ q. record {
        digits = (q, r.digits);
        short = suc_le r.short;
        whole = ap (λ xs. c ∷ xs) r.whole;
      })
      (λ q. record { digits = tt; short = omega arith; whole = refl })

-- No digit stands at the front.
abbrev pub Stops : Text → Type 0
Stops rest = (k : ℕ) → digit_run k rest ≡ ([], rest)

Leading-match_number :
    (k : ℕ) (t rest : Text) → Leading k t → Stops rest → match_number k (t ++ rest) ≡ some (t, rest)
unfolding match_number
Leading-match_number k [] rest l stops = elim l [ ]
Leading-match_number k (c ∷ ds) rest l stops =
    ground (arith, l.0, l.1, digit_run-append k ds rest l.2 l.3 stops)

decimal-Leading : (k n : ℕ) → 0 < n → n < bound k → Leading k (decimal n)
unfolding decimal
decimal-Leading k n p b =
    subst (λ m. Leading m (emit (suc n) n [])) (plus_zero k)
      (emit-Leading (suc n) n k [] p (omega arith) b tt)
  where
    plus_zero : (k : ℕ) → k + 0 ≡ k
    plus_zero k = omega arith

-- What the pattern of a number matches is what is formatted.
pub decimal-match_number :
    (k n : ℕ) (rest : Text)
    → n < bound k
    → Stops rest
    → match_number k (decimal n ++ rest) ≡ some (decimal n, rest)
unfolding match_number decimal emit
decimal-match_number k zero rest b stops = refl
decimal-match_number k (suc n) rest b stops =
    Leading-match_number k (decimal (suc n)) rest (decimal-Leading k (suc n) (omega arith) b) stops

numeral :
    (c : ℕ) (ds : Text)
    → is_digit c ≡ true
    → c ≢ b'0'
    → Digits ds
    → decimal (parse_digits 0 (c ∷ ds)) ≡ c ∷ ds
unfolding decimal parse_digits
numeral c ds d z a =
    emit-parse_digits (0 * 10 + (c - b'0')) ds [] (ground arith) a
    ∙ emit_one (0 * 10 + (c - b'0')) (0 * 10 + (c - b'0')) (ds ++ []) (ground arith)
    ∙ ap (λ xs. (b'0' + (0 * 10 + (c - b'0'))) ∷ xs) (append-nil ds)
    ∙ ap (λ x. x ∷ ds) (ground arith)

zero_text : decimal (parse_digits 0 (b'0' ∷ [])) ≡ b'0' ∷ []
unfolding decimal parse_digits emit
zero_text = refl

matched :
    (k c : ℕ) (s t rest : Text)
    → is_digit c ≡ true
    → c ≢ b'0'
    → c ∷ (digit_run k s).0 ≡ t
    → (digit_run k s).1 ≡ rest
    → (decimal (parse_digits 0 t) ≡ t) × (t ++ rest ≡ c ∷ s)
matched k c s t rest d z et er =
    let r = digit_run-Run k s in
    rw (← et, ← er) (numeral c (digit_run k s).0 d z r.digits, ap (λ xs. c ∷ xs) r.whole)

-- What is matched is the formatted number, and what follows is the rest.
pub match_number-decimal :
    (k : ℕ) (s t rest : Text)
    → match_number k s ≡ some (t, rest)
    → (decimal (parse_digits 0 t) ≡ t) × (t ++ rest ≡ s)
unfolding match_number
match_number-decimal k [] t rest e = cc
match_number-decimal k (c ∷ s) t rest e = elim (Bool-cases (c == b'0')) [
  | inl z ↦ ground (arith, e, zero_text)
  | inr z ↦ elim (Bool-cases (is_digit c)) [
    | inl d ↦ matched k c s t rest d (ground arith) (ground (arith, e)) (ground (arith, e))
    | inr d ↦ ground (arith, e)
  ]
]

pub parse_digits-decimal : (n : ℕ) → parse_digits 0 (decimal n) ≡ n
unfolding decimal parse_digits
parse_digits-decimal n = parse_digits-emit (suc n) n [] (omega arith)
