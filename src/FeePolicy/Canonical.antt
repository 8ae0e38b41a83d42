-- ===== src/FeePolicy/Canonical.antt =====
-- ParsePlatformFeePolicyValue and Encode of internal/domain/configuration.go.
use kelolakelas_identity_ser.Base.{
  ℕ, zero, suc, ◌<◌, ◌≡◌, refl, sym, ap, ◌∙◌, Option, none, some, [], ◌∷◌, ◌++◌, if◌then◌else◌,
  ◌==◌, nat_eq, text_eq, Text, arith, ◌↔◌, ℤ, pos, negsuc,
}
use mathlib.Core.List.{append-nil}
use mathlib.Core.Path.{Path}
use kelolakelas_identity_ser.Sql.{Result, ok, err}
use kelolakelas_identity_ser.FeePolicy.{
  parsed_value, checked_value, FeeValue, validate, decimal, format_int, encode, digit_run,
  match_label, match_number, match_policy, parse_digits, parse_fee_value, ◌>>=◌, percent_label,
  fixed_label,
}
use kelolakelas_identity_ser.FeePolicy.Decimals.{
  decimal-match_number, match_number-decimal, parse_digits-decimal,
}

label-append : (label s : Text) → match_label label (label ++ s) ≡ some s
unfolding match_label
label-append [] s = refl
label-append (c ∷ label) s = ground (arith, label-append label s)

label_inverse : (label s rest : Text) → match_label label s ≡ some rest → label ++ rest ≡ s
unfolding match_label
label_inverse [] s rest e = ground (arith, e)
label_inverse (c ∷ label) [] rest e = cc
label_inverse (c ∷ label) (d ∷ s) rest e = ground (arith, e, label_inverse label s rest)

bind-some :
    {A B C : Type 0} (o : Option A) (f : A → Option B) (b : B)
    → (o >>= f) ≡ some b
    → ((a : A) → o ≡ some a → f a ≡ some b → C)
    → C
bind-some none f b e k = cc
bind-some (some a) f b e k = k a refl e

bind-next :
    {A B : Type 0} {o : Option A} (f : A → Option B) {a : A} {r : Option B}
    → o ≡ some a
    → f a ≡ r
    → (o >>= f) ≡ r
bind-next f e h = ap (λ o. o >>= f) e ∙ h

comma : (k : ℕ) (s : Text) → digit_run k (fixed_label ++ s) ≡ ([], fixed_label ++ s)
unfolding digit_run
comma zero s = refl
comma (suc k) s = refl

nothing : (k : ℕ) → digit_run k [] ≡ ([], [])
unfolding digit_run
nothing k = refl

record Matched (text percent fixed : Text) : Type 0 where
  first : decimal (parse_digits 0 percent) ≡ percent
  second : decimal (parse_digits 0 fixed) ≡ fixed
  whole : percent_label ++ (percent ++ (fixed_label ++ fixed)) ≡ text

ended :
    (p f last percent fixed : Text)
    → Path (Option (Text × Text)) (if last == [] then some (p, f) else none) (some (percent, fixed))
    → (p ≡ percent) × (f ≡ fixed) × (last ≡ [])
ended p f [] percent fixed e = (ground (arith, e), ground (arith, e), refl)
ended p f (c ∷ last) percent fixed e = cc

match_policy-Matched :
    (text percent fixed : Text)
    → match_policy text ≡ some (percent, fixed)
    → Matched text percent fixed
unfolding match_policy
match_policy-Matched text percent fixed e =
    bind-some (match_label percent_label text) _ _ e λ numbers en e1.
      bind-some (match_number 3 numbers) _ _ e1 λ (p, rest) ep e2.
        bind-some (match_label fixed_label rest) _ _ e2 λ rest' er e3.
          bind-some (match_number 4 rest') _ _ e3 λ (f, last) ef e4.
            let (hp, hf, hl) = ended p f last percent fixed e4 in
            let (dp, wp) = match_number-decimal 3 numbers p rest ep in
            let (df, wf) = match_number-decimal 4 rest' f last ef in
            record {
              first = rw (← hp) dp;
              second = rw (← hf) df;
              whole =
                  ap (λ xs. percent_label ++ xs)
                    (rw (← hp, ← hf)
                      (ap (λ xs. p ++ (fixed_label ++ xs))
                          (sym (append-nil f) ∙ ap (λ xs. f ++ xs) (sym hl) ∙ wf)
                        ∙ ap (λ xs. p ++ xs) (label_inverse fixed_label rest rest' er)
                        ∙ wp))
                  ∙ label_inverse percent_label text numbers en;
            }

module _ (n m : ℕ) (hn : n < 10000) (hm : m < 100000) where
  match_policy-encode :
      match_policy (percent_label ++ (decimal n ++ (fixed_label ++ decimal m)))
      ≡ some (decimal n, decimal m)
  unfolding match_policy
  match_policy-encode =
      bind-next _ (label-append percent_label (decimal n ++ (fixed_label ++ decimal m))) (
        bind-next _
          (decimal-match_number 3 n (fixed_label ++ decimal m) hn (λ k. comma k (decimal m)))
          (bind-next _ (label-append fixed_label (decimal m)) (
            bind-next _
              (ap (match_number 4) (sym (append-nil (decimal m)))
                ∙ decimal-match_number 4 m [] hm (λ k. nothing k))
              refl)))

abbrev fee : ℤ → ℤ → FeeValue
fee p f = record { percent_bps = p; fixed_fee = f }

encode-parse_fee_value :
    (p f : ℤ) → validate (fee p f) ≡ ok tt → parse_fee_value (encode (fee p f)) ≡ ok (fee p f)
unfolding parse_fee_value encode format_int validate
encode-parse_fee_value (pos n) (pos m) h =
    ap parsed_value (match_policy-encode n m (ground arith) (ground arith))
    ∙ ap (λ v. checked_value v (validate v))
        (fee_eq (parse_digits-decimal n) (parse_digits-decimal m))
    ∙ ap (checked_value (fee (pos n) (pos m))) h
  where
    fee_eq : {a b c d : ℕ} → a ≡ c → b ≡ d → fee (pos a) (pos b) ≡ fee (pos c) (pos d)
    fee_eq e e' = cc (e, e')
encode-parse_fee_value (pos n) (negsuc m) h = ground arith
encode-parse_fee_value (negsuc n) f h = cc

checked-inverse :
    (u v : FeeValue) (r : Result (Unit {0})) → checked_value u r ≡ ok v → (r ≡ ok tt) × (u ≡ v)
checked-inverse u v (ok tt) e = (refl, ground (arith, e))
checked-inverse u v (err x) e = cc

parsed_value-encode :
    (text : Text) (v : FeeValue) (o : Option (Text × Text))
    → match_policy text ≡ o
    → parsed_value o ≡ ok v
    → (validate v ≡ ok tt) × (encode v ≡ text)
unfolding encode format_int
parsed_value-encode text v none m e = cc
parsed_value-encode text v (some (percent, fixed)) m e =
    let value = fee (pos (parse_digits 0 percent)) (pos (parse_digits 0 fixed)) in
    let (valid, same) = checked-inverse value v (validate value) e in
    let matched = match_policy-Matched text percent fixed m in
    rw (← same) (
      valid,
      ap (λ xs. percent_label ++ (xs ++ (fixed_label ++ decimal (parse_digits 0 fixed))))
            matched.first
          ∙ ap (λ xs. percent_label ++ (percent ++ (fixed_label ++ xs))) matched.second
          ∙ matched.whole,
    )

-- A text is accepted, as a value, exactly when the value is within the bounds of the policy and
-- the text is the one that `Encode` gives for it. So what is stored for a value reads back as that
-- value, and no other text does.
pub parse_fee_value-encode :
    (text : Text) (v : FeeValue)
    → (parse_fee_value text ≡ ok v) ↔ ((validate v ≡ ok tt) × (encode v ≡ text))
unfolding parse_fee_value
parse_fee_value-encode text v = (
  λ e. parsed_value-encode text v (match_policy text) refl e,
  λ h. ap parse_fee_value (sym h.1) ∙ encode-parse_fee_value v.percent_bps v.fixed_fee h.0,
)
