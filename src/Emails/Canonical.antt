-- ===== src/Emails/Canonical.antt =====
-- The canonical form is a fixed point of the normalisation.
use kelolakelas_identity_ser.Base.{
  ℕ, ◌≤◌, ◌≡◌, refl, ap, ◌∙◌, Bool, true, false, [], ◌∷◌, map, arith, Text,
}
use kelolakelas_identity_ser.Sql.{Env}
use kelolakelas_identity_ser.Emails.{
  to_lower, is_space, trim_left, trim_right, trim_space, keep_unless_blank, normalize_email,
}

-- What the code relies on of the Unicode tables: lower case is lower, and neither makes nor
-- unmakes white space.
pub record IsUnicode (env : Env) : Type 0 where
  pub lower_twice : (c : ℕ) → 128 ≤ c → to_lower env (env.lower_rune c) ≡ env.lower_rune c
  pub space_lower : (c : ℕ) → 128 ≤ c → is_space env (env.lower_rune c) ≡ env.space_rune c

module _ (env : Env) (u : IsUnicode env) where
  to_lower_idem : (c : ℕ) → to_lower env (to_lower env c) ≡ to_lower env c
  unfolding to_lower
  to_lower_idem c = ground (arith, u.lower_twice c)

  is_space-to_lower : (c : ℕ) → is_space env (to_lower env c) ≡ is_space env c
  unfolding to_lower is_space
  is_space-to_lower c = ground (arith, u.space_lower c)

  map-to_lower_idem : (s : Text) → map (to_lower env) (map (to_lower env) s) ≡ map (to_lower env) s
  map-to_lower_idem [] = refl
  map-to_lower_idem (c ∷ s) = cc (to_lower_idem c, map-to_lower_idem s)

  trim_left-map :
      (s : Text) → trim_left env (map (to_lower env) s) ≡ map (to_lower env) (trim_left env s)
  unfolding trim_left
  trim_left-map [] = refl
  trim_left-map (c ∷ s) = ground (arith, is_space-to_lower c, trim_left-map s)

  keep-map :
      (b : Bool) (c : ℕ) (s : Text)
      → keep_unless_blank b (to_lower env c) (map (to_lower env) s)
        ≡ map (to_lower env) (keep_unless_blank b c s)
  keep-map true c [] = refl
  keep-map true c (d ∷ s) = refl
  keep-map false c s = refl

  trim_right-map :
      (s : Text) → trim_right env (map (to_lower env) s) ≡ map (to_lower env) (trim_right env s)
  unfolding trim_right
  trim_right-map [] = refl
  trim_right-map (c ∷ s) =
      rw (is_space-to_lower c, trim_right-map s) (keep-map (is_space env c) c (trim_right env s))

module _ (env : Env) where
  -- A text that starts with no space, or is empty.
  abbrev Bare : Text → Type 0
  Bare [] = Unit
  Bare (c ∷ s) = is_space env c ≡ false

  trim_left-Bare : (s : Text) → Bare (trim_left env s)
  unfolding trim_left
  trim_left-Bare [] = tt
  trim_left-Bare (c ∷ s) = ground (arith, trim_left-Bare s)

  Bare-trim_left : (s : Text) → Bare s → trim_left env s ≡ s
  unfolding trim_left
  Bare-trim_left [] h = refl
  Bare-trim_left (c ∷ s) h = ground arith

  Bare-trim_right : (s : Text) → Bare s → Bare (trim_right env s)
  unfolding trim_right
  Bare-trim_right [] h = tt
  Bare-trim_right (c ∷ s) h = rw h h

  keep_idem :
      (b : Bool) (c : ℕ) (s : Text)
      → is_space env c ≡ b
      → trim_right env s ≡ s
      → trim_right env (keep_unless_blank b c s) ≡ keep_unless_blank b c s
  unfolding trim_right
  keep_idem true c [] e h = refl
  keep_idem true c (d ∷ s) e h = rw (e, h) refl
  keep_idem false c s e h = rw (e, h) refl

  trim_right_idem : (s : Text) → trim_right env (trim_right env s) ≡ trim_right env s
  unfolding trim_right
  trim_right_idem [] = refl
  trim_right_idem (c ∷ s) = keep_idem (is_space env c) c (trim_right env s) refl (trim_right_idem s)

  trim_space_idem : (s : Text) → trim_space env (trim_space env s) ≡ trim_space env s
  unfolding trim_space
  trim_space_idem s =
      ap (trim_right env) (
        Bare-trim_left (trim_right env (trim_left env s))
          (Bare-trim_right (trim_left env s) (trim_left-Bare s)))
      ∙ trim_right_idem (trim_left env s)

module _ (env : Env) (u : IsUnicode env) where
  trim_space-map :
      (s : Text) → trim_space env (map (to_lower env) s) ≡ map (to_lower env) (trim_space env s)
  unfolding trim_space
  trim_space-map s =
      ap (trim_right env) (trim_left-map env u s) ∙ trim_right-map env u (trim_left env s)

-- Normalising an address twice is normalising it once, given the laws of the Unicode tables: the
-- form that is stored is the form that is looked up.
pub normalize_email_idem :
    (env : Env) (s : Text)
    → IsUnicode env
    → normalize_email env (normalize_email env s) ≡ normalize_email env s
unfolding normalize_email
normalize_email_idem env s u =
    ap (map (to_lower env))
      (trim_space-map env u (trim_space env s) ∙ ap (map (to_lower env)) (trim_space_idem env s))
    ∙ map-to_lower_idem env u (trim_space env s)
