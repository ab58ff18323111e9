-- ===== src/App/Validation/Email.antt =====
-- What `validateEmail` accepts, said without a pattern.
use between_us.Prelude.{
  ℕ, ◌≤◌, ◌≡◌, refl, sym, ap, ◌∙◌, ◌↔◌, Bool, true, [], ◌∷◌, ◌++◌, length, length-append, All,
  arith,
}
use mathlib.Core.Path.{subst}
use between_us.App.Regex.{Text, Item, accepts, at_end, match_then, matches, one_then, repeat_then}
use between_us.App.Regex.Laws.{repeat_then_sound, repeat_then_complete}
use between_us.App.Validation.{local_char, at_sign, domain_char, full_stop, letter, validate_email}
use between_us.App.Validation.Laws.{Accepts, repeat_at_end, repeat_to_end}

pub record IsEmail (s : Text) : Type 0 where
  pub local : Text
  pub domain : Text
  pub top : Text
  pub whole : s ≡ local ++ (b'@' ∷ (domain ++ (b'.' ∷ top)))
  pub local_chars : All (Accepts local_char) local
  pub domain_chars : All (Accepts domain_char) domain
  pub top_letters : All (Accepts letter) top
  pub some_local : 1 ≤ length local
  pub some_domain : 1 ≤ length domain
  pub top_at_least : 2 ≤ length top
  pub top_at_most : length top ≤ 64

-- One character behind which the pattern goes on.
record Starts (c : ℕ) (k : Text → Bool) (s : Text) : Type 0 where
  rest : Text
  whole : s ≡ c ∷ rest
  continued : k rest ≡ true

at_sign_sound : (k : Text → Bool) (s : Text) → one_then at_sign k s ≡ true → Starts b'@' k s
unfolding one_then accepts
at_sign_sound k [] h = cc
at_sign_sound k (c ∷ s) h =
    let same : c ≡ b'@' = ground arith in
    record { rest = s; whole = ap (λ (x : ℕ). x ∷ s) same; continued = ground arith }

full_stop_sound : (k : Text → Bool) (s : Text) → one_then full_stop k s ≡ true → Starts b'.' k s
unfolding one_then accepts
full_stop_sound k [] h = cc
full_stop_sound k (c ∷ s) h =
    let same : c ≡ b'.' = ground arith in
    record { rest = s; whole = ap (λ (x : ℕ). x ∷ s) same; continued = ground arith }

at_sign_complete : (k : Text → Bool) (s : Text) → k s ≡ true → one_then at_sign k (b'@' ∷ s) ≡ true
unfolding one_then accepts
at_sign_complete k s h = h

full_stop_complete :
    (k : Text → Bool) (s : Text) → k s ≡ true → one_then full_stop k (b'.' ∷ s) ≡ true
unfolding one_then accepts
full_stop_complete k s h = h

-- A class with no upper bound, at the front of a text.
repeated_complete :
    (p : Item) (k : Text → Bool) (front rest : Text)
    → All (Accepts p) front
    → 1 ≤ length front
    → k rest ≡ true
    → repeat_then p 1 (length (front ++ rest)) k (front ++ rest) ≡ true
repeated_complete p k front rest all some_front h =
    repeat_then_complete p 1 (length (front ++ rest)) k front rest all some_front
      (omega (arith, length-append front rest)) h

-- The pattern behind the local part, behind the sign and behind the domain.
abbrev dot_top : Text → Bool
dot_top = one_then full_stop (repeat_then letter 2 64 at_end)

abbrev domain_top : Text → Bool
domain_top t = repeat_then domain_char 1 (length t) dot_top t

abbrev whole_email : Text → Bool
whole_email s = repeat_then local_char 1 (length s) (one_then at_sign domain_top) s

email_parts : (s : Text) → validate_email s ≡ whole_email s
unfolding validate_email matches match_then
email_parts s = refl

-- `validateEmail` accepts exactly the texts `local@domain.top` where the parts are of their classes,
-- the first two are not empty and the last has 2 to 64 letters.
pub validate_email_iff : (s : Text) → (validate_email s ≡ true) ↔ IsEmail s
validate_email_iff s = (λ h. sound (sym (email_parts s) ∙ h), λ e. email_parts s ∙ complete e)
  where
    sound : whole_email s ≡ true → IsEmail s
    sound h =
        let l = repeat_then_sound local_char 1 (length s) _ s h in
        let a = at_sign_sound domain_top l.rest l.continued in
        let d = repeat_then_sound domain_char 1 (length a.rest) dot_top a.rest a.continued in
        let f = full_stop_sound _ d.rest d.continued in
        let (letters, at_least, at_most) = repeat_at_end letter 2 64 f.rest f.continued in
        record {
          local = l.front;
          domain = d.front;
          top = f.rest;
          whole =
              l.whole
              ∙ ap (λ t. l.front ++ t)
                  (a.whole ∙ ap (λ t. b'@' ∷ t) (d.whole ∙ ap (λ t. d.front ++ t) f.whole));
          local_chars = l.accepted;
          domain_chars = d.accepted;
          top_letters = letters;
          some_local = l.at_least;
          some_domain = d.at_least;
          top_at_least = at_least;
          top_at_most = at_most;
        }

    complete : IsEmail s → whole_email s ≡ true
    complete e =
        let letters = repeat_to_end letter 2 64 e.top e.top_letters e.top_at_least e.top_at_most in
        let dot_ok = full_stop_complete (repeat_then letter 2 64 at_end) e.top letters in
        let domain_ok =
          repeated_complete domain_char dot_top e.domain (b'.' ∷ e.top) e.domain_chars e.some_domain
            dot_ok in
        let rest = e.domain ++ (b'.' ∷ e.top) in
        let at_ok = at_sign_complete domain_top rest domain_ok in
        subst (λ t. whole_email t ≡ true) (sym e.whole)
          (repeated_complete local_char (one_then at_sign domain_top) e.local (b'@' ∷ rest)
            e.local_chars e.some_local at_ok)
