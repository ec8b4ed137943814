-- ===== src/Xml/Reading.antt =====
-- Quoted values read back as they were.
use dial_pass.Prelude.{
  ℕ, ◌≡◌, refl, Bool, true, false, not, ◌&&◌, ◌||◌, none, some, [], ◌∷◌, ◌++◌, append_assoc, ◌==◌,
  if_elim, arith, Bool-cases, inl, inr, ap, ◌∙◌,
}
use dial_pass.Xml.Quote.{
  Text, points, occurs, value_entity, escape_value, quoted, read_more, read_value, read_attribute,
}

is_same : (a b : ℕ) → (a == b) ≡ true → a ≡ b
is_same a b h = ground arith

abbrev Reads : ℕ → ℕ → Text → Text → Type 0
Reads mark c rest e =
    read_value mark none (e ++ rest) ≡ read_more (some c) (read_value mark none rest)

-- A character that is written as it is.
abbrev IsPlain : Bool → ℕ → Type 0
IsPlain quotes c =
    ((c == b'&') ≡ false)
    × ((c == b'<') ≡ false)
    × ((c == 10 || (c == 13 || c == 9)) ≡ false)
    × ((quotes && c == b'"') ≡ false)

value_entity-elim :
    (P : ℕ → Text → Type 0) (quotes : Bool) (c : ℕ)
    → P b'&' (points "&amp;") × P b'>' (points "&gt;") × P b'<' (points "&lt;")
    → P 10 (points "&#10;") × P 13 (points "&#13;") × P 9 (points "&#9;")
    → (quotes ≡ true → P b'"' (points "&quot;"))
    → (IsPlain quotes c → P c (c ∷ []))
    → P c (value_entity quotes c)
value_entity-elim P quotes c (amp, gt, lt) (line, back, tab) quot plain =
    if_elim {A = Text} (P c) (c == b'&') (λ e. rw (is_same c b'&' e) amp)
      (λ n1.
        if_elim {A = Text} (P c) (c == b'>') (λ e. rw (is_same c b'>' e) gt)
          (λ n2.
            if_elim {A = Text} (P c) (c == b'<') (λ e. rw (is_same c b'<' e) lt)
              (λ n3.
                if_elim {A = Text} (P c) (c == 10) (λ e. rw (is_same c 10 e) line)
                  (λ n4.
                    if_elim {A = Text} (P c) (c == 13) (λ e. rw (is_same c 13 e) back)
                      (λ n5.
                        if_elim {A = Text} (P c) (c == 9) (λ e. rw (is_same c 9 e) tab)
                          (λ n6.
                            if_elim {A = Text} (P c) (quotes && c == b'"')
                              (λ e. let q : c ≡ b'"' = ground arith in rw q (quot (ground arith)))
                              (λ n7. plain (n1, n3, rw (n4, n5, n6) refl, n7))))))))

-- What is written for a character reads as it, in double quotes and in single ones.
double-Reads :
    (quotes : Bool) (c : ℕ) (rest : Text)
    → (c == b'"') && not quotes ≡ false
    → Reads b'"' c rest (value_entity quotes c)
unfolding read_value
double-Reads quotes c rest h =
    value_entity-elim (λ d e. Reads b'"' d rest e) quotes c (refl, refl, refl) (refl, refl, refl)
      (λ q. refl)
      (λ (n1, n2, n3, n4). let n5 : (c == b'"') ≡ false = ground arith in rw (n5, n1, n2, n3) refl)

single-Reads :
    (c : ℕ) (rest : Text) → (c == b'\'') ≡ false → Reads b'\'' c rest (value_entity false c)
unfolding read_value
single-Reads c rest h =
    value_entity-elim (λ d e. Reads b'\'' d rest e) false c (refl, refl, refl) (refl, refl, refl)
      (λ q. refl) (λ (n1, n2, n3, n4). rw (h, n1, n2, n3) refl)

double-value :
    (quotes : Bool) (s rest : Text)
    → occurs b'"' s && not quotes ≡ false
    → read_value b'"' none (escape_value quotes s ++ b'"' ∷ rest) ≡ some (s, rest)
unfolding escape_value read_value
double-value quotes [] rest h = refl
double-value quotes (c ∷ s) rest h =
    let tail = escape_value quotes s ++ b'"' ∷ rest in
    rw append_assoc (
      double-Reads quotes c tail (ground arith)
      ∙ ap (read_more (some c)) (double-value quotes s rest (ground arith)))

single-value :
    (s rest : Text)
    → occurs b'\'' s ≡ false
    → read_value b'\'' none (escape_value false s ++ b'\'' ∷ rest) ≡ some (s, rest)
unfolding escape_value read_value
single-value [] rest h = refl
single-value (c ∷ s) rest h =
    let tail = escape_value false s ++ b'\'' ∷ rest in
    rw append_assoc (
      single-Reads c tail (ground arith)
      ∙ ap (read_more (some c)) (single-value s rest (ground arith)))

-- A quoted value reads back as it was, whatever quotes and markup it holds.
pub read_attribute-quoted : (s rest : Text) → read_attribute (quoted s rest) ≡ some (s, rest)
unfolding read_attribute quoted
read_attribute-quoted s rest = elim (Bool-cases (occurs b'"' s)) [
  | inl double ↦ elim (Bool-cases (occurs b'\'' s)) [
    | inl both ↦ rw (double, both) (double-value true s rest (ground arith))
    | inr no_single ↦ rw (double, no_single) (single-value s rest no_single)
  ]
  | inr no_double ↦ rw no_double (double-value false s rest (ground arith))
]
