-- ===== src/Util/Texts.antt =====
-- Comparing texts without regard to case, and flags as text, in Src/Common/Util/Util.hpp.
use game_project_demo.Common.{
  ℕ, ◌≡◌, ◌↔◌, refl, sym, ◌∙◌, ap₂, Bool, true, false, some, [], ◌∷◌, map, ==_iff, Bytes, codes,
  same_text, same_text_iff, arith, cons-injective, Bool-cases, inl, inr, ◌<◌,
}
use game_project_demo.Util.{to_lower, string_equal, bool_from_string, bool_to_string}

lower-string_equal : (s t : Bytes) → map to_lower s ≡ map to_lower t → string_equal s t ≡ true
unfolding string_equal
lower-string_equal [] [] e = refl
lower-string_equal [] (b ∷ bs) e = cc
lower-string_equal (a ∷ s) [] e = cc
lower-string_equal (a ∷ s) (b ∷ t) e =
    let (head, rest) = cons-injective e in
    rw ((==_iff (to_lower a) (to_lower b)).1 head, lower-string_equal s t rest)

string_equal-lower : (s t : Bytes) → string_equal s t ≡ true → map to_lower s ≡ map to_lower t
unfolding string_equal
string_equal-lower [] [] e = refl
string_equal-lower [] (b ∷ bs) e = cc
string_equal-lower (a ∷ s) [] e = cc
string_equal-lower (a ∷ s) (b ∷ t) e =
    ap₂ ◌∷◌ (ground arith) (string_equal-lower s t (ground arith))

-- `StringEqual` holds exactly of texts that are the same once every letter is in lower case. So it
-- is an equivalence, and texts of different lengths are never equal.
pub string_equal_iff : (s t : Bytes) → (string_equal s t ≡ true) ↔ (map to_lower s ≡ map to_lower t)
string_equal_iff s t = (string_equal-lower s t, lower-string_equal s t)

-- A strict flag is read from "1" and "0", as `ToString` writes them, and from no other text.
bool_from_string-strict :
    (s : Bytes) (b : Bool) → (bool_from_string true s ≡ some b) ↔ (s ≡ bool_to_string b)
unfolding bool_from_string bool_to_string
bool_from_string-strict s true = (λ e. ground (arith, same_text_iff s (codes "1")), λ e. rw e refl)
bool_from_string-strict s false = (λ e. ground (arith, same_text_iff s (codes "0")), λ e. rw e refl)

one_char :
    (d : ℕ) (s t : Bytes)
    → d < b'A'
    → map to_lower s ≡ map to_lower t
    → same_text s (d ∷ []) ≡ same_text t (d ∷ [])
unfolding same_text to_lower
one_char d [] [] h e = refl
one_char d [] (b ∷ t) h e = cc
one_char d (a ∷ s) [] h e = cc
one_char d (a ∷ []) (b ∷ []) h e = ground arith
one_char d (a ∷ []) (b ∷ b' ∷ t) h e = cc
one_char d (a ∷ a' ∷ s) (b ∷ []) h e = cc
one_char d (a ∷ a' ∷ s) (b ∷ b' ∷ t) h e = ground arith

same_word : (s t k : Bytes) → map to_lower s ≡ map to_lower t → string_equal s k ≡ string_equal t k
same_word s t k e = elim (Bool-cases (string_equal s k)) [
  | inl hit ↦ hit ∙ sym (lower-string_equal t k (sym e ∙ string_equal-lower s k hit))
  | inr miss ↦ elim (Bool-cases (string_equal t k)) [
    | inl hit ↦ lower-string_equal s k (e ∙ string_equal-lower t k hit) ∙ sym hit
    | inr miss' ↦ miss ∙ sym miss'
  ]
]

-- A lenient flag does not depend on the case of the letters.
bool_from_string-lenient :
    (s t : Bytes) → string_equal s t ≡ true → bool_from_string false s ≡ bool_from_string false t
unfolding bool_from_string
bool_from_string-lenient s t h =
    let e = string_equal-lower s t h in
    rw
      (
        one_char b'1' s t (omega arith) e,
        one_char b'0' s t (omega arith) e,
        same_word s t (codes "y") e,
        same_word s t (codes "on") e,
        same_word s t (codes "yes") e,
        same_word s t (codes "n") e,
        same_word s t (codes "off") e,
        same_word s t (codes "no") e,
      )
      refl
