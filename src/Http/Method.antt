-- ===== src/Http/Method.antt =====
-- Method names in Src/Common/Http/HttpUtil.hpp.
use game_project_demo.Common.{
  ℕ, ◌≡◌, ◌≢◌, ◌↔◌, sym, ◌∙◌, ◌++◌, refl, [], ◌∷◌, ◌==◌, if◌then◌else◌, ltb, Bytes, codes, length,
  same_text, same_text_sound, arith, Bool-cases, inl, inr, ap, ==_iff, ap₂,
}
use game_project_demo.Http.{
  HttpMethod, http_method_to_string, string_to_http_method, method_from, method_if, p_method,
}

-- Every name is read back as its method.
string_to_http_method-to_string :
    (m : HttpMethod) → string_to_http_method (http_method_to_string m) ≡ m
unfolding string_to_http_method http_method_to_string
string_to_http_method-to_string HttpMethod.unknown = refl
string_to_http_method-to_string HttpMethod.delete = refl
string_to_http_method-to_string HttpMethod.get = refl
string_to_http_method-to_string HttpMethod.head = refl
string_to_http_method-to_string HttpMethod.post = refl
string_to_http_method-to_string HttpMethod.put = refl
string_to_http_method-to_string HttpMethod.patch = refl
string_to_http_method-to_string HttpMethod.connect = refl
string_to_http_method-to_string HttpMethod.options = refl

method_if_sound :
    (mtd word : Bytes) (found m : HttpMethod)
    → m ≢ HttpMethod.unknown
    → method_if mtd word found ≡ m
    → (mtd ≡ word) × (found ≡ m)
unfolding method_if
method_if_sound mtd word found m k e = elim (Bool-cases (same_text mtd word)) [
  | inl hit ↦ (same_text_sound mtd word hit, ground arith)
  | inr miss ↦ absurd (ground arith)
]

-- One branch of a `switch`: a text that begins with `c` and goes on as `word`.
branch :
    (c d : ℕ) (mtd word : Bytes) (found m : HttpMethod) (lead : Bytes) (other : HttpMethod)
    → m ≢ HttpMethod.unknown
    → http_method_to_string found ≡ lead ++ d ∷ word
    → (other ≡ m → lead ++ c ∷ mtd ≡ http_method_to_string m)
    → (if c == d then method_if mtd word found else other) ≡ m
    → lead ++ c ∷ mtd ≡ http_method_to_string m
branch c d mtd word found m lead other k w next e = elim (Bool-cases (c == d)) [
  | inl hit ↦
      let (same, is) = method_if_sound mtd word found m k (rw hit at e) in
      ap₂ (λ a b. lead ++ a ∷ b) ((==_iff c d).0 hit) same ∙ sym w ∙ ap http_method_to_string is
  | inr miss ↦ next (rw miss at e)
]

p_method_sound :
    (mtd : Bytes) (m : HttpMethod)
    → m ≢ HttpMethod.unknown
    → p_method mtd ≡ m
    → b'P' ∷ mtd ≡ http_method_to_string m
unfolding p_method http_method_to_string
p_method_sound [] m k e = absurd (k (sym e))
p_method_sound (c ∷ mtd) m k e =
    branch c b'A' mtd (codes "TCH") HttpMethod.patch m (b'P' ∷ []) _ k refl
      (branch c b'O' mtd (codes "ST") HttpMethod.post m (b'P' ∷ []) _ k refl (
        branch c b'U' mtd (codes "T") HttpMethod.put m (b'P' ∷ []) HttpMethod.unknown k refl
          (λ u. absurd (k (sym u)))))
      e

method_from_sound :
    (mtd : Bytes) (m : HttpMethod)
    → m ≢ HttpMethod.unknown
    → method_from mtd ≡ m
    → mtd ≡ http_method_to_string m
unfolding method_from http_method_to_string
method_from_sound [] m k e = absurd (k (sym e))
method_from_sound (c ∷ mtd) m k e =
    branch c b'C' mtd (codes "ONNECT") HttpMethod.connect m [] _ k refl
      (branch c b'D' mtd (codes "ELETE") HttpMethod.delete m [] _ k refl (
        branch c b'G' mtd (codes "ET") HttpMethod.get m [] _ k refl (
          branch c b'H' mtd (codes "EAD") HttpMethod.head m [] _ k refl
            (branch c b'O' mtd (codes "PTIONS") HttpMethod.options m [] _ k refl last))))
      e
  where
    last :
        (if c == b'P' then p_method mtd else HttpMethod.unknown) ≡ m
        → c ∷ mtd ≡ http_method_to_string m
    last f = elim (Bool-cases (c == b'P')) [
      | inl hit ↦ rw ((==_iff c b'P').0 hit) (p_method_sound mtd m k (rw hit at f))
      | inr miss ↦ absurd (k (sym (rw miss at f)))
    ]

-- A text is read as a method, other than UNKNOWN, exactly when it is that method's name.
pub string_to_http_method_iff :
    (s : Bytes) (m : HttpMethod)
    → m ≢ HttpMethod.unknown
    → (string_to_http_method s ≡ m) ↔ (s ≡ http_method_to_string m)
unfolding string_to_http_method
string_to_http_method_iff s m k = (
  λ e. elim (Bool-cases (ltb (length s) 3)) [
    | inl short ↦ absurd (k (sym (rw (short, string_to_http_method) at e)))
    | inr long ↦ method_from_sound s m k (rw (long, string_to_http_method) at e)
  ],
  λ e. rw e (string_to_http_method-to_string m),
)
