-- ===== src/Database/Results/Shown.antt =====
-- What the fields of a `PreparedResultSet`, Src/Common/Database/QueryResult.cpp, show of the memory.
use game_project_demo.Common.{
  ℕ, zero, suc, ◌+◌, ◌<◌, ◌≡◌, refl, ap, ap₂, ◌∙◌, Option, none, some, List, [], ◌∷◌, ◌++◌, map,
  Bytes, length, arith,
}
use game_project_demo.Database.Results.{Row}
use game_project_demo.Database.Results.Buffered.{Memory, RowField}
use game_project_demo.Database.Results.Block.{byte_of}
use game_project_demo.Database.Results.Kept.{Holds, RowHolds, RowHolds-map}

-- What a field shows: the bytes from its pointer on.
abbrev pub bytes_at : Memory → ℕ → ℕ → Bytes
bytes_at m a zero = []
bytes_at m a (suc n) = m a ∷ bytes_at m (suc a) n

abbrev pub shown : Memory → Option (ℕ × ℕ) → Option Bytes
shown m none = none
shown m (some (a, n)) = some (bytes_at m a n)

abbrev pub shown_row : Memory → List RowField → Row
shown_row m [] = []
shown_row m (f ∷ fs) = shown m f.value ∷ shown_row m fs

abbrev pub RowsHold : (ℕ → ℕ → Type 0) → List (List RowField) → List Row → Type 0
RowsHold P [] [] = Unit
RowsHold P [] (v ∷ vs) = ⊥
RowsHold P (r ∷ rows) [] = ⊥
RowsHold P (r ∷ rows) (v ∷ vs) = RowHolds P r v × RowsHold P rows vs

pub RowsHold-map :
    (P Q : ℕ → ℕ → Type 0)
    → ((a b : ℕ) → P a b → Q a b)
    → (rows : List (List RowField)) (vs : List Row) → RowsHold P rows vs
    → RowsHold Q rows vs
RowsHold-map P Q f [] [] h = tt
RowsHold-map P Q f [] (v ∷ vs) h = h
RowsHold-map P Q f (r ∷ rows) [] h = h
RowsHold-map P Q f (r ∷ rows) (v ∷ vs) (h, hs) =
    (RowHolds-map P Q f r v h, RowsHold-map P Q f rows vs hs)

pub RowsHold-append :
    (P : ℕ → ℕ → Type 0) (rows : List (List RowField)) (vs : List Row) (r : List RowField) (v : Row)
    → RowsHold P rows vs
    → RowHolds P r v
    → RowsHold P (rows ++ r ∷ []) (vs ++ v ∷ [])
RowsHold-append P [] [] r v h k = (k, tt)
RowsHold-append P [] (v' ∷ vs) r v h k = absurd h
RowsHold-append P (r' ∷ rows) [] r v h k = absurd h
RowsHold-append P (r' ∷ rows) (v' ∷ vs) r v (h, hs) k = (h, RowsHold-append P rows vs r v hs k)

module _ (m : Memory) where
  shown_bytes :
      (bs : Bytes) (a : ℕ)
      → ((y : ℕ) → y < length bs → m (a + y) ≡ byte_of bs y)
      → bytes_at m a (length bs) ≡ bs
  shown_bytes [] a h = refl
  shown_bytes (b ∷ bs) a h =
      ap₂ ◌∷◌ (ap m (plus_zero a) ∙ h 0 (omega arith))
        (shown_bytes bs (suc a) (λ y l. ap m (plus_suc a y) ∙ h (suc y) (omega arith)))
    where
      plus_zero : (n : ℕ) → n ≡ n + 0
      plus_zero n = omega arith

      plus_suc : (n k : ℕ) → suc n + k ≡ n + suc k
      plus_suc n k = omega arith

  shown_value : (o : Option (ℕ × ℕ)) (v : Option Bytes) → Holds (λ a b. m a ≡ b) o v → shown m o ≡ v
  shown_value none none h = refl
  shown_value none (some bs) h = absurd h
  shown_value (some p) none h = absurd h
  shown_value (some (a, n)) (some bs) (e, h) =
      ap (λ k. some (bytes_at m a k)) e ∙ ap some (shown_bytes bs a h)

  shown_values :
      (row : List RowField) (v : Row) → RowHolds (λ a b. m a ≡ b) row v → shown_row m row ≡ v
  shown_values [] [] h = refl
  shown_values [] (v ∷ vs) h = absurd h
  shown_values (f ∷ fs) [] h = absurd h
  shown_values (f ∷ fs) (v ∷ vs) (h, hs) = ap₂ ◌∷◌ (shown_value f.value v h) (shown_values fs vs hs)

  pub shown_rows :
      (rows : List (List RowField)) (vs : List Row)
      → RowsHold (λ a b. m a ≡ b) rows vs
      → map (shown_row m) rows ≡ vs
  shown_rows [] [] h = refl
  shown_rows [] (v ∷ vs) h = absurd h
  shown_rows (r ∷ rows) [] h = absurd h
  shown_rows (r ∷ rows) (v ∷ vs) (h, hs) = ap₂ ◌∷◌ (shown_values r v h) (shown_rows rows vs hs)
