-- ===== src/Database/Results/Kept.antt =====
-- The memory of a `PreparedResultSet`, Src/Common/Database/QueryResult.cpp: no column writes where a value
-- was left.
use game_project_demo.Common.{
  ℕ, suc, ◌+◌, ◌*◌, ◌^◌, ◌≤◌, ◌<◌, ◌≡◌, inr, refl, sym, ap, subst, ◌∙◌, Option, none, some, List,
  [], ◌∷◌, map, Bytes, length, take, length-take, take_all, arith,
}
use native.Mathlib.Nat.{mod-eq_of_lt}
use game_project_demo.Database.Results.Buffered.{
  Cell, Memory, write_at, Column, write_cells, terminated, terminate_cells, RowField, fields_of,
  advanced,
}
use game_project_demo.Database.Results.Block.{
  IsAhead, IsPassed, byte_of, write_at-same, IsLaid, IsLaid-le, HasPlace, outside, before-IsPassed,
  write_cells-other, terminated-other, terminate_cells-other, terminate_cells-same,
  advanced-IsPassed,
}

-- Every byte of a value, at its address, has the property `P`.
abbrev pub Holds : (ℕ → ℕ → Type 0) → Option (ℕ × ℕ) → Option Bytes → Type 0
Holds P none none = Unit
Holds P none (some bytes) = ⊥
Holds P (some v) none = ⊥
Holds P (some (a, n)) (some bytes) =
    (n ≡ length bytes) × ((y : ℕ) → y < length bytes → P (a + y) (byte_of bytes y))

abbrev pub RowHolds : (ℕ → ℕ → Type 0) → List RowField → List (Option Bytes) → Type 0
RowHolds P [] [] = Unit
RowHolds P [] (v ∷ vs) = ⊥
RowHolds P (f ∷ fs) [] = ⊥
RowHolds P (f ∷ fs) (v ∷ vs) = Holds P f.value v × RowHolds P fs vs

module _ (P Q : ℕ → ℕ → Type 0) (f : (a b : ℕ) → P a b → Q a b) where
  Holds-map : (o : Option (ℕ × ℕ)) (v : Option Bytes) → Holds P o v → Holds Q o v
  Holds-map none none h = tt
  Holds-map none (some bytes) h = h
  Holds-map (some p) none h = h
  Holds-map (some (a, n)) (some bytes) (e, h) = (e, λ y l. f (a + y) (byte_of bytes y) (h y l))

  pub RowHolds-map :
      (row : List RowField) (vs : List (Option Bytes)) → RowHolds P row vs → RowHolds Q row vs
  RowHolds-map [] [] h = tt
  RowHolds-map [] (v ∷ vs) h = h
  RowHolds-map (r ∷ row) [] h = h
  RowHolds-map (r ∷ row) (v ∷ vs) (h, hs) = (Holds-map r.value v h, RowHolds-map row vs hs)

-- A value that the library gives whole: it fits the buffer of its column, and its length is told.
abbrev pub IsFit : Column → Cell → Type 0
IsFit c none = Unit
IsFit c (some (n, bytes)) = (n ≡ length bytes) × (n ≤ c.buffer_length) × (n < 2 ^ 32)

abbrev pub Fits : List Column → List Cell → Type 0
Fits [] [] = Unit
Fits [] (v ∷ cells) = ⊥
Fits (c ∷ cs) [] = ⊥
Fits (c ∷ cs) (v ∷ cells) = IsFit c v × Fits cs cells

abbrev pub cell_value : Cell → Option Bytes
cell_value none = none
cell_value (some (n, bytes)) = some bytes

-- The byte is there, no column writes there again, and the address has its place behind `s`.
abbrev pub IsNew : ℕ → List Column → ℕ → Memory → ℕ → ℕ → Type 0
IsNew size cs s m a b = (m a ≡ b) × IsPassed size a cs × ((u : ℕ) × (s ≤ u) × HasPlace size u a)

-- The first column and those behind it.
module _ (size s : ℕ) (c : Column) (t : ℕ) (laid : c.buffer ≡ s + t * size) (cs : List Column)
    (rest : IsLaid size (s + c.buffer_length) cs) (cells : List Cell) where
  room : s + c.buffer_length ≤ size
  room = IsLaid-le size (s + c.buffer_length) cs rest

  behind_passed :
      (c' : Column) (t' a : ℕ)
      → c'.buffer ≡ s + t' * size
      → c'.buffer_length ≡ c.buffer_length
      → (u : ℕ) × (s + c.buffer_length ≤ u) × HasPlace size u a
      → ¬ IsAhead size c' a
  behind_passed c' t' a laid' same (u, behind, place) =
      outside size s u a c' t' (omega (arith, same, room)) laid' place
        (inr (omega (arith, same, behind)))

  head_place : (y : ℕ) → y < c.buffer_length → HasPlace size (s + y) (c.buffer + y)
  head_place y l = (omega (arith, room), (t, omega (arith, laid)))

  own_passed :
      (y : ℕ)
      → y < c.buffer_length
      → ¬ IsAhead size (record c { buffer = c.buffer + size }) (c.buffer + y)
  own_passed y l (k, x, l', e) = omega (arith, room, l, e)

  head-IsNew :
      (m : Memory) (bytes : Bytes) (y : ℕ)
      → length bytes ≤ c.buffer_length
      → y < length bytes
      → IsNew size
          (record c { buffer = c.buffer + size } ∷ advanced size cs cells)
          s
          (terminate_cells cs cells (
            terminated c
              (length bytes)
              (write_cells cs cells (write_at c.buffer (take c.buffer_length bytes) m))))
          (c.buffer + y)
          (byte_of bytes y)
  head-IsNew m bytes y fits l =
      let written = write_at c.buffer (take c.buffer_length bytes) m in
      let place = head_place y (omega (arith, fits, l)) in
      let passed =
        before-IsPassed size (s + c.buffer_length) (s + y) (c.buffer + y) cs rest place
          (omega (arith, fits, l)) in
      (
        terminate_cells-other size (c.buffer + y) cs cells
              (terminated c (length bytes) (write_cells cs cells written)) passed
            ∙ terminated-other c (length bytes) (c.buffer + y) (write_cells cs cells written)
                (λ _ e. omega (arith, l, e))
            ∙ write_cells-other size (c.buffer + y) cs cells written passed
            ∙ write_at-same (take c.buffer_length bytes) c.buffer y m
                (omega (arith, l, fits, length-take c.buffer_length bytes))
            ∙ ap (λ bs. byte_of bs y) (take_all c.buffer_length bytes fits),
        (
          own_passed y (omega (arith, fits, l)),
          advanced-IsPassed size (c.buffer + y) cs cells passed,
        ),
        (s + y, omega arith, place),
      )

  -- What is new behind a column is new with it.
  tail-IsNew :
      (c' : Column) (t' : ℕ) (m m' : Memory)
      → c'.buffer ≡ s + t' * size
      → c'.buffer_length ≡ c.buffer_length
      → ((a : ℕ) → (u : ℕ) × (s + c.buffer_length ≤ u) × HasPlace size u a → m' a ≡ m a)
      → (a b : ℕ) → IsNew size (advanced size cs cells) (s + c.buffer_length) m a b
      → IsNew size (c' ∷ advanced size cs cells) s m' a b
  tail-IsNew c' t' m m' laid' same kept a b (here, passed, (u, behind, place)) = (
    kept a (u, behind, place) ∙ here,
    (behind_passed c' t' a laid' same (u, behind, place), passed),
    (u, omega (arith, behind), place),
  )

  tail-terminated :
      (n a : ℕ) (m : Memory)
      → (u : ℕ) × (s + c.buffer_length ≤ u) × HasPlace size u a
      → terminate_cells cs cells (terminated c n m) a ≡ terminate_cells cs cells m a
  tail-terminated n a m (u, behind, place) = terminate_cells-same a cs cells (terminated c n m) m (
      terminated-other c n a m
        (λ l e. outside size s u a c t room laid place (inr behind) (0, n, l, omega (arith, e))))

pub IsNew-row :
    (size s : ℕ) (cs : List Column) (cells : List Cell) (m : Memory)
    → IsLaid size s cs
    → Fits cs cells
    → RowHolds
        (IsNew size (advanced size cs cells) s (terminate_cells cs cells (write_cells cs cells m)))
        (fields_of cs cells)
        (map cell_value cells)
unfolding advanced terminate_cells write_cells fields_of
IsNew-row size s [] [] m laid fits = tt
IsNew-row size s [] (v ∷ cells) m laid fits = absurd fits
IsNew-row size s (c ∷ cs) [] m laid fits = absurd fits
IsNew-row size s (c ∷ cs) (none ∷ cells) m ((t, laid), rest) (fit, fits) = (
  tt,
  RowHolds-map _ _
      (tail-IsNew size s c t laid cs rest cells c t
        (terminate_cells cs cells (write_cells cs cells m))
        (terminate_cells cs cells (write_cells cs cells m)) laid refl (λ a h. refl))
      (fields_of cs cells) (map cell_value cells)
      (IsNew-row size (s + c.buffer_length) cs cells m rest fits),
)
IsNew-row size s (c ∷ cs) (some (n, bytes) ∷ cells) m ((t, laid), rest) ((e, fit, short), fits) = (
  (
    mod-eq_of_lt short ∙ e,
    λ y l.
        subst
          (λ k.
            IsNew size (record c { buffer = c.buffer + size } ∷ advanced size cs cells) s
              (terminate_cells cs cells (
                terminated c k
                  (write_cells cs cells (write_at c.buffer (take c.buffer_length bytes) m))))
              (c.buffer + y) (byte_of bytes y))
          (sym e) (head-IsNew size s c t laid cs rest cells m bytes y (omega (arith, e, fit)) l),
  ),
  RowHolds-map _ _
      (tail-IsNew size s c t laid cs rest cells (record c { buffer = c.buffer + size }) (suc t) _ _
        (omega (arith, laid)) refl
        (λ a h.
          tail-terminated size s c t laid cs rest cells n a
            (write_cells cs cells (write_at c.buffer (take c.buffer_length bytes) m)) h))
      (fields_of cs cells) (map cell_value cells)
      (IsNew-row size (s + c.buffer_length) cs cells
        (write_at c.buffer (take c.buffer_length bytes) m) rest fits),
)
