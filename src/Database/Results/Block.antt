-- ===== src/Database/Results/Block.antt =====
-- The memory of a `PreparedResultSet`, Src/Common/Database/QueryResult.cpp: what a
-- row writes, and where.
use game_project_demo.Common.{
  ℕ, zero, suc, ◌+◌, ◌*◌, ◌%◌, ◌==◌, ◌≤◌, ◌<◌, ◌≡◌, ◌≢◌, ◌⊎◌, inl, inr, refl, sym, ap, ◌∙◌, Bool,
  true, false, ◌&&◌, none, some, List, [], ◌∷◌, All, Bytes, length, take, length-take, ltb, ltb→lt,
  not_equal, ==_iff, if◌then◌else◌, arith,
}
use native.Mathlib.Nat.{mod-eq_of_lt, add-mul-mod_self_right}
use game_project_demo.Database.Results.Buffered.{
  Cell, Memory, write_byte, write_at, Column, write_cells, is_text, terminated, terminate_cells,
  advanced,
}

-- The addresses that the column comes to write, now or later, for rows of `size` bytes.
abbrev pub IsAhead : ℕ → Column → ℕ → Type 0
IsAhead size c a = (k : ℕ) × (x : ℕ) × (x < c.buffer_length) × (a ≡ c.buffer + k * size + x)

-- No column comes to write the address again.
abbrev pub IsPassed : ℕ → ℕ → List Column → Type 0
IsPassed size a = All (λ c. ¬ IsAhead size c a)

write_byte-other : (a b x : ℕ) (m : Memory) → x ≢ a → write_byte a b m x ≡ m x
unfolding write_byte
write_byte-other a b x m h = rw (not_equal x a h) refl

write_at-other :
    (bs : Bytes) (a x : ℕ) (m : Memory)
    → ((y : ℕ) → y < length bs → x ≢ a + y)
    → write_at a bs m x ≡ m x
unfolding write_at
write_at-other [] a x m h = refl
write_at-other (b ∷ bs) a x m h =
    write_at-other bs (suc a) x (write_byte a b m)
      (λ y l e. h (suc y) (omega arith) (omega (arith, e)))
    ∙ write_byte-other a b x m (λ e. h 0 (omega arith) (omega (arith, e)))

==_true : (a b : ℕ) → a ≡ b → (a == b) ≡ true
==_true a b = (==_iff a b).1

-- A byte of what was written.
abbrev pub byte_of : Bytes → ℕ → ℕ
byte_of [] y = 0
byte_of (b ∷ bs) zero = b
byte_of (b ∷ bs) (suc y) = byte_of bs y

pub write_at-same :
    (bs : Bytes) (a y : ℕ) (m : Memory) → y < length bs → write_at a bs m (a + y) ≡ byte_of bs y
unfolding write_at write_byte
write_at-same [] a y m h = absurd (omega arith)
write_at-same (b ∷ bs) a zero m h =
    write_at-other bs (suc a) (a + 0) (write_byte a b m) (λ y l e. omega (arith, e))
    ∙ rw (==_true (a + 0) a (omega arith)) refl
write_at-same (b ∷ bs) a (suc y) m h =
    ap (write_at (suc a) bs (write_byte a b m)) plus_suc
    ∙ write_at-same bs (suc a) y (write_byte a b m) (omega arith)
  where
    plus_suc : a + suc y ≡ suc a + y
    plus_suc = omega arith

same_residue : (size u v k l : ℕ) → u < size → v < size → u + k * size ≡ v + l * size → u ≡ v
same_residue size u v k l hu hv e =
    sym (mod-eq_of_lt hu)
    ∙ sym (add-mul-mod_self_right u k size)
    ∙ ap (λ a. a % size) e
    ∙ add-mul-mod_self_right v l size
    ∙ mod-eq_of_lt hv

-- The columns lie one behind the other, each some whole rows after its place in the first row.
abbrev pub IsLaid : ℕ → ℕ → List Column → Type 0
IsLaid size s [] = s ≤ size
IsLaid size s (c ∷ cs) =
    ((t : ℕ) × (c.buffer ≡ s + t * size)) × IsLaid size (s + c.buffer_length) cs

pub IsLaid-le : (size s : ℕ) (cs : List Column) → IsLaid size s cs → s ≤ size
IsLaid-le size s [] h = h
IsLaid-le size s (c ∷ cs) (h, hs) = omega (arith, IsLaid-le size (s + c.buffer_length) cs hs)

-- The place of an address in a row.
abbrev pub HasPlace : ℕ → ℕ → ℕ → Type 0
HasPlace size u a = (u < size) × ((k : ℕ) × (a ≡ u + k * size))

pub outside :
    (size s u a : ℕ) (c : Column) (t : ℕ)
    → s + c.buffer_length ≤ size
    → c.buffer ≡ s + t * size
    → HasPlace size u a
    → (u < s) ⊎ (s + c.buffer_length ≤ u)
    → ¬ IsAhead size c a
outside size s u a c t inside laid (hu, (j, place)) apart (k, x, hx, ahead) =
    apart_from apart (same_residue size u (s + x) j (t + k) hu (omega arith) moved)
  where
    moved : u + j * size ≡ s + x + (t + k) * size
    moved = omega (arith, place, laid, ahead)

    apart_from : (u < s) ⊎ (s + c.buffer_length ≤ u) → u ≡ s + x → ⊥
    apart_from (inl before) e = omega arith
    apart_from (inr behind) e = omega arith

-- An address in front of the columns is passed by them.
pub before-IsPassed :
    (size s u a : ℕ) (cs : List Column)
    → IsLaid size s cs
    → HasPlace size u a
    → u < s
    → IsPassed size a cs
before-IsPassed size s u a [] h place before = tt
before-IsPassed size s u a (c ∷ cs) ((t, laid), h) place before = (
  outside size s u a c t (IsLaid-le size (s + c.buffer_length) cs h) laid place (inl before),
  before-IsPassed size (s + c.buffer_length) u a cs h place (omega arith),
)

-- What is passed is left alone.
pub write_cells-other :
    (size a : ℕ) (cs : List Column) (cells : List Cell) (m : Memory)
    → IsPassed size a cs
    → write_cells cs cells m a ≡ m a
unfolding write_cells
write_cells-other size a [] cells m h = refl
write_cells-other size a (c ∷ cs) [] m h = refl
write_cells-other size a (c ∷ cs) (none ∷ cells) m (h, hs) = write_cells-other size a cs cells m hs
write_cells-other size a (c ∷ cs) (some (n, bytes) ∷ cells) m (h, hs) =
    write_cells-other size a cs cells (write_at c.buffer (take c.buffer_length bytes) m) hs
    ∙ write_at-other (take c.buffer_length bytes) c.buffer a m
        (λ y l e. h (0, y, omega (arith, length-take c.buffer_length bytes), omega (arith, e)))

pub terminated-other :
    (c : Column) (n a : ℕ) (m : Memory)
    → (n < c.buffer_length → a ≢ c.buffer + n)
    → terminated c n m a ≡ m a
unfolding terminated
terminated-other c n a m h = go (is_text c.buffer_type) (ltb n c.buffer_length) refl
  where
    go :
        (text short : Bool)
        → ltb n c.buffer_length ≡ short
        → (if text && short then write_byte (c.buffer + n) 0 m else m) a ≡ m a
    go false short e = refl
    go true false e = refl
    go true true e = write_byte-other (c.buffer + n) 0 a m (h (ltb→lt n c.buffer_length e))

pub terminate_cells-other :
    (size a : ℕ) (cs : List Column) (cells : List Cell) (m : Memory)
    → IsPassed size a cs
    → terminate_cells cs cells m a ≡ m a
unfolding terminate_cells
terminate_cells-other size a [] cells m h = refl
terminate_cells-other size a (c ∷ cs) [] m h = refl
terminate_cells-other size a (c ∷ cs) (none ∷ cells) m (h, hs) =
    terminate_cells-other size a cs cells m hs
terminate_cells-other size a (c ∷ cs) (some (n, bytes) ∷ cells) m (h, hs) =
    terminate_cells-other size a cs cells (terminated c n m) hs
    ∙ terminated-other c n a m (λ l e. h (0, n, l, omega (arith, e)))

-- What stands at an address afterwards depends on what stood there.
terminated-same :
    (c : Column) (n a : ℕ) (m m' : Memory) → m a ≡ m' a → terminated c n m a ≡ terminated c n m' a
unfolding terminated write_byte
terminated-same c n a m m' e = go (is_text c.buffer_type && ltb n c.buffer_length)
  where
    at_byte : (b : Bool) → (if b then 0 else m a) ≡ (if b then 0 else m' a)
    at_byte true = refl
    at_byte false = e

    go :
        (b : Bool)
        → (if b then write_byte (c.buffer + n) 0 m else m) a
          ≡ (if b then write_byte (c.buffer + n) 0 m' else m') a
    go true = at_byte (a == c.buffer + n)
    go false = e

pub terminate_cells-same :
    (a : ℕ) (cs : List Column) (cells : List Cell) (m m' : Memory)
    → m a ≡ m' a
    → terminate_cells cs cells m a ≡ terminate_cells cs cells m' a
unfolding terminate_cells
terminate_cells-same a [] cells m m' e = e
terminate_cells-same a (c ∷ cs) [] m m' e = e
terminate_cells-same a (c ∷ cs) (none ∷ cells) m m' e = terminate_cells-same a cs cells m m' e
terminate_cells-same a (c ∷ cs) (some (n, bytes) ∷ cells) m m' e =
    terminate_cells-same a cs cells (terminated c n m) (terminated c n m')
      (terminated-same c n a m m' e)

pub advanced-IsPassed :
    (size a : ℕ) (cs : List Column) (cells : List Cell)
    → IsPassed size a cs
    → IsPassed size a (advanced size cs cells)
unfolding advanced
advanced-IsPassed size a [] cells h = tt
advanced-IsPassed size a (c ∷ cs) [] h = h
advanced-IsPassed size a (c ∷ cs) (none ∷ cells) (h, hs) = (h, advanced-IsPassed size a cs cells hs)
advanced-IsPassed size a (c ∷ cs) (some v ∷ cells) (h, hs) =
    (λ (k, x, l, e). h (suc k, x, l, omega (arith, e)), advanced-IsPassed size a cs cells hs)

pub advanced-IsLaid :
    (size s : ℕ) (cs : List Column) (cells : List Cell)
    → IsLaid size s cs
    → IsLaid size s (advanced size cs cells)
unfolding advanced
advanced-IsLaid size s [] cells h = h
advanced-IsLaid size s (c ∷ cs) [] h = h
advanced-IsLaid size s (c ∷ cs) (none ∷ cells) (h, hs) =
    (h, advanced-IsLaid size (s + c.buffer_length) cs cells hs)
advanced-IsLaid size s (c ∷ cs) (some v ∷ cells) ((t, laid), hs) =
    ((suc t, omega (arith, laid)), advanced-IsLaid size (s + c.buffer_length) cs cells hs)
