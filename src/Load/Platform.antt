-- ===== src/Load/Platform.antt =====
-- What the load manager takes from the C library: floating-point numbers and the reading and printing
-- of numbers; and a pointer into a message.
use p.Common.{
  ℕ, Bool, true, false, ◌==◌, if◌then◌else◌, Option, none, some, List, [], ◌∷◌, Result, ok, fault,
}

-- The operations on the numbers of type `double`, the constants of the source among them, and
-- `strtod` and `strtol`, which return the number and what stands behind it. An `int` is its bit
-- pattern; `show_int` prints one.
pub record Platform (D : Type 0) : Type 0 where
  pub zero_d : D
  pub ◌+d◌ : D → D → D
  pub ◌*d◌ : D → D → D
  pub less : D → D → Bool
  pub hundredth : D
  pub aging_factor : D
  pub kept_factor : D
  pub to_int : D → ℕ
  pub strtod : List ℕ → D × List ℕ
  pub strtol : List ℕ → ℕ × List ℕ
  pub show_int : ℕ → List ℕ

-- A pointer into a text whose end is a null byte: the bytes before that, or `none` when the pointer
-- has been moved beyond it.
abbrev pub Cursor : Type 0
Cursor = Option (List ℕ)

-- `msg++`
abbrev pub next : Cursor → Cursor
next none = none
next (some []) = none
next (some (c ∷ text)) = some text

-- Reading through a pointer.
abbrev pub read : Cursor → Result (List ℕ)
read none = fault
read (some text) = ok text

abbrev pub comma : ℕ
comma = 44

-- `strchr (msg, ',')`, and the byte behind it. With no comma a null pointer is taken for a place in
-- the message.
abbrev pub behind_comma : List ℕ → Result (List ℕ)
behind_comma [] = fault
behind_comma (c ∷ text) = if c == comma then ok text else behind_comma text

-- `strncmp (msg, head, n) == 0`, for a head of `n` bytes
abbrev pub starts : List ℕ → List ℕ → Bool
starts [] msg = true
starts (h ∷ head) [] = false
starts (h ∷ head) (c ∷ msg) = if h == c then starts head msg else false
