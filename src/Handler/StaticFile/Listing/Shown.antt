-- ===== src/Handler/StaticFile/Listing/Shown.antt =====
-- src/handler/StaticFileHandler.cpp: which entries a page lists, and in which order.
use mathlib.Core.List.{Perm}
use mathlib.Core.List.Perm
use mathlib.Core.Bool.{Bool-discrete}
use cpp_reactor.Base.{◌≡◌, Bool, true, false, List, [], ◌∷◌, Bytes, ◌<◌, ◌⊎◌, All}
use cpp_reactor.Handler.StaticFile.{FileSystem, is_denied}

-- A name is not behind another one: at the first byte where they differ its byte is the lesser, or it
-- ends before they differ.
abbrev pub IsNotBehind : Bytes → Bytes → Type 0
IsNotBehind [] t = Unit
IsNotBehind (x ∷ s) [] = ⊥
IsNotBehind (x ∷ s) (y ∷ t) = (x < y) ⊎ ((x ≡ y) × IsNotBehind s t)

-- Directories come first. Between two entries of one kind, their names decide.
abbrev pub Ranked : (is_dir other_is_dir : Bool) → Type 0 → Type 0
Ranked true false Names = Unit
Ranked false true Names = ⊥
Ranked true true Names = Names
Ranked false false Names = Names

module _ {P : Type 0} (fs : FileSystem P) where
  abbrev pub IsInOrder : P → P → Type 0
  IsInOrder a b =
      Ranked (fs.entry_is_directory a) (fs.entry_is_directory b)
        (IsNotBehind (fs.filename a) (fs.filename b))

  -- Each entry is in order with all that stand behind it.
  abbrev pub IsSorted : List P → Type 0
  IsSorted [] = Unit
  IsSorted (x ∷ xs) = All (IsInOrder x) xs × IsSorted xs

  -- Whether an entry is one that the policy does not deny.
  abbrev pub is_allowed? : (root e : P) → Dec (is_denied fs root e ≡ false)
  is_allowed? root e = Bool-discrete (is_denied fs root e) false
