-- ===== src/Loop/Map.antt =====
-- `channelMap_` of include/core/EventLoop.hpp as an association list.
use cpp_reactor.Base.{
  ◌+◌, ◌≡◌, refl, Option, none, some, List, [], ◌∷◌, ℤ, same_fd, same_fd_iff, if◌then◌else◌, arith,
  length,
}

module _ {V : Type 0} where
  unfoldable pub lookup : ℤ → List (ℤ × V) → Option V
  lookup k [] = none
  lookup k ((j, v) ∷ m) = if same_fd j k then some v else lookup k m

  unfoldable pub insert : ℤ → V → List (ℤ × V) → List (ℤ × V)
  insert k v m = (k, v) ∷ m

  unfoldable pub erase : ℤ → List (ℤ × V) → List (ℤ × V)
  erase k [] = []
  erase k ((j, v) ∷ m) = if same_fd j k then erase k m else (j, v) ∷ erase k m

  pub lookup-insert :
      (k j : ℤ) (v : V) (m : List (ℤ × V))
      → lookup j (insert k v m) ≡ (if same_fd k j then some v else lookup j m)
  unfolding lookup insert
  lookup-insert k j v m = refl

  pub lookup-erase :
      (k j : ℤ) (m : List (ℤ × V))
      → lookup j (erase k m) ≡ (if same_fd k j then none else lookup j m)
  unfolding lookup erase
  lookup-erase k j [] = ground arith
  lookup-erase k j ((i, v) ∷ m) =
      ground (arith, same_fd_iff i k, same_fd_iff i j, same_fd_iff k j, lookup-erase k j m)

  -- Each key stands once.
  unfoldable pub IsMap : List (ℤ × V) → Type 0
  unfolding lookup
  IsMap [] = Unit
  IsMap ((k, v) ∷ m) = (lookup k m ≡ none) × IsMap m

  pub erase-IsMap : (k : ℤ) (m : List (ℤ × V)) → IsMap m → IsMap (erase k m)
  unfolding IsMap lookup erase
  erase-IsMap k [] h = h
  erase-IsMap k ((i, v) ∷ m) h =
      ground (arith, same_fd_iff i k, same_fd_iff k i, lookup-erase k i m, h.0, erase-IsMap k m h.1)

  pub erase_absent : (k : ℤ) (m : List (ℤ × V)) → lookup k m ≡ none → erase k m ≡ m
  unfolding lookup erase
  erase_absent k [] h = refl
  erase_absent k ((i, v) ∷ m) h = ground (arith, erase_absent k m)

  -- Erasing a key of a map removes one entry.
  pub length-erase :
      (k : ℤ) (v : V) (m : List (ℤ × V))
      → IsMap m
      → lookup k m ≡ some v
      → length (erase k m) + 1 ≡ length m
  unfolding IsMap lookup erase
  length-erase k v [] u h = absurd (ground arith)
  length-erase k v ((i, w) ∷ m) u h =
      ground (arith, same_fd_iff i k, u.0, erase_absent k m, length-erase k v m u.1)
