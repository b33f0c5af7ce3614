-- ===== src/Prelude/Sets.antt =====
-- QSet of identifiers as a list of numbers without order; `insert` keeps one copy.
use Prim.Native.Nat.{ℕ}
use mathlib.Core.Path.{◌≡◌, refl}
use mathlib.Core.Bool.{Bool, false, ◌||◌, not, ◌&&◌}
use mathlib.Core.List.{List, [], ◌∷◌}
use native.Mathlib.Omega.{arith}
use qt_network_protocol.Prelude.Tests.{if◌then◌else◌, ◌==◌}

abbrev pub IdSet : Type 0
IdSet = List ℕ

unfoldable pub member : ℕ → IdSet → Bool
member a [] = false
member a (x ∷ xs) = x == a || member a xs

unfoldable pub set_insert : ℕ → IdSet → IdSet
set_insert a xs = if member a xs then xs else a ∷ xs

unfoldable pub set_remove : ℕ → IdSet → IdSet
set_remove a [] = []
set_remove a (x ∷ xs) = let rest = set_remove a xs in if x == a then rest else x ∷ rest

pub member-nil : (a : ℕ) → member a [] ≡ false
unfolding member
member-nil a = refl

pub member-set_insert :
    (a b : ℕ) (xs : IdSet) → member b (set_insert a xs) ≡ (a == b || member b xs)
unfolding member set_insert
member-set_insert a b xs = ground arith

pub member-set_remove :
    (a b : ℕ) (xs : IdSet) → member b (set_remove a xs) ≡ (not (a == b) && member b xs)
unfolding member set_remove
member-set_remove a b [] = ground arith
member-set_remove a b (x ∷ xs) = ground (arith, member-set_remove a b xs)

pub ruleset set_laws = (member-nil, member-set_insert, member-set_remove)
