-- ===== src/Core/HashMap.antt =====
-- `std::collections::HashMap` as crates/core uses it: entries in the order of iteration, which is
-- unspecified, with at most one entry for a key.
pub mod Laws
pub mod Unique
use sumidero.Prelude.{
  ℕ, ◌≡◌, ◌↔◌, Bool, true, false, Option, none, some, List, [], ◌∷◌, if◌then◌else◌,
}

-- `Hash` and `Eq` of a key type, of which only equality shows.
pub record HashKey (K : Type 0) : Type 0 where
  pub eq : K → K → Bool
  pub eq_iff : (a b : K) → (eq a b ≡ true) ↔ (a ≡ b)

abbrev pub Entries : Type 0 → Type 0 → Type 0
Entries K V = List (K × V)

module _ {K V : Type 0} where
  unfoldable pub get : HashKey K → Entries K V → K → Option V
  get keys [] k = none
  get keys (e ∷ m) k = let rest = get keys m k in if keys.eq e.0 k then some e.1 else rest

  unfoldable pub contains_key : HashKey K → Entries K V → K → Bool
  unfolding get
  contains_key keys m k = elim (get keys m k) [ none ↦ false | some _ ↦ true ]

  unfoldable pub remove : HashKey K → Entries K V → K → Entries K V
  remove keys [] k = []
  remove keys (e ∷ m) k = let rest = remove keys m k in if keys.eq e.0 k then rest else e ∷ rest

  unfoldable pub insert : HashKey K → Entries K V → K → V → Entries K V
  unfolding remove
  insert keys m k v = (k, v) ∷ remove keys m k

  unfoldable pub retain : (V → Bool) → Entries K V → Entries K V
  retain keep [] = []
  retain keep (e ∷ m) = let rest = retain keep m in if keep e.1 then e ∷ rest else rest
