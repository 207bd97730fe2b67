-- ===== src/Lister/Usernames.antt =====
-- How `parseUsername` reads a username.
use text.Mathlib.Text.{starts_with}
use namespace_lister.Base.{
  ℕ, ◌<◌, ◌+◌, zero, suc, ◌≡◌, ◌↔◌, refl, String, true, List, [], ◌∷◌, length, arith, ok, panic,
  Fault, index_out_of_range, inl, inr, ◌⊎◌,
}
use namespace_lister.Base.Text.{split_on, length-split_on, occurrences}
use namespace_lister.Lister.{index, parse_username, service_account_prefix}

index-panic_iff :
    (xs : List String) (i : ℕ) → (index xs i ≡ panic index_out_of_range) ↔ (length xs < i + 1)
unfolding index
index-panic_iff [] i = ground arith
index-panic_iff (x ∷ xs) zero = ground arith
index-panic_iff (x ∷ xs) (suc i) = ground (arith, index-panic_iff xs i)

index-cases :
    (xs : List String) (i : ℕ)
    → (index xs i ≡ panic index_out_of_range) ⊎ ((x : String) × (index xs i ≡ ok x))
unfolding index
index-cases [] i = inl refl
index-cases (x ∷ xs) zero = inr (x, refl)
index-cases (x ∷ xs) (suc i) = index-cases xs i

-- A username is refused by a panic exactly if it begins as a service account's does and has fewer
-- than three colons.
pub parse_username-panic_iff :
    (u : String)
    → (parse_username u ≡ panic index_out_of_range)
      ↔ ((starts_with u service_account_prefix ≡ true) × (occurrences b':' u < 3))
unfolding parse_username
parse_username-panic_iff u =
    let ss = split_on b':' u in
    ground (
      arith,
      index-cases ss 3,
      index-cases ss 2,
      index-panic_iff ss 3,
      index-panic_iff ss 2,
      length-split_on b':' u,
    )

pub parse_username_faults :
    (u : String) (f : Fault) → parse_username u ≡ panic f → f ≡ index_out_of_range
unfolding parse_username
parse_username_faults u f h =
    let ss = split_on b':' u in ground (arith, index-cases ss 3, index-cases ss 2)
