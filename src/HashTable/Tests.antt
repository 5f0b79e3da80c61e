-- ===== src/HashTable/Tests.antt =====
-- minzip/Hash.c: runs on a small table, and the theorems at them.
use mathlib.Core.Path.{subst}
use screenbox_rockchip_recov.Prelude.{ℕ, ◌≡◌, refl, Bool, true, false, [], ◌∷◌, some, ◌==◌}
use screenbox_rockchip_recov.HashTable.{
  empty, used, HashTable, mz_hash_size, round_up_power2, cleared, probe, free_entry, rehash,
  returns, resize_hash, add_at, mz_hash_table_lookup, mz_hash_table_remove,
}
use screenbox_rockchip_recov.HashTable.Masks.{IsPower, one, twice}
use screenbox_rockchip_recov.HashTable.Sound.{IsSound, Ends, cleared-IsSound}
use screenbox_rockchip_recov.HashTable.Found.{mz_hash_table_lookup_added}
use screenbox_rockchip_recov.HashTable.Operations.{
  mz_hash_table_lookup-Ends, mz_hash_table_remove-Ends,
}

abbrev has_memory : ℕ → Bool
has_memory n = true

abbrev equal : ℕ → ℕ → Bool
equal x y = x == y

sizes : (round_up_power2 5 ≡ 8) × (round_up_power2 8 ≡ 8) × (mz_hash_size 5 ≡ 9)
unfolding round_up_power2 mz_hash_size
sizes = (refl, refl, refl)

four-IsPower : IsPower 4
four-IsPower = twice 4 2 (twice 2 1 (one 1 refl) refl) refl

abbrev none_yet : HashTable ℕ
none_yet = cleared 4

none_yet-IsSound : IsSound none_yet
none_yet-IsSound = cleared-IsSound 4 four-IsPower

-- Two items of the same hash, from the last entry on.
abbrev two : HashTable ℕ
two = record {
  entries = used 7 20 ∷ empty ∷ empty ∷ used 7 10 ∷ [];
  num_entries = 2;
  num_dead_entries = 0;
}

abbrev first_added : HashTable ℕ
first_added = record {
  entries = empty ∷ empty ∷ empty ∷ used 7 10 ∷ [];
  num_entries = 1;
  num_dead_entries = 0;
}

adds_first :
    mz_hash_table_lookup has_memory equal true 7 10 none_yet ≡ returns (some 10) first_added
unfolding mz_hash_table_lookup probe add_at
adds_first = refl

wraps_around : mz_hash_table_lookup has_memory equal true 7 20 first_added ≡ returns (some 20) two
unfolding mz_hash_table_lookup probe add_at
wraps_around = refl

abbrev three : HashTable ℕ
three = record {
  entries = used 7 10 ∷ empty ∷ empty ∷ empty ∷ used 4 30 ∷ empty ∷ empty ∷ used 7 20 ∷ [];
  num_entries = 3;
  num_dead_entries = 0;
}

grows : mz_hash_table_lookup has_memory equal true 4 30 two ≡ returns (some 30) three
unfolding mz_hash_table_lookup probe add_at resize_hash rehash free_entry
grows = refl

first_added-IsSound : IsSound first_added
first_added-IsSound =
    subst (λ c. Ends has_memory none_yet c) adds_first
      (mz_hash_table_lookup-Ends has_memory equal true 7 10 none_yet none_yet-IsSound)

mz_hash_table_lookup-Ends_example :
    Ends has_memory first_added (mz_hash_table_lookup has_memory equal true 7 20 first_added)
mz_hash_table_lookup-Ends_example =
    mz_hash_table_lookup-Ends has_memory equal true 7 20 first_added first_added-IsSound

two-IsSound : IsSound two
two-IsSound =
    subst (λ c. Ends has_memory first_added c) wraps_around
      (mz_hash_table_lookup-Ends has_memory equal true 7 20 first_added first_added-IsSound)

mz_hash_table_remove-Ends_example :
    (removed : Bool) × (t' : HashTable ℕ) × (mz_hash_table_remove has_memory equal 7 10 two
      ≡ returns removed t')
    × IsSound t'
mz_hash_table_remove-Ends_example = mz_hash_table_remove-Ends has_memory equal 7 10 two two-IsSound

mz_hash_table_lookup_added_example :
    (y : ℕ) × (equal y 30 ≡ true)
    × (mz_hash_table_lookup has_memory equal false 4 30 three ≡ returns (some y) three)
mz_hash_table_lookup_added_example =
    mz_hash_table_lookup_added has_memory equal 4 30 false two three (some 30) two-IsSound refl
      grows
