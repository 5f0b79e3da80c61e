-- ===== src/ApplyPatch/Tests.antt =====
-- applypatch/applypatch.c: runs on small partitions, and the theorems at them.
use mathlib.Core.Path.{subst}
use screenbox_rockchip_recov.Prelude.{
  ℕ, zero, suc, ◌<◌, ◌≤◌, ◌≡◌, ◌⊎◌, refl, Bool, true, false, [], ◌∷◌, ◌++◌, List, some, none, arith,
  Bool-cases, inl, inr, if◌then◌else◌, length, take, drop, get_elem?, replicate, leb, append-nil,
  append_assoc,
}
use screenbox_rockchip_recov.Prelude.Int.{ℤ, pos, negsuc}
use screenbox_rockchip_recov.Prelude.Bytes.{Bytes, codes, str_eq, starts_with}
use screenbox_rockchip_recov.Patch.{returns}
use screenbox_rockchip_recov.Edify.Functions.Strtol.{
  strtol, read_digits, unsigned_part, after_space,
}
use screenbox_rockchip_recov.Verifier.{Mincrypt}
use screenbox_rockchip_recov.Verifier.Hashing.{Streams}
use screenbox_rockchip_recov.ApplyPatch.Digest.{
  hex_value, parse_digits, parse_sha1, is_match, find_matching_patch, hex_of, AreBytes,
  IsFirstMatch, parse_sha1-hex_of, find_matching_patch-IsFirstMatch,
}
use screenbox_rockchip_recov.ApplyPatch.Check.{
  Files, load_file, load_file_contents, check_cache, applypatch_check, IsChecked,
  applypatch_check-IsChecked,
}
use screenbox_rockchip_recov.ApplyPatch.Sinks.{
  sink_loop, file_sink, Appends, IsWritten, IsComplete, file_sink-IsWritten, MemorySinkInfo,
  memory_sink, IsSink, taken, memory_sink-taken,
}
use screenbox_rockchip_recov.ApplyPatch.Load.{
  Pair, Reader, tokens, count_colons, read_pairs, type_of, read_more, load_pairs, load_sorted,
  load_named, load_partition_contents,
}
use screenbox_rockchip_recov.ApplyPatch.Load.Smallest.{
  AreAscending, IsListed, Sorts, IsSmallestOf, load_partition_contents-IsSmallestOf,
}

abbrev digest : Bytes
digest = 171 ∷ replicate 19 7

replicate-AreBytes : (n b : ℕ) → b < 256 → AreBytes (replicate n b)
replicate-AreBytes zero b h = tt
replicate-AreBytes (suc n) b h = (h, replicate-AreBytes n b h)

digest-AreBytes : AreBytes digest
digest-AreBytes = (omega arith, replicate-AreBytes 19 7 (omega arith))

parse_sha1-hex_of_example :
    (parse_sha1 (hex_of digest) ≡ some digest)
    × ((c : ℕ) (anything : Bytes) → parse_sha1 (hex_of digest ++ (c ∷ anything)) ≡ none)
parse_sha1-hex_of_example = parse_sha1-hex_of digest digest-AreBytes refl

second-IsFirstMatch :
    IsFirstMatch digest
      (codes "x" ∷ hex_of digest ∷ [])
      (find_matching_patch digest (codes "x" ∷ hex_of digest ∷ []))
second-IsFirstMatch = find_matching_patch-IsFirstMatch digest (codes "x" ∷ hex_of digest ∷ [])

upper_case : parse_sha1 (codes "AB" ++ replicate 38 b'0') ≡ some (171 ∷ replicate 19 0)
unfolding parse_sha1 parse_digits hex_value
upper_case = refl

second_matches : find_matching_patch digest (codes "x" ∷ hex_of digest ∷ []) ≡ some 1
unfolding find_matching_patch is_match parse_sha1 parse_digits hex_value str_eq
second_matches = refl

-- A sort, by insertion.
insert : Pair → List Pair → List Pair
insert p [] = p ∷ []
insert p (q ∷ ps) = let further = q ∷ insert p ps in if leb p.0 q.0 then p ∷ q ∷ ps else further

sort : List Pair → List Pair
sort [] = []
sort (p ∷ ps) = insert p (sort ps)

insert-AreAscending :
    (n : ℕ) (p : Pair) (ps : List Pair) → n ≤ p.0 → AreAscending n ps → AreAscending n (insert p ps)
unfolding insert
insert-AreAscending n p [] h up = (h, tt)
insert-AreAscending n p (q ∷ ps) h up = elim (Bool-cases (leb p.0 q.0)) [
  | inl low ↦ rw low (h, (ground arith, up.1))
  | inr high ↦ rw high (up.0, insert-AreAscending q.0 p ps (ground arith) up.1)
]

insert-IsListed : (p : Pair) (ps : List Pair) → IsListed p (insert p ps)
unfolding insert
insert-IsListed p [] = (0, refl)
insert-IsListed p (q ∷ ps) = elim (Bool-cases (leb p.0 q.0)) [
  | inl low ↦ rw low (0, refl)
  | inr high ↦ rw high (let (i, e) = insert-IsListed p ps in (suc i, e))
]

insert_keeps : (p q : Pair) (ps : List Pair) → IsListed q ps → IsListed q (insert p ps)
unfolding insert
insert_keeps p q [] (i, e) = ground arith
insert_keeps p q (r ∷ ps) (i, e) = elim (Bool-cases (leb p.0 r.0)) [
  | inl low ↦ rw low (suc i, e)
  | inr high ↦ rw high (later (insert_keeps p q ps) i e)
]
  where
    later :
        (IsListed q ps → IsListed q (insert p ps))
        → (i : ℕ) → get_elem? (r ∷ ps) i ≡ some q
        → IsListed q (r ∷ insert p ps)
    later k zero e = (0, e)
    later k (suc i) e = let (j, e') = k (i, e) in (suc j, e')

insert_from : (p q : Pair) (ps : List Pair) → IsListed q (insert p ps) → IsListed q (p ∷ ps)
unfolding insert
insert_from p q [] h = h
insert_from p q (r ∷ ps) h = by_order (insert_from p q ps) (leb p.0 r.0) h
  where
    past : IsListed q (p ∷ ps) → IsListed q (p ∷ r ∷ ps)
    past (zero, e) = (0, e)
    past (suc j, e) = (suc (suc j), e)

    later :
        (IsListed q (insert p ps) → IsListed q (p ∷ ps))
        → (i : ℕ) → get_elem? (r ∷ insert p ps) i ≡ some q
        → IsListed q (p ∷ r ∷ ps)
    later k zero e = (1, e)
    later k (suc i) e = past (k (i, e))

    by_order :
        (IsListed q (insert p ps) → IsListed q (p ∷ ps))
        → (b : Bool) → IsListed q (if b then p ∷ r ∷ ps else r ∷ insert p ps)
        → IsListed q (p ∷ r ∷ ps)
    by_order k true h = h
    by_order k false (i, e) = later k i e

sort-AreAscending : (ps : List Pair) → AreAscending 0 (sort ps)
unfolding sort
sort-AreAscending [] = tt
sort-AreAscending (p ∷ ps) = insert-AreAscending 0 p (sort ps) (omega arith) (sort-AreAscending ps)

sort_from : (ps : List Pair) (p : Pair) → IsListed p (sort ps) → IsListed p ps
unfolding sort
sort_from [] p h = h
sort_from (q ∷ ps) p h = past (sort_from ps p) (insert_from q p (sort ps) h)
  where
    past : (IsListed p (sort ps) → IsListed p ps) → IsListed p (q ∷ sort ps) → IsListed p (q ∷ ps)
    past k (zero, e) = (0, e)
    past k (suc i, e) = let (j, e') = k (i, e) in (suc j, e')

sort_to : (ps : List Pair) (p : Pair) → IsListed p ps → IsListed p (sort ps)
unfolding sort
sort_to [] p h = h
sort_to (q ∷ ps) p (zero, e) =
    let same : q ≡ p = ground arith in
    subst (λ r. IsListed r (insert q (sort ps))) same (insert-IsListed q (sort ps))
sort_to (q ∷ ps) p (suc i, e) = insert_keeps q p (sort ps) (sort_to ps p (i, e))

sort-Sorts : Sorts sort
sort-Sorts ps = (sort-AreAscending ps, sort_from ps, sort_to ps)

-- A digest that is the first 20 bytes.
abbrev lib : Mincrypt Bytes Bytes Bytes
lib = record {
  sha_init = [];
  sha_update = λ c b. c ++ b;
  sha_final = λ c. take 20 (c ++ replicate 20 0);
  rsa_num_bytes = 4;
  rsa_verify = λ k s d. false;
}

lib-Streams : Streams lib
lib-Streams = (λ c. append-nil c, λ c a b. append_assoc c a b)

abbrev partition : Reader Bytes
partition = record {
  open_partition = λ type name. returns (9 ∷ 8 ∷ 7 ∷ 6 ∷ []);
  read = λ r n. (take n r, drop n r);
}

-- Three bytes, or two of another digest.
abbrev filename : Bytes
filename =
    codes "MTD:boot:3:090807" ++ (replicate 34 b'0' ++ (codes ":2:0000" ++ replicate 36 b'0'))

abbrev loaded : Bytes × Bytes
loaded = (9 ∷ 8 ∷ 7 ∷ [], 9 ∷ 8 ∷ 7 ∷ replicate 17 0)

loads : load_partition_contents lib partition sort filename ≡ returns loaded
unfolding load_partition_contents load_named load_sorted load_pairs read_more type_of read_pairs
    count_colons tokens strtol read_digits unsigned_part after_space parse_sha1 parse_digits
    hex_value str_eq sort insert
loads = refl

load_partition_contents-IsSmallestOf_example :
    IsSmallestOf lib partition sort lib-Streams filename loaded
load_partition_contents-IsSmallestOf_example =
    load_partition_contents-IsSmallestOf lib partition sort lib-Streams sort-Sorts filename loaded
      loads

-- One file of two bytes.
abbrev files : Files
files = record {
  stat = λ name. some 2;
  fopen = λ name. true;
  fread = λ name n. take n (5 ∷ 4 ∷ []);
}

abbrev wanted : List Bytes
wanted = codes "x" ∷ hex_of (5 ∷ 4 ∷ replicate 18 0) ∷ []

checked : applypatch_check lib partition sort files (codes "/a") wanted ≡ returns true
unfolding applypatch_check check_cache load_file_contents load_file starts_with find_matching_patch
    is_match parse_sha1 parse_digits hex_value str_eq
checked = refl

applypatch_check-IsChecked_example : IsChecked lib partition sort files (codes "/a") wanted true
applypatch_check-IsChecked_example =
    applypatch_check-IsChecked lib partition sort files (codes "/a") wanted checked

-- A file to which each call of `write` appends two bytes at most.
write_two : Bytes → Bytes → ℤ × Bytes
write_two d bytes = (pos (length (take 2 bytes)), d ++ take 2 bytes)

write_two-Appends : Appends write_two (λ d. d)
unfolding write_two
write_two-Appends d [] = (0, omega arith, refl, refl)
write_two-Appends d (a ∷ []) = (1, omega arith, refl, refl)
write_two-Appends d (a ∷ b ∷ bytes) = (2, omega arith, refl, refl)

sunk : file_sink write_two [] (1 ∷ 2 ∷ 3 ∷ []) ≡ (3, 1 ∷ 2 ∷ 3 ∷ [])
unfolding file_sink sink_loop write_two
sunk = refl

file_sink-IsWritten_example :
    IsWritten write_two
      (λ d. d)
      (9 ∷ [])
      (1 ∷ 2 ∷ 3 ∷ [])
      (file_sink write_two (9 ∷ []) (1 ∷ 2 ∷ 3 ∷ []))
    × IsComplete write_two (1 ∷ 2 ∷ 3 ∷ []) (file_sink write_two (9 ∷ []) (1 ∷ 2 ∷ 3 ∷ []))
file_sink-IsWritten_example =
    file_sink-IsWritten write_two (λ d. d) write_two-Appends (9 ∷ []) (1 ∷ 2 ∷ 3 ∷ [])

abbrev half_full : MemorySinkInfo
half_full = record { buffer = 1 ∷ 2 ∷ 0 ∷ 0 ∷ []; size = 4; position = 2 }

half_full-taken :
    IsSink (memory_sink half_full (7 ∷ [])).1
    × ((memory_sink half_full (7 ∷ [])).1.size ≡ 4)
    × ((((memory_sink half_full (7 ∷ [])).0 ≡ pos 1)
          × (taken (memory_sink half_full (7 ∷ [])).1 ≡ 1 ∷ 2 ∷ 7 ∷ []))
        ⊎ (((memory_sink half_full (7 ∷ [])).0 ≡ negsuc 0)
            × ((memory_sink half_full (7 ∷ [])).1 ≡ half_full)
            × (4 < 3)))
half_full-taken = memory_sink-taken half_full (7 ∷ []) (refl, omega arith)
