-- ===== src/Config/Owned.antt =====
-- src/config/worker.config.ts: what an accepted setting names.
use geofence_location.Prelude.{
  ℕ, zero, suc, ◌+◌, ◌-◌, ◌≤◌, ◌≡◌, refl, subst, Bool, false, ◌&&◌, ◌||◌, some, List, [], ◌∷◌, ◌++◌,
  map, ltb, leb, eqb, eqb_iff, contains, contains-sort, sort, sort-IsAscending, any, IsDistinct,
  IsAscending, All, arith, Bool-cases, Option-cases, inl, inr,
}
use geofence_location.Config.{
  split_commas, parse_segment, add_to_set, add_range, parsed, add_parts, parse_partition_spec,
}

-- the number lies between the ends of one of the segments
abbrev pub is_named : List (ℕ × ℕ) → ℕ → Bool
is_named segments n = any (λ ends. leb ends.0 n && leb n ends.1) segments

pub contains-append_one :
    (set : List ℕ) (i n : ℕ) → contains (set ++ i ∷ []) n ≡ (contains set n || eqb i n)
contains-append_one [] i n = ground arith
contains-append_one (x ∷ set) i n = ground (arith, contains-append_one set i n)

IsDistinct-append_one :
    (set : List ℕ) (i : ℕ) → IsDistinct set → contains set i ≡ false → IsDistinct (set ++ i ∷ [])
IsDistinct-append_one [] i h e = (refl, tt)
IsDistinct-append_one (x ∷ set) i h e = (
  ground (arith, contains-append_one set i x, h.0),
  IsDistinct-append_one set i h.1 (ground arith),
)

contains-add_to_set :
    (i : ℕ) (set : List ℕ) (n : ℕ) → contains (add_to_set i set) n ≡ (contains set n || eqb i n)
unfolding add_to_set
contains-add_to_set i set n = ground (arith, contains-append_one set i n, eqb_iff i n)

IsDistinct-add_to_set : (i : ℕ) (set : List ℕ) → IsDistinct set → IsDistinct (add_to_set i set)
unfolding add_to_set
IsDistinct-add_to_set i set h = elim (Bool-cases (contains set i)) [
  | inl there ↦ rw there h
  | inr new ↦ rw new (IsDistinct-append_one set i h new)
]

contains-add_range :
    (from rounds : ℕ) (set : List ℕ) (n : ℕ)
    → contains (add_range from rounds set) n
      ≡ (contains set n || (leb from n && ltb n (from + rounds)))
unfolding add_range
contains-add_range from zero set n = ground arith
contains-add_range from (suc rounds) set n = ground (
  arith,
  contains-add_range (from + 1) rounds (add_to_set from set) n,
  contains-add_to_set from set n,
)

IsDistinct-add_range :
    (from rounds : ℕ) (set : List ℕ) → IsDistinct set → IsDistinct (add_range from rounds set)
unfolding add_range
IsDistinct-add_range from zero set h = h
IsDistinct-add_range from (suc rounds) set h =
    IsDistinct-add_range (from + 1) rounds (add_to_set from set) (IsDistinct-add_to_set from set h)

-- What a setting that is accepted has been read as.
pub record IsOwned (parts : List (List ℕ)) (before : List ℕ) (owned : List ℕ) : Type 0 where
  pub segments : List (ℕ × ℕ)
  pub read : map parse_segment parts ≡ map some segments
  pub forward : All (λ ends. ends.0 ≤ ends.1) segments
  pub ascending : IsAscending owned
  pub members : (n : ℕ) → contains owned n ≡ (contains before n || is_named segments n)

add_parts-IsOwned :
    (parts : List (List ℕ)) (set owned : List ℕ)
    → IsDistinct set
    → add_parts parts set ≡ parsed owned
    → IsOwned parts set owned
unfolding add_parts
add_parts-IsOwned [] set owned h e =
    let same : sort set ≡ owned = ground arith in
    record {
      segments = [];
      read = refl;
      forward = tt;
      ascending = subst IsAscending same (sort-IsAscending set h);
      members = λ n. ground (arith, contains-sort set n);
    }
add_parts-IsOwned (part ∷ parts) set owned h e = elim (Option-cases (parse_segment part)) [
  | inl fails ↦ ground arith
  | inr (ends, there) ↦ elim (Bool-cases (ltb ends.1 ends.0)) [
    | inl backward ↦ ground arith
    | inr forward ↦
        let set' = add_range ends.0 (ends.1 + 1 - ends.0) set in
        let rest =
          add_parts-IsOwned parts set' owned
            (IsDistinct-add_range ends.0 (ends.1 + 1 - ends.0) set h) (ground arith) in
        record {
          segments = ends ∷ rest.segments;
          read = cc (there, rest.read);
          forward = (ground arith, rest.forward);
          ascending = rest.ascending;
          members = λ n.
              ground (arith, rest.members n, contains-add_range ends.0 (ends.1 + 1 - ends.0) set n);
        }
  ]
]

-- A setting that is accepted consists of segments that name one partition or a range which does not
-- run backward, and the worker owns the partitions that some segment names, in ascending order, each
-- once.
pub parse_partition_spec-IsOwned :
    (spec owned : List ℕ)
    → parse_partition_spec spec ≡ parsed owned
    → IsOwned (split_commas spec) [] owned
unfolding parse_partition_spec
parse_partition_spec-IsOwned spec owned e = add_parts-IsOwned (split_commas spec) [] owned tt e
