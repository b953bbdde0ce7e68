-- ===== src/Tests/Config.antt =====
-- Settings of a worker.
use geofence_location.Prelude.{ℕ, ◌≡◌, refl, List, [], ◌∷◌, sort, decimal, arith}
use geofence_location.Config.{
  split_commas, trim_start, trim_end, read_digits, read_number, range_end, parse_segment,
  add_to_set, add_range, parsed, end_before_start, invalid_segment, add_parts, parse_partition_spec,
  join_partitions,
}
use geofence_location.Config.Printed.{parse_partition_spec-join_partitions}
use geofence_location.Config.Owned.{IsOwned, parse_partition_spec-IsOwned}

unfoldable reads : Unit {0}
unfolding sort split_commas trim_start trim_end read_digits read_number range_end parse_segment
    add_to_set add_range add_parts parse_partition_spec
reads = tt

-- "7, 0-2"
abbrev mixed : List ℕ
mixed = b'7' ∷ b',' ∷ b' ' ∷ b'0' ∷ b'-' ∷ b'2' ∷ []

mixed_read : parse_partition_spec mixed ≡ parsed (0 ∷ 1 ∷ 2 ∷ 7 ∷ [])
unfolding reads
mixed_read = refl

parse_partition_spec-IsOwned_example : IsOwned (split_commas mixed) [] (0 ∷ 1 ∷ 2 ∷ 7 ∷ [])
unfolding reads
parse_partition_spec-IsOwned_example = parse_partition_spec-IsOwned mixed (0 ∷ 1 ∷ 2 ∷ 7 ∷ []) refl

-- "3-1", and "1-"
backward :
    parse_partition_spec (b'3' ∷ b'-' ∷ b'1' ∷ []) ≡ end_before_start (b'3' ∷ b'-' ∷ b'1' ∷ [])
unfolding reads
backward = refl

unfinished : parse_partition_spec (b'1' ∷ b'-' ∷ []) ≡ invalid_segment (b'1' ∷ b'-' ∷ [])
unfolding reads
unfinished = refl

parse_partition_spec-join_partitions_example :
    parse_partition_spec (join_partitions (0 ∷ 2 ∷ 13 ∷ [])) ≡ parsed (0 ∷ 2 ∷ 13 ∷ [])
parse_partition_spec-join_partitions_example =
    parse_partition_spec-join_partitions 0 (2 ∷ 13 ∷ [])
      ((omega arith, (omega arith, tt)), ((omega arith, tt), (tt, tt)))

-- "0, 2, 13"
joined :
    join_partitions (0 ∷ 2 ∷ 13 ∷ []) ≡ b'0' ∷ b',' ∷ b' ' ∷ b'2' ∷ b',' ∷ b' ' ∷ b'1' ∷ b'3' ∷ []
unfolding join_partitions decimal
joined = refl
