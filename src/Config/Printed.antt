-- ===== src/Config/Printed.antt =====
-- src/config/worker.config.ts: settings that are written from a list of partitions.
use mathlib.Core.List.{append_assoc, append-nil}
use geofence_location.Prelude.{
  ℕ, ◌+◌, ◌-◌, ◌*◌, ◌<◌, ◌≡◌, refl, sym, ap, ◌∙◌, false, some, List, [], ◌∷◌, ◌++◌, map, ltb,
  contains, sort, sort-of_ascending, IsAscending, All, AllDigits, decimal, decimal-AllDigits,
  decimal-cons, subst, value_of, value_of-decimal, arith,
}
use geofence_location.Config.Owned.{contains-append_one}
use geofence_location.Config.{
  split_commas, trim_start, trim_end, read_digits, read_number, range_end, parse_segment,
  add_to_set, add_range, parsed, add_parts, parse_partition_spec, join_partitions,
}

split_commas-digits :
    (ds rest : List ℕ) → AllDigits ds → split_commas (ds ++ b',' ∷ rest) ≡ ds ∷ split_commas rest
unfolding split_commas
split_commas-digits [] rest h = refl
split_commas-digits (d ∷ ds) rest h = ground (arith, split_commas-digits ds rest h.1.1)

split_commas-only_digits : (ds : List ℕ) → AllDigits ds → split_commas ds ≡ ds ∷ []
unfolding split_commas
split_commas-only_digits [] h = refl
split_commas-only_digits (d ∷ ds) h = ground (arith, split_commas-only_digits ds h.1.1)

trim_end-digits : (ds : List ℕ) → AllDigits ds → trim_end ds ≡ ds
unfolding trim_end
trim_end-digits [] h = refl
trim_end-digits (d ∷ ds) h = ground (arith, trim_end-digits ds h.1.1)

pub trim_start-digits : (ds : List ℕ) → AllDigits ds → trim_start ds ≡ ds
unfolding trim_start
trim_start-digits [] h = refl
trim_start-digits (d ∷ ds) h = ground arith

read_digits-digits :
    (ds : List ℕ) (before : ℕ) → AllDigits ds → read_digits before ds ≡ (value_of before ds, [])
unfolding read_digits
read_digits-digits [] before h = refl
read_digits-digits (d ∷ ds) before h =
    ground (arith, read_digits-digits ds (before * 10 + (d - b'0')) h.1.1)

pub read_number-digits :
    (d : ℕ) (ds : List ℕ)
    → AllDigits (d ∷ ds)
    → read_number (d ∷ ds) ≡ some (value_of 0 (d ∷ ds), [])
unfolding read_number
read_number-digits d ds h = ground (arith, read_digits-digits (d ∷ ds) 0 h)

trimmed :
    (d : ℕ) (ds : List ℕ)
    → AllDigits (d ∷ ds)
    → read_number (trim_end (trim_start (d ∷ ds))) ≡ some (value_of 0 (d ∷ ds), [])
trimmed d ds h =
    ap (λ cs. read_number (trim_end cs)) (trim_start-digits (d ∷ ds) h)
    ∙ ap read_number (trim_end-digits (d ∷ ds) h)
    ∙ read_number-digits d ds h

range_of_digits :
    (d : ℕ) (ds : List ℕ)
    → AllDigits (d ∷ ds)
    → parse_segment (d ∷ ds) ≡ some (value_of 0 (d ∷ ds), value_of 0 (d ∷ ds))
unfolding parse_segment range_end
range_of_digits d ds h = rw (parse_segment, trimmed d ds h) refl

-- a segment that is the print of a partition
parse_segment-decimal : (n : ℕ) → parse_segment (decimal n) ≡ some (n, n)
parse_segment-decimal n =
    let (d, (ds, e)) = decimal-cons n in
    let range = range_of_digits d ds (subst AllDigits e (decimal-AllDigits n)) in
    ap parse_segment e
    ∙ range
    ∙ ap (λ m. some (m, m)) (ap (value_of 0) (sym e) ∙ value_of-decimal n)

-- the blank that `join` writes is trimmed
parse_segment-blank : (part : List ℕ) → parse_segment (b' ' ∷ part) ≡ parse_segment part
unfolding parse_segment trim_start
parse_segment-blank part = refl

-- what is set, in the order of the segments
add_parts-step :
    (part : List ℕ) (n : ℕ) (parts : List (List ℕ)) (set : List ℕ)
    → parse_segment part ≡ some (n, n)
    → contains set n ≡ false
    → add_parts (part ∷ parts) set ≡ add_parts parts (set ++ n ∷ [])
unfolding add_parts
add_parts-step part n parts set e new =
    let one_round : n + 1 - n ≡ 1 = omega arith in
    let range : add_range n (n + 1 - n) set ≡ set ++ n ∷ [] =
      rw one_round (unfold add_range add_to_set in rw new refl) in
    let not_backward : ltb n n ≡ false = ground arith in
    rw (add_parts, e, not_backward) (ap (add_parts parts) range)

abbrev behind_blank : ℕ → List ℕ
behind_blank n = b' ' ∷ decimal n

split_commas-join_partitions :
    (p : ℕ) (ps : List ℕ)
    → split_commas (join_partitions (p ∷ ps)) ≡ decimal p ∷ map behind_blank ps
unfolding join_partitions split_commas
split_commas-join_partitions p [] = split_commas-only_digits (decimal p) (decimal-AllDigits p)
split_commas-join_partitions p (q ∷ ps) =
    split_commas-digits (decimal p) (b' ' ∷ join_partitions (q ∷ ps)) (decimal-AllDigits p)
    ∙ ap (λ parts. decimal p ∷ parts) (rw (split_commas-join_partitions q ps) refl)

-- the partitions are new to the set, and each is named once
abbrev IsFresh : List ℕ → List ℕ → Type 0
IsFresh set [] = Unit
IsFresh set (p ∷ ps) = (contains set p ≡ false) × IsFresh (set ++ p ∷ []) ps

add_parts-decimals :
    (ps set : List ℕ)
    → IsFresh set ps
    → add_parts (map behind_blank ps) set ≡ parsed (sort (set ++ ps))
add_parts-decimals [] set h = unfold add_parts in ap (λ s. parsed (sort s)) (sym (append-nil set))
add_parts-decimals (p ∷ ps) set h =
    add_parts-step (behind_blank p) p (map behind_blank ps) set
      (parse_segment-blank (decimal p) ∙ parse_segment-decimal p) h.0
    ∙ add_parts-decimals ps (set ++ p ∷ []) h.1
    ∙ ap (λ s. parsed (sort s)) (append_assoc set (p ∷ []) ps)

IsFresh-of_ascending :
    (set ps : List ℕ) → All (λ p. contains set p ≡ false) ps → IsAscending ps → IsFresh set ps
IsFresh-of_ascending set [] new h = tt
IsFresh-of_ascending set (p ∷ ps) new h =
    (new.0, IsFresh-of_ascending (set ++ p ∷ []) ps (still_new ps new.1 h.0) h.1)
  where
    still_new :
        (qs : List ℕ)
        → All (λ q. contains set q ≡ false) qs
        → All (λ q. p < q) qs
        → All (λ q. contains (set ++ p ∷ []) q ≡ false) qs
    still_new [] new above = tt
    still_new (q ∷ qs) new above =
        (ground (arith, contains-append_one set p q, new.0, above.0), still_new qs new.1 above.1)

none_set : (ps : List ℕ) → All (λ p. contains [] p ≡ false) ps
none_set [] = tt
none_set (p ∷ ps) = (refl, none_set ps)

-- The list of partitions that a worker logs, if it was given as the setting, is read back as these
-- partitions, for every ascending list of at least one partition.
pub parse_partition_spec-join_partitions :
    (p : ℕ) (ps : List ℕ)
    → IsAscending (p ∷ ps)
    → parse_partition_spec (join_partitions (p ∷ ps)) ≡ parsed (p ∷ ps)
parse_partition_spec-join_partitions p ps h =
    unfold parse_partition_spec in
    ap (λ parts. add_parts parts []) (split_commas-join_partitions p ps)
    ∙ add_parts-step (decimal p) p (map behind_blank ps) [] (parse_segment-decimal p) refl
    ∙ add_parts-decimals ps (p ∷ []) (IsFresh-of_ascending [] (p ∷ ps) (none_set (p ∷ ps)) h).1
    ∙ ap parsed (sort-of_ascending (p ∷ ps) h)
