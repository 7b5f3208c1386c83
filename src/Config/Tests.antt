-- ===== src/Config/Tests.antt =====
-- A list of two peers.
use logship.Prelude.{◌≡◌, refl, arith, some, [], ◌∷◌, FitsInt, Bytes}
use logship.Prelude.Int.{pos}
use logship.Config.{PeerEntry, IsEntry, parse_peers, join_entries, parse_peers-join_entries}

-- There is nothing to trim.
abbrev trim : Bytes → Bytes
trim s = s

abbrev first : PeerEntry
first = record { id = pos 1; addr = 97 ∷ 58 ∷ 49 ∷ [] }

abbrev second : PeerEntry
second = record { id = pos 12; addr = 98 ∷ [] }

first-IsEntry : IsEntry trim first
unfolding FitsInt
first-IsEntry = record {
  fits = omega arith;
  no_comma = (λ e. omega arith, (λ e. omega arith, (λ e. omega arith, tt)));
  trimmed = refl;
}

second-IsEntry : IsEntry trim second
unfolding FitsInt
second-IsEntry = record { fits = omega arith; no_comma = (λ e. omega arith, tt); trimmed = refl }

parse_peers-join_entries_example :
    parse_peers trim (join_entries first (second ∷ [])) ≡ some (first ∷ second ∷ [])
parse_peers-join_entries_example =
    parse_peers-join_entries trim first (second ∷ []) (first-IsEntry, (second-IsEntry, tt)) refl
