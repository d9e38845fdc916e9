-- ===== src/Samples/Codecs.antt =====
-- The theorems on caches and on the lines of entries, at concrete inputs.
use reflake.Prelude.{
  Str, ℕ, List, [], ◌∷◌, map, Option, none, some, ◌≡◌, refl, lit, list_eq, nat_eq, arith,
}
use reflake.Prelude.Dict.{Dict, get}
use reflake.Domain.{Result, ok, raise, unknown_commit}
use reflake.Cache.{load_cached, read_cached, run}
use reflake.Cache.Correct.{IsCache, IsFetched, IsRead, load_cached-run, read_cached-run}
use reflake.Pruning.{ℤ}
use reflake.Trees.Entry.{Entry, EntryKind}
use reflake.Trees.Codec.{Json, is_entry, serialize, parse}
use reflake.Trees.Codec.Round.{kept, parse-serialize}
use reflake.Trees.Codec.Valid.{IsValid, parse-IsValid}
use reflake.Trees.Codec.Print.{line, serialize-parse}

abbrev numbers : Dict Str ℕ
numbers = (lit "a", 1) ∷ (lit "b", 2) ∷ []

abbrev fetch : Str → Result (Option ℕ)
fetch key = ok (get numbers key)

abbrev read : Str → Result ℕ
read key = elim (get numbers key) [ none ↦ raise (unknown_commit key) | some n ↦ ok n ]

abbrev asked : List Str
asked = lit "a" ∷ lit "b" ∷ lit "a" ∷ lit "c" ∷ []

load_cached-run_example :
    ((run (load_cached fetch 1) [] asked).0 ≡ map fetch asked)
    × IsCache 1 (IsFetched 1 fetch) (run (load_cached fetch 1) [] asked).1
load_cached-run_example = load_cached-run 1 fetch [] asked (tt, omega arith)

read_cached-run_example :
    ((run (read_cached read 1) [] asked).0 ≡ map read asked)
    × IsCache 1 (IsRead 1 read) (run (read_cached read 1) [] asked).1
read_cached-run_example = read_cached-run 1 read [] asked (tt, omega arith)

abbrev digest : Str
digest = lit "0123456789abcdef0123456789abcdef0123456789abcdef0123456789abcdef"

abbrev pointer : Entry
pointer = record {
  path = lit "a/b";
  kind = EntryKind.mp;
  hash = digest;
  size = 3;
  mtime_ns = 4;
  source_uri = some (lit "file:///x");
  footer = some digest;
  source_etag = some (lit "e");
}

abbrev str_other : Json → Str
str_other v = lit "None"

abbrev int_other : Json → Option ℤ
int_other v = none

parse-serialize_example : parse str_other int_other (serialize pointer) ≡ ok (kept pointer)
unfolding is_entry list_eq nat_eq
parse-serialize_example = parse-serialize str_other int_other pointer refl

parse-IsValid_example : IsValid pointer
unfolding is_entry list_eq nat_eq
parse-IsValid_example =
    parse-IsValid str_other int_other (serialize pointer) pointer
      (parse-serialize str_other int_other pointer refl)

abbrev pointer_fields : Option (ℕ × ℕ × List Str)
pointer_fields = some (3, 4, lit "file:///x" ∷ digest ∷ lit "e" ∷ [])

serialize-parse_example : serialize pointer ≡ line (lit "mp") (lit "a/b") digest pointer_fields
unfolding is_entry serialize list_eq nat_eq
serialize-parse_example =
    serialize-parse str_other int_other (lit "mp") (lit "a/b") digest pointer_fields pointer
      (parse-serialize str_other int_other pointer refl) (λ s. absurd (cc s))
