-- ===== src/Tests/PathRuns.antt =====
-- The paths "/a", "a" and "//a/b".
use operating_system_pl_nt.Prelude.{◌+◌, ◌≡◌, refl, true, Option, some, [], ◌∷◌, arith}
use operating_system_pl_nt.Directory.{Dir}
use operating_system_pl_nt.Paths.{split_path, Memory}
use operating_system_pl_nt.Paths.Splits.{Splits, Names, split_path-Splits, filesys_absolute}
use operating_system_pl_nt.Paths.Parts.{parts, tokens, get_next_part-token}
use operating_system_pl_nt.Tests.FileRuns.{write_map, fs}

split_path-Splits_example : Splits (47 ∷ 97 ∷ []) (split_path (47 ∷ 97 ∷ []))
split_path-Splits_example = split_path-Splits (47 ∷ 97 ∷ [])

abbrev memory : Memory
memory = record {
  inode = λ n. some (n + 1);
  dir = λ _. true;
  sub_inode = some 9;
  sub_dir = true;
  disk = true;
  file = true;
  junk = [];
  dots = ([], []);
}

-- The working directory is inode 5.
abbrev cwd : Option Dir
cwd = some (record { inode = 5; pos = 0 })

filesys_absolute_example :
    Names write_map cwd memory fs (47 ∷ 97 ∷ []) (97 ∷ [])
    × Names write_map cwd memory fs (97 ∷ []) (97 ∷ [])
filesys_absolute_example = filesys_absolute write_map cwd memory fs 97 [] refl

get_next_part-token_example :
    parts 3 (47 ∷ 47 ∷ 97 ∷ 47 ∷ 98 ∷ []) ≡ tokens 3 (47 ∷ 47 ∷ 97 ∷ 47 ∷ 98 ∷ [])
get_next_part-token_example = get_next_part-token 3 (47 ∷ 47 ∷ 97 ∷ 47 ∷ 98 ∷ []) (
  (omega arith, omega arith),
  (
    (omega arith, omega arith),
    ((omega arith, omega arith), ((omega arith, omega arith), ((omega arith, omega arith), tt))),
  ),
)
