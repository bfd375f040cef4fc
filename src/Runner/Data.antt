-- ===== src/Runner/Data.antt =====
-- internal/runner/runner.go: the data of a run. `dataPath`, `PutData`, `GetData` and `latestData`; and
-- `ReadOutput` and `WriteOutput` on the files of the guest. The files under the data directory, and
-- those of the guest, are the list of their paths and contents.
pub mod Paths
use masuda.Common.{
  List, [], ◌∷◌, ◌++◌, Option, none, some, Bool, true, false, ◌&&◌, not, if◌then◌else◌, Text, codes,
  same, has_prefix, lookup, insert, text_lt,
}
use mathlib.Core.List.{reverse}
use masuda.Common.{Result, ok, err, ◌>>=◌, ◌>>◌, refuse_if}
use masuda.Config.Names.{valid_occurrence, valid_data_name}

pub data DataError : Type 0 where
  bad_occurrence bad_data_name no_data not_written : DataError

-- `engine.DataRef`; the occurrence is empty for an input of the run.
pub record DataRef : Type 0 where
  pub occurrence : Text
  pub name : Text

abbrev pub Files : Type 0
Files = List (Text × Text)

-- `strings.Contains(s, "..")`.
has_dots : Text → Bool
has_dots [] = false
has_dots (c ∷ s) = if has_prefix (c ∷ s) (codes "..") then true else has_dots s

-- `checkOcc` and `checkName`.
unfoldable pub check_occ : Text → Bool
unfolding has_dots
check_occ occ = valid_occurrence occ && not (has_dots occ)

-- `runInputsDir`.
abbrev pub run_inputs_dir : Text
run_inputs_dir = codes "_run"

unfoldable pub dir_of_ref : Text → Result DataError Text
dir_of_ref [] = ok run_inputs_dir
dir_of_ref (c ∷ occ) = if check_occ (c ∷ occ) then ok (c ∷ occ) else err bad_occurrence

-- `dataPath`, below the data directory.
unfoldable pub data_path : DataRef → Result DataError Text
data_path ref = do
  refuse_if (not (valid_data_name ref.name)) bad_data_name
  dir ← dir_of_ref ref.occurrence
  ok (dir ++ b'/' ∷ ref.name)

-- `PutData`, which writes the file or leaves it as it was.
unfoldable pub put_data : Bool → DataRef → Text → Files → Result DataError Files
put_data written ref content files = do
  p ← data_path ref
  refuse_if (not written) not_written
  ok (insert p content files)

found : Option Text → Result DataError Text
found none = err no_data
found (some b) = ok b

-- `GetData`.
unfoldable pub get_data : DataRef → Files → Result DataError Text
unfolding found
get_data ref files = do p ← data_path ref; found (lookup p files)

insert_name : Text → List Text → List Text
insert_name n [] = n ∷ []
insert_name n (m ∷ ms) = if text_lt m n then m ∷ insert_name n ms else n ∷ m ∷ ms

sorted : List Text → List Text
unfolding insert_name
sorted [] = []
sorted (n ∷ ns) = insert_name n (sorted ns)

occurrences : List Text → List Text
occurrences [] = []
occurrences (d ∷ ds) = if same d run_inputs_dir then occurrences ds else d ∷ occurrences ds

or_else : Option Text → Option Text → Option Text
or_else none later = later
or_else (some b) later = some b

-- The file of the name in the first directory that has it.
first_with : Text → List Text → Files → Option Text
unfolding or_else
first_with name [] files = none
first_with name (d ∷ ds) files =
    or_else (lookup (d ++ b'/' ∷ name) files) (first_with name ds files)

-- `latestData`, from the directories that are there: the last occurrence's, else the run's.
unfoldable pub latest_data : Text → List Text → Files → Option Text
unfolding sorted occurrences first_with
latest_data name dirs files =
    first_with name (reverse (run_inputs_dir ∷ sorted (occurrences dirs))) files

-- `OutDir`.
unfoldable pub out_dir : Text → Text
out_dir occ = codes "/masuda/out/" ++ occ

unfoldable pub output_path : Text → Text → Result DataError Text
output_path occ name = do
  refuse_if (not (check_occ occ)) bad_occurrence
  refuse_if (not (valid_data_name name)) bad_data_name
  ok (out_dir occ ++ b'/' ∷ name)

-- `ReadOutput`, where the guest answers.
unfoldable pub read_output : Text → Text → Files → Result DataError (Option Text)
read_output occ name guest = do p ← output_path occ name; ok (lookup p guest)

-- `WriteOutput`.
unfoldable pub write_output : Bool → Text → Text → Text → Files → Result DataError Files
write_output written occ name content guest = do
  p ← output_path occ name
  refuse_if (not written) not_written
  ok (insert p content guest)
