-- ===== src/Tests/Fs.antt =====
-- Concrete inputs for the theorems on kernel/fs.
use n00b_os.Prelude.{◌+◌, ◌≡◌, some, none, [], ◌∷◌, ◌++◌, map, arith}
use n00b_os.Fs.PathParser.{parse}
use n00b_os.Fs.PathParser.RoundTrip.{path_of, named, parse-path_of, parse-doubled}

-- The path "1:/bin/sh".
parse-path_of_example :
    parse 2 (path_of 1 (b'b' ∷ (b'i' ∷ (b'n' ∷ []))) ((b's' ∷ (b'h' ∷ [])) ∷ []))
    ≡ some (
        some (record {
          drive_number = 1;
          path = map named ((b'b' ∷ (b'i' ∷ (b'n' ∷ []))) ∷ ((b's' ∷ (b'h' ∷ [])) ∷ []));
        }))
parse-path_of_example =
    parse-path_of 2 1 (b'b' ∷ (b'i' ∷ (b'n' ∷ []))) ((b's' ∷ (b'h' ∷ [])) ∷ []) (omega arith)
      (ground arith) (ground arith) (omega arith) (omega arith)

-- The path "0:/a//b".
parse-doubled_example :
    parse 100 ((48 + 0) ∷ (b':' ∷ (b'/' ∷ ((b'a' ∷ []) ++ b'/' ∷ (b'/' ∷ (b'b' ∷ [])))))) ≡ none
parse-doubled_example =
    parse-doubled 100 0 (b'a' ∷ []) (b'b' ∷ []) (omega arith) (ground arith) (ground arith)
      (omega arith)
