-- ===== src/Export/Archive/Tests.antt =====
-- The archives of export/archive.ts at concrete files.
use teamem_server.Prelude.{ℕ, ◌≡◌, refl, some, Result, ok, err, List, [], ◌∷◌, ◌++◌, arith}
use teamem_server.Concepts.Contract.{codes}
use teamem_server.Export.Archive.{SourceFile, ArchiveError, build_header, build_okf_tar, replicate}
use teamem_server.Export.Archive.Bytes.{slice}
use teamem_server.Export.Archive.Reader.{read_tar}
use teamem_server.Export.Archive.RoundTrip.{read_tar-build_okf_tar}

abbrev index_file : SourceFile
index_file = record { rel_path = codes "index.md"; content = codes "# Concepts" }

-- A path that does not fit the name field.
abbrev long_file : SourceFile
long_file = record { rel_path = codes "decisions/" ++ replicate 120 97; content = codes "body" }

abbrev bytes_of : Result ArchiveError (List ℕ) → List ℕ
bytes_of (ok bytes) = bytes
bytes_of (err e) = []

written :
    build_okf_tar (index_file ∷ long_file ∷ [])
    ≡ ok (bytes_of (build_okf_tar (index_file ∷ long_file ∷ [])))
unfolding build_okf_tar
written = refl

read_tar-build_okf_tar_example :
    read_tar (bytes_of (build_okf_tar (index_file ∷ long_file ∷ [])))
    ≡ some (index_file ∷ long_file ∷ [])
read_tar-build_okf_tar_example =
    read_tar-build_okf_tar (index_file ∷ long_file ∷ [])
      (bytes_of (build_okf_tar (index_file ∷ long_file ∷ []))) written (ground arith)

escapes :
    build_okf_tar (record { rel_path = codes "a/../b"; content = [] } ∷ [])
    ≡ err ArchiveError.unsafe_segment
unfolding build_okf_tar
escapes = refl

twice : build_okf_tar (index_file ∷ index_file ∷ []) ≡ err ArchiveError.duplicate_path
unfolding build_okf_tar
twice = refl

-- The version field of a header is "0" and a NUL in place of "00".
version_test : slice 263 2 (build_header (codes "index.md") 10 b'0') ≡ b'0' ∷ 0 ∷ []
unfolding build_header
version_test = refl
