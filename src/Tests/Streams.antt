-- ===== src/Tests/Streams.antt =====
-- Records of two bytes, from chunks of one and four bytes.
use raw_ipa.Prelude.{refl, [], ◌∷◌, some, none, arith}
use raw_ipa.Ff.PrimeField.Bytes.{from_le_bytes}
use raw_ipa.Helpers.Stream.Deque.{BufDeque, arrived, read_bytes}
use raw_ipa.Helpers.Stream.Deque.Laws.{Reads, read_bytes-Reads}
use raw_ipa.Helpers.Stream.Records.{Stream}
use raw_ipa.Helpers.Stream.Records.Collect.{Collected, enough, collect-Records}

abbrev cut : BufDeque
cut = record { buffered_size = 5; buffered = (1 ∷ []) ∷ (2 ∷ 3 ∷ 4 ∷ 5 ∷ []) ∷ [] }

read_bytes-Reads_example : Reads 3 cut (read_bytes 3 cut)
read_bytes-Reads_example = read_bytes-Reads 3 cut refl

abbrev brings_one : Stream
brings_one = none ∷ some (arrived (6 ∷ [])) ∷ []

collect-Records_example :
    Collected 2 from_le_bytes (enough 2 from_le_bytes cut brings_one) cut brings_one
collect-Records_example =
    collect-Records 2 from_le_bytes (enough 2 from_le_bytes cut brings_one) cut brings_one
      (omega arith) refl (omega arith)
