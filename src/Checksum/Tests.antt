-- ===== src/Checksum/Tests.antt =====
-- Runs of the checksum's theorems.
use ripsync.Prelude.{ℕ, ◌≡◌, arith, List, [], ◌∷◌, ◌++◌}
use ripsync.Checksum.{new, roll}
use ripsync.Checksum.Sums.{checksum_of, new-checksum_of}
use ripsync.Checksum.Rolling.{roll-new}

abbrev middle : List ℕ
middle = 1 ∷ 2 ∷ 255 ∷ 4 ∷ 5 ∷ 6 ∷ 7 ∷ 8 ∷ 9 ∷ []

new-checksum_of_example : new (200 ∷ middle) ≡ checksum_of (200 ∷ middle)
new-checksum_of_example = new-checksum_of (200 ∷ middle) (omega arith)

roll-new_example : roll (new (200 ∷ middle)) 200 17 ≡ new (middle ++ (17 ∷ []))
roll-new_example = roll-new 200 17 middle (omega arith) (omega arith)
