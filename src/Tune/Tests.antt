-- ===== src/Tune/Tests.antt =====
-- A machine of sixteen processors and one GiB, where a float is a number of GiB.
use ripsync.Prelude.{ℕ, ◌≤◌, leb, some}
use ripsync.Tune.{Floats, params, resolve}
use ripsync.Tune.Limits.{Tier, params-resolve-Tier}

abbrev whole : Floats
whole = record { F64 = ℕ; le = leb; two = 2; sixteen = 16 }

params-resolve-Tier_example :
    Tier whole 16
      (some 1)
      (resolve whole 16 (some 1))
      (params (resolve whole 16 (some 1)) 16).threads
    × (1 ≤ (params (resolve whole 16 (some 1)) 16).threads)
params-resolve-Tier_example = params-resolve-Tier whole 16 (some 1)
