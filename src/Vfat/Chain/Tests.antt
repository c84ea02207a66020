-- ===== src/Vfat/Chain/Tests.antt =====
-- The chain theorems at a device with a chain of two clusters.
use epfl_ba6_os.Prelude.{◌≡◌, inr, [], ◌∷◌, arith}
use epfl_ba6_os.Vfat.Sample.{tiny}
use epfl_ba6_os.Vfat.Chain.Walk.{Chain, stop, link, Links, ends, more, walk, ended, walk-Chain}

tiny-Chain : Chain tiny 2 (2 ∷ 3 ∷ [])
tiny-Chain =
    link (omega arith) (omega arith) (omega arith)
      (link (omega arith) (omega arith) (omega arith) (stop (inr (omega arith))))

tiny_links : Links tiny 2 2
tiny_links =
    more (omega arith) (omega arith) (more (omega arith) (omega arith) (ends (omega arith)))

walk-Chain_example : walk 5 tiny ≡ (2 ∷ 3 ∷ [], ended tiny)
walk-Chain_example = walk-Chain 5 tiny tiny-Chain (omega arith)
