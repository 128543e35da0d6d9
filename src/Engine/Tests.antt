-- ===== src/Engine/Tests.antt =====
-- The flags of plotting and mining.
use mass_net_miner.Common.{◌≡◌, true, false, [], ◌∷◌}
use mass_net_miner.Engine.{
  registered, plotting, ready, mining, flag, sf_all, is_none, contains, states,
}
use mass_net_miner.Engine.Flags.{Choice, states-flags_of}

abbrev two : Choice
two = record { of_registered = false; of_plotting = true; of_ready = false; of_mining = true }

states-flags_of_example :
    (states 10 ≡ plotting ∷ mining ∷ [])
    × (is_none 10 ≡ false)
    × (contains sf_all 10 ≡ true)
    × (contains 10 (flag registered) ≡ false)
    × (contains 10 (flag plotting) ≡ true)
    × (contains 10 (flag ready) ≡ false)
    × (contains 10 (flag mining) ≡ true)
unfolding flag
states-flags_of_example = states-flags_of two
