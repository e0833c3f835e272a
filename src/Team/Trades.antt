-- ===== src/Team/Trades.antt =====
-- The exchanges of `give_me_my_pokemons_dude` come to an end.
use tp_so_delibird.Common.{◌⊎◌, ◌≤◌, none, Option, length, suc, true, some, ◌≡◌}
use tp_so_delibird.Wire.Bytes.{Bytes}
use tp_so_delibird.Broker.State.{done, undefined, Outcome, Commons}
use tp_so_delibird.Team.Exchange.{trade, Trade}
use tp_so_delibird.Team.State.{exit, is_status, Double}

module _ (lib : Commons) where
  module _ {F : Type 0} (D : Double F)
      (symmetric : (x y : Bytes) → lib.equals_ignore_case x y ≡ lib.equals_ignore_case y x) where
    -- How an exchange ends: with one text less that remains.
    data Traded (s : Trade F) : Option (Outcome (Trade F)) → Type 0 where
      idle : Traded s none
      null : Traded s (some undefined)
      next :
          (s' : Trade F)
          → suc (length s'.remaining) ≡ length s.remaining
          → Traded s (some (done s'))

    -- How the recursion ends. `null`: the trainer has nothing to give, and a NULL text is read.
    pub data Ended (s : Trade F) (o : Outcome (Trade F)) : Type 0 where
      null_given : o ≡ undefined → Ended s o
      settled :
          (s' : Trade F)
          → o ≡ done s'
          → length s'.remaining ≤ length s.remaining
          → (is_status s'.trainer.status exit ≡ true) ⊎ (trade D lib s' ≡ none)
          → Ended s o
