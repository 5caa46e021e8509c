-- ===== src/Compound/Examples.antt =====
-- Tests of the compound requests of crates/rustsmb-session/src/compound.rs.
use rustsmb.Base.{ℕ, zero, suc, ◌≡◌, refl, none, some, List, [], ◌∷◌, arith}
use rustsmb.Compound.{
  FileId, CompoundResult, related, related_sentinel, success, failure, success_with_file,
}
use rustsmb.Compound.Context.{last_created}
use rustsmb.Compound.Queue.{CompoundQueue, new, start}
use rustsmb.Compound.Queue.Laws.{IsQueue, new-IsQueue, start-IsQueue}
use rustsmb.Compound.Offsets.{read_u32, offsets_from, parse_compound_offsets}
use rustsmb.Compound.Offsets.Chain.{AreBytes, Chain, parse_compound_offsets-Chain}

-- A create, a failed read, and a close that succeeds.
abbrev results : List CompoundResult
results = success_with_file (record { persistent = 7; volatile = 8 }) ∷ failure 5 ∷ success ∷ []

abbrev sentinel : FileId
sentinel = record { persistent = related_sentinel; volatile = related_sentinel }

created_test : last_created none results ≡ some (record { persistent = 7; volatile = 8 })
unfolding success_with_file failure success
created_test = refl

-- A queue for two compounds, with one.
abbrev one_pending : CompoundQueue
one_pending = (start (new 2) (related 2) 10).0

one_pending-IsQueue : IsQueue one_pending
unfolding new
one_pending-IsQueue = start-IsQueue (new 2) (related 2) 10 (new-IsQueue 2) (omega arith)

-- A message of one header that leads nowhere.
abbrev zeros : ℕ → List ℕ
zeros zero = []
zeros (suc n) = 0 ∷ zeros n

parse_test : parse_compound_offsets (zeros 64) ≡ some (0 ∷ [])
unfolding parse_compound_offsets offsets_from read_u32
parse_test = refl

zeros-AreBytes : (n : ℕ) → AreBytes (zeros n)
zeros-AreBytes zero = tt
zeros-AreBytes (suc n) = (omega arith, zeros-AreBytes n)

parse_compound_offsets-Chain_example :
    (os : List ℕ) × (parse_compound_offsets (zeros 64) ≡ some os) × Chain (zeros 64) 0 os
parse_compound_offsets-Chain_example =
    parse_compound_offsets-Chain (zeros 64) (zeros-AreBytes 64) (omega arith)
