-- ===== src/Asset/States.antt =====
-- The states of an asset and the table `transitions` of modules/asset/application/lifecycle.ts.
use itcenter.Base.{ℕ, Bool, List, [], ◌∷◌, includes}

pub data AssetState : Type 0 where
  planned purchased received available reserved assigned in_use repair returned retired : AssetState
  disposed : AssetState

abbrev pub state_code : AssetState → ℕ
state_code planned = 0
state_code purchased = 1
state_code received = 2
state_code available = 3
state_code reserved = 4
state_code assigned = 5
state_code in_use = 6
state_code repair = 7
state_code returned = 8
state_code retired = 9
state_code disposed = 10

unfoldable pub transitions : AssetState → List AssetState
transitions planned = purchased ∷ []
transitions purchased = received ∷ []
transitions received = available ∷ []
transitions available = reserved ∷ retired ∷ []
transitions reserved = assigned ∷ []
transitions assigned = in_use ∷ []
transitions in_use = repair ∷ returned ∷ []
transitions repair = in_use ∷ available ∷ []
transitions returned = repair ∷ available ∷ retired ∷ []
transitions retired = disposed ∷ []
transitions disposed = []

unfoldable pub may_move : AssetState → AssetState → Bool
unfolding transitions
may_move from to = includes state_code (transitions from) to

pub data AssignmentState : Type 0 where
  unassigned reserved_for assigned_to pending_return in_transit temporary_loan : AssignmentState

pub data Band : Type 0 where
  low medium high critical unknown : Band
