-- ===== src/Asset/Graph.antt =====
-- The lifecycle graph of an asset: which states the table `transitions` joins.
use itcenter.Base.{◌≡◌, ◌≢◌, true}
use itcenter.Asset.States.{
  AssetState, planned, purchased, received, available, reserved, assigned, in_use, repair, returned,
  retired, disposed, may_move,
}

-- The edges of the diagram.
infix 40 ◌⟶◌ ◌⟶*◌
pub data ◌⟶◌ : AssetState → AssetState → Type 0 where
  buy : planned ⟶ purchased
  receive : purchased ⟶ received
  stock : received ⟶ available
  reserve : available ⟶ reserved
  retire : available ⟶ retired
  assign : reserved ⟶ assigned
  deploy : assigned ⟶ in_use
  break : in_use ⟶ repair
  give_back : in_use ⟶ returned
  fix : repair ⟶ in_use
  restock : repair ⟶ available
  mend : returned ⟶ repair
  reshelve : returned ⟶ available
  retire_returned : returned ⟶ retired
  dispose : retired ⟶ disposed

pub data ◌⟶*◌ : AssetState → AssetState → Type 0 where
  here : {s : AssetState} → s ⟶* s
  go : {s t u : AssetState} → s ⟶ t → t ⟶* u → s ⟶* u

pub may_move-⟶ : (s t : AssetState) → may_move s t ≡ true → s ⟶ t
unfolding may_move
may_move-⟶ planned purchased h = buy
may_move-⟶ purchased received h = receive
may_move-⟶ received available h = stock
may_move-⟶ available reserved h = reserve
may_move-⟶ available retired h = retire
may_move-⟶ reserved assigned h = assign
may_move-⟶ assigned in_use h = deploy
may_move-⟶ in_use repair h = break
may_move-⟶ in_use returned h = give_back
may_move-⟶ repair in_use h = fix
may_move-⟶ repair available h = restock
may_move-⟶ returned repair h = mend
may_move-⟶ returned available h = reshelve
may_move-⟶ returned retired h = retire_returned
may_move-⟶ retired disposed h = dispose
may_move-⟶ _ _ h = cc

-- Every state has a way to disposal.
from_available : available ⟶* disposed
from_available = go retire (go dispose here)

from_in_use : in_use ⟶* disposed
from_in_use = go give_back (go retire_returned (go dispose here))

from_received : received ⟶* disposed
from_received = go stock from_available

pub ⟶*-disposed : (s : AssetState) → s ⟶* disposed
⟶*-disposed planned = go buy (go receive from_received)
⟶*-disposed purchased = go receive from_received
⟶*-disposed received = from_received
⟶*-disposed available = from_available
⟶*-disposed reserved = go assign (go deploy from_in_use)
⟶*-disposed assigned = go deploy from_in_use
⟶*-disposed in_use = from_in_use
⟶*-disposed repair = go restock from_available
⟶*-disposed returned = go reshelve from_available
⟶*-disposed retired = go dispose here
⟶*-disposed disposed = here

-- And no way on.
pub disposed-stuck : {s t : AssetState} → s ⟶ t → s ≢ disposed
disposed-stuck buy = λ e. cc
disposed-stuck receive = λ e. cc
disposed-stuck _ = λ e. cc
