-- ===== src/Pram/Calls.antt =====
-- userland-driver/tools/xmit-from-pram.c and recv-to-pram.c, `main`: the calls that open and close.
use nvpkt.Base.{Bool, true, false, Option, none, some, List, [], ◌∷◌}

-- The calls behind the arguments; one that did not give what it was asked for is not an opening.
pub data Call : Type 0 where
  nm_opened opened mapped nm_closed : Call

-- newest first
abbrev pub Log : Type 0
Log = List Call

-- Whether the port is held after a call; `none` for a call that is out of place.
abbrev pub after : Bool → Call → Option Bool
after false nm_opened = some true
after true opened = some true
after true mapped = some true
after true nm_closed = some false
after _ _ = none

unfoldable pub held : Log → Option Bool
held [] = some false
held (c ∷ l) = elim (held l) [ none ↦ none | some h ↦ after h c ]
