-- ===== src/Proxy/Fallback.antt =====
-- note_locked and fallback of proxy.rs: what the proxy makes of an answer of the node.
use rln_companion.Engine.State
use rln_companion.Proxy.Forward
use rln_companion.Base.{
  String, ◌||◌, Option, none, some, Result, ok, err, if◌then◌else◌, ◌==◌, Eq_ℕ, Eq_String,
}
use rln_companion.Base.Int.{ℤ}
use rln_companion.Engine.State.{Engine}
use rln_companion.Proxy.Forward.{ProxyError, Parts, ProxyResponse, Wire, Proxy, into_response}
use rln_companion.Rln.Client.{RlnErrorBody}
use rln_companion.Store.Types.{NodeState}
use rln_companion.World.{World}

-- `err.name.as_str()`
unfoldable pub named_state : String → Option NodeState
named_state name =
    if name == "LockedNode" || name == "ChangingState"
    then some NodeState.locked
    else if name == "UnlockedNode" || name == "AlreadyUnlocked"
    then some NodeState.unlocked
    else none

module _ {N B : Type 0} (engine : Engine N) (wire : Wire N B) (proxy : Proxy) where
  abbrev state_of_error : Option RlnErrorBody → Option NodeState
  state_of_error none = none
  state_of_error (some e) = named_state e.name

  unfoldable pub noted_state : ProxyResponse → Option NodeState
  unfolding named_state
  noted_state resp = if resp.status == 403 then state_of_error (wire.error_body resp.body) else none

  -- An error of the store is logged and goes no further.
  abbrev pub note : Option NodeState → ℤ → World N → World N
  note none now w = w
  note (some state) now w = (State.set_node_state engine state now w).1

  unfoldable pub note_locked : ProxyResponse → ℤ → World N → World N
  unfolding noted_state State.set_node_state
  note_locked resp now w = note (noted_state resp) now w

  abbrev pub answered : Result ProxyError ProxyResponse → ℤ → World N → ProxyResponse × World N
  answered (ok resp) now w = (resp, note_locked resp now w)
  answered (err e) now w = (into_response wire proxy e, w)

  unfoldable pub fallback : Parts → B → ℤ → World N → ProxyResponse × World N
  unfolding Forward.forward note_locked
  fallback parts b now w =
      let (r, n) = Forward.forward wire proxy parts b w.node in
      answered r now (record w { node = n })
