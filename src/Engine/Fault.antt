-- ===== src/Engine/Fault.antt =====
-- The errors of engine.rs, and which of them mean that the node is locked or away.
use rln_companion.Base.{String, ◌&&◌, Option, none, some, if◌then◌else◌, ◌==◌, Eq_ℕ, Eq_String}
use rln_companion.Rln.Types.{RlnError, cannot_fail, api, transport, decode}
use rln_companion.Store.Types.{StoreError}
use rln_companion.World.{SyncError, payload}

pub data EngineError : Type 0 where
  sync : SyncError → EngineError
  store : StoreError → EngineError
  rln : RlnError → EngineError
  misconfigured : String → EngineError

unfoldable pub auth_fault : RlnError → EngineError
auth_fault (api code name message) =
    if code == 401
    then misconfigured "node requires a Biscuit token: set rln.token"
    else if code == 403 && name == "Forbidden"
    then misconfigured
        "rln.token lacks the rights the companion needs (admin, or custom with /refreshtransfers, /failtransfers, /listtransfers, /listassets, /nodeinfo, /networkinfo)"
    else rln (api code name message)
auth_fault RlnError.locked = rln RlnError.locked
auth_fault cannot_fail = rln cannot_fail
auth_fault transport = rln transport
auth_fault decode = rln decode

pub data Fault : Type 0 where
  locked unreachable : Fault

abbrev pub rln_fault : RlnError → Option Fault
rln_fault RlnError.locked = some Fault.locked
rln_fault transport = some unreachable
rln_fault cannot_fail = none
rln_fault (api code name message) = none
rln_fault decode = none

unfoldable pub fault : EngineError → Option Fault
fault (rln r) = rln_fault r
fault (sync (SyncError.rln r)) = rln_fault r
fault (sync (SyncError.store e)) = none
fault (sync payload) = none
fault (store e) = none
fault (misconfigured text) = none
