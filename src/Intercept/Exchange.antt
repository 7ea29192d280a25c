-- ===== src/Intercept/Exchange.antt =====
-- forward_then of intercept.rs: forward the request, then note what the answer means.
use rln_companion.Proxy.Forward
use rln_companion.Base.{String, Bool, false, List, [], Result, Exec, ok, err, if◌then◌else◌}
use rln_companion.Base.Int.{ℤ}
use rln_companion.Engine.Fault.{EngineError}
use rln_companion.Engine.State.{Engine}
use rln_companion.Proxy.Fallback.{note_locked}
use rln_companion.Proxy.Forward.{
  ProxyError, Parts, ProxyResponse, Wire, Proxy, forward_parts, into_response,
}
use rln_companion.Rln.Client.{is_success}
use rln_companion.World.{World}

pub record Exchange : Type 0 where
  pub req : String
  pub resp : String

pub data HookError : Type 0 where
  request response : HookError
  engine_error : EngineError → HookError

-- What a hook starts and does not wait for: the syncs of assets and the reconcile.
pub data Task : Type 0 where
  asset_sync : List String → Task
  reconcile_task : Task

-- A hook does these last, once nothing can fail any more: it spawns its tasks, and wakes the refresh
-- loop.
pub record Effects : Type 0 where
  pub spawned : List Task
  pub woken : Bool

abbrev pub Hook : Type 0 → Type 0
Hook N = Exchange → Exec (World N) HookError Effects

module _ {N B : Type 0} (engine : Engine N) (wire : Wire N B) (proxy : Proxy) where
  abbrev effects_of : Result HookError Effects → Effects
  effects_of (ok e) = e
  effects_of (err e) = record { spawned = []; woken = false }

  -- The answer of the node, what the hook started, and the world: an error of the hook is logged.
  abbrev pub Outcome : Type 0
  Outcome = ProxyResponse × Effects × World N

  abbrev pub hooked : Hook N → String → ProxyResponse → ℤ → World N → Outcome
  hooked hook text resp now w =
      if is_success resp.status
      then (let (r, w') = hook (record { req = text; resp = resp.body }) w in
          (resp, effects_of r, w'))
      else (resp, record { spawned = []; woken = false }, note_locked engine wire proxy resp now w)

  abbrev pub passed : Hook N → String → Result ProxyError ProxyResponse → ℤ → World N → Outcome
  passed hook text (err e) now w =
      (into_response wire proxy e, record { spawned = []; woken = false }, w)
  passed hook text (ok resp) now w = hooked hook text resp now w

  abbrev pub read_then : Hook N → Parts → Result ProxyError String → ℤ → World N → Outcome
  read_then hook parts (err e) now w =
      (into_response wire proxy e, record { spawned = []; woken = false }, w)
  read_then hook parts (ok text) now w =
      let (r, n) = forward_parts wire proxy parts text w.node in
      passed hook text r now (record w { node = n })

  unfoldable pub forward_then : Hook N → Parts → B → ℤ → World N → Outcome
  unfolding forward_parts note_locked Forward.read_body into_response
  forward_then hook parts b now w = read_then hook parts (Forward.read_body wire proxy b) now w
