-- ===== src/Intercept/Transparent.antt =====
-- The hooks do not show in what the client is answered.
use rln_companion.Proxy.Forward
use rln_companion.Proxy.Fallback.{answered, fallback}
use rln_companion.Base.{String, ◌≡◌, refl, inl, inr, Result, lift, ◌>>=◌, ok, err, Bool-cases}
use rln_companion.Base.Int.{ℤ}
use rln_companion.Engine.State.{Engine}
use rln_companion.Intercept.Exchange.{Hook, passed, read_then, forward_then}
use rln_companion.Proxy.Forward.{ProxyError, Parts, ProxyResponse, Wire, Proxy, forward_parts}
use rln_companion.Rln.Client.{is_success}
use rln_companion.World.{World}

module _ {N B : Type 0} (engine : Engine N) (wire : Wire N B) (proxy : Proxy) where
  passed_same :
      (hook : Hook N) (text : String) (r : Result ProxyError ProxyResponse) (now now' : ℤ)
      (w : World N)
      → (passed engine wire proxy hook text r now w).0 ≡ (answered engine wire proxy r now' w).0
  passed_same hook text (err e) now now' w = refl
  passed_same hook text (ok resp) now now' w = elim (Bool-cases (is_success resp.status)) [
    | inl success ↦ rw success refl
    | inr failure ↦ rw failure refl
  ]

  -- An intercepted request is answered with what the plain proxy would have answered, whatever its
  -- hook does and whether it fails.
  pub forward_then-fallback :
      (hook : Hook N) (parts : Parts) (b : B) (now now' : ℤ) (w : World N)
      → (forward_then engine wire proxy hook parts b now w).0
        ≡ (fallback engine wire proxy parts b now' w).0
  unfolding forward_then fallback
  forward_then-fallback hook parts b now now' w = go (Forward.read_body wire proxy b)
    where
      go :
          (text : Result ProxyError String)
          → (read_then engine wire proxy hook parts text now w).0
            ≡ (let (r, n) = (lift text >>= forward_parts wire proxy parts) w.node in
                answered engine wire proxy r now' (record w { node = n })).0
      go (err e) = refl
      go (ok text) =
          passed_same hook text (forward_parts wire proxy parts text w.node).0 now now'
            (record w { node = (forward_parts wire proxy parts text w.node).1 })
