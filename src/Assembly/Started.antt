-- ===== src/Assembly/Started.antt =====
-- What holds once the program listens.
use Prim.Native.String.{◌++◌}
use rln_companion.Assembly.{
  listening, Crates, App, Running, build_app, read_openapi, start, config_error,
}
use rln_companion.Base.{
  ◌≡◌, refl, ◌⊎◌, inl, inr, true, Result, map_err, and_then, ok, err, Bool-cases, Option, none,
  some, arith, String, ◌≢◌, Option-cases, sym,
}
use rln_companion.Base.Int.{ℤ}
use rln_companion.Config.Accepted.{Accepted, validate_iff}
use rln_companion.Config.Settings.{Config, Args, apply_overrides}
use rln_companion.Engine.Fault.{EngineError, Fault, fault, auth_fault}
use rln_companion.Engine.Rounds.{stored_state, noting_lem}
use rln_companion.Engine.State.{
  Engine, probe_error, probe_fault, probe_outcome, probe, probe_checks, check_network,
}
use rln_companion.Store.Codec.{node_state_to_str}
use rln_companion.Store.Types.{NodeState}
use rln_companion.World.{World, on_node}
use rln_companion.Config.Validate.{validate}
use rln_companion.Engine.Probe.{AfterProbe, probe-AfterProbe}
use mathlib.Core.Path.{subst}
use rln_companion.Base.Text.{eq_ignore_ascii_case}
use rln_companion.Rln.Types.{RlnError}
use rln_companion.Store.Valid.Reads.{Result-cases}
use rln_companion.Tests.Sample.{node}
use rln_companion.Engine.State

map_err_ok : {E F A : Type 0} (f : E → F) (r : Result E A) (a : A) → map_err f r ≡ ok a → r ≡ ok a
unfolding map_err
map_err_ok f (ok x) a h = cc
map_err_ok f (err e) a h = cc

-- A first part that returns, and the rest.
first_ok :
    {E A B : Type 0} (r : Result E A) (f : A → Result E B) (b : B)
    → and_then r f ≡ ok b
    → (a : A) × (r ≡ ok a) × (f a ≡ ok b)
first_ok (ok a) f b h = (a, refl, h)
first_ok (err e) f b h = cc

module _ {N : Type 0} (engine : Engine N) where
  -- No network is expected, or the node answers that it is on the one expected.
  abbrev RightNetwork : N → Type 0
  RightNetwork n =
      (engine.expected_network ≡ none)
      ⊎ ((want : String) × (got : String) × (engine.expected_network ≡ some want)
          × ((engine.api.network n).0 ≡ ok got)
          × (eq_ignore_ascii_case got want ≡ true))

  -- The node fails with the error, when it is asked about itself or, after that, for its network.
  abbrev FailsWith : N → RlnError → Type 0
  FailsWith n e =
      ((engine.api.node_info n).0 ≡ err e)
      ⊎ ((want : String) × ((engine.api.node_info n).0 ≡ ok tt)
          × (engine.expected_network ≡ some want)
          × ((engine.api.network (engine.api.node_info n).1).0 ≡ err e))

  -- A node is taken for unlocked if it answers, and is on the right network; for locked if it says
  -- so; and for down if it cannot be reached.
  pub data Told (n : N) : NodeState → Type 0 where
    answers :
        (engine.api.node_info n).0 ≡ ok tt
        → RightNetwork (engine.api.node_info n).1
        → Told n NodeState.unlocked
    says_locked : FailsWith n RlnError.locked → Told n NodeState.locked
    out_of_reach : FailsWith n RlnError.transport → Told n NodeState.down

  abbrev Outcome : N → Result EngineError Unit → Type 0
  Outcome n (ok u) = ((engine.api.node_info n).0 ≡ ok tt) × RightNetwork (engine.api.node_info n).1
  Outcome n (err e) =
      ((r : RlnError) × FailsWith n r × (e ≡ auth_fault r))
      ⊎ ((text : String) × (e ≡ EngineError.misconfigured text))

  concludes :
      (w : World N) (r : Result EngineError Unit)
      → (probe_checks engine w).0 ≡ r
      → Outcome w.node r
      → Outcome w.node (probe_checks engine w).0
  concludes w r e o = subst (Outcome w.node) (sym e) o

  probe_checks-Outcome : (w : World N) → Outcome w.node (probe_checks engine w).0
  unfolding probe_checks check_network on_node map_err
  probe_checks-Outcome w = elim (Result-cases (engine.api.node_info w.node).0) [
    | inr (e, failed) ↦
        concludes w (err (auth_fault e)) (rw failed refl) (inl (e, inl failed, refl))
    | inl (u, well) ↦ elim (Option-cases engine.expected_network) [
      | inl free ↦ concludes w (ok tt) (rw (well, free) refl) (well, inl free)
      | inr (want, expects) ↦
          elim (Result-cases (engine.api.network (engine.api.node_info w.node).1).0) [
            | inr (e, failed) ↦
                concludes w (err (auth_fault e)) (ground arith)
                  (inl (e, inr (want, well, expects, failed), refl))
            | inl (got, gave) ↦ elim (Bool-cases (eq_ignore_ascii_case got want)) [
              | inl same ↦
                  concludes w (ok tt) (ground arith) (well, inr (want, got, expects, gave, same))
              | inr other ↦
                  concludes w
                    (err (
                      EngineError.misconfigured
                        ("node network is " ++ got ++ ", rln.network expects " ++ want)))
                    (ground arith) (inr (_, refl))
            ]
          ]
    ]
  ]

  locked_fault : (r : RlnError) → fault (auth_fault r) ≡ some Fault.locked → r ≡ RlnError.locked
  unfolding fault auth_fault
  locked_fault r h = ground arith

  away_fault :
      (r : RlnError) → fault (auth_fault r) ≡ some Fault.unreachable → r ≡ RlnError.transport
  unfolding fault auth_fault
  away_fault r h = ground arith

  failed_with :
      (n : N) (e : EngineError) (f : Fault) (r : RlnError)
      → Outcome n (err e)
      → fault e ≡ some f
      → ((x : RlnError) → fault (auth_fault x) ≡ some f → x ≡ r)
      → FailsWith n r
  unfolding fault
  failed_with n e f r (inl (x, failed, same)) h which =
      subst (FailsWith n) (which x (rw same at h)) failed
  failed_with n e f r (inr (text, same)) h which = cc (rw same at h)

  probe_error_raises :
      (e : EngineError) (now : ℤ) (w : World N) (state : NodeState)
      → (probe_error engine e now w).0 ≢ ok state
  unfolding probe_error State.set_node_state
  probe_error_raises (EngineError.misconfigured text) now w state h = ground arith
  probe_error_raises (EngineError.rln e) now w state h = cc
  probe_error_raises (EngineError.sync e) now w state h = cc
  probe_error_raises (EngineError.store e) now w state h = cc

  probe_fault-Told :
      (n : N) (e : EngineError) (f : Option Fault) (now : ℤ) (w : World N) (state : NodeState)
      → Outcome n (err e)
      → fault e ≡ f
      → (probe_fault engine e f now w).0 ≡ ok state
      → Told n state
  unfolding probe_fault
  probe_fault-Told n e none now w state o m h = absurd (probe_error_raises e now w state h)
  probe_fault-Told n e (some Fault.locked) now w state o m h =
      let same = (noting_lem engine NodeState.locked now NodeState.locked state w h).0 in
      subst (Told n) same
        (says_locked (failed_with n e Fault.locked RlnError.locked o m locked_fault))
  probe_fault-Told n e (some Fault.unreachable) now w state o m h =
      let same = (noting_lem engine NodeState.down now NodeState.down state w h).0 in
      subst (Told n) same
        (out_of_reach (failed_with n e Fault.unreachable RlnError.transport o m away_fault))

  probe_outcome-Told :
      (n : N) (r : Result EngineError Unit) (now : ℤ) (w : World N) (state : NodeState)
      → Outcome n r
      → (probe_outcome engine r now w).0 ≡ ok state
      → Told n state
  unfolding probe_outcome
  probe_outcome-Told n (ok u) now w state (well, right) h =
      let same = (noting_lem engine NodeState.unlocked now NodeState.unlocked state w h).0 in
      subst (Told n) same (answers well right)
  probe_outcome-Told n (err e) now w state o h = probe_fault-Told n e (fault e) now w state o refl h

  probe-Told :
      (now : ℤ) (w : World N) (state : NodeState)
      → (probe engine now w).0 ≡ ok state
      → Told w.node state
  unfolding probe
  probe-Told now w state h =
      let checked = probe_checks engine w in
      probe_outcome-Told w.node checked.0 now checked.1 state (probe_checks-Outcome w) h

module _ {N H B : Type 0} (crates : Crates N H B) where
  -- The program listens with the configuration that was loaded, under the command line, which is
  -- accepted; on its port; with the parts that `build_app` makes of it; and with a state of the node
  -- in its database that the node's answers to a probe stand for.
  pub record Started (args : Args) (node : N) (s : Running N H B) : Type 0 where
    pub loaded : Config
    pub from_file : crates.host.load args.config ≡ ok loaded
    pub overridden : s.cfg ≡ apply_overrides loaded args
    pub valid_config : Accepted crates.parsers s.cfg
    pub openapi : Option String
    pub document : read_openapi crates args.openapi ≡ ok openapi
    pub built : build_app crates s.cfg openapi ≡ ok s.app
    pub bound_port : crates.host.bind s.cfg.service.listen_port ≡ true
    pub probed : NodeState
    pub told : Told s.app.parts.engine node probed
    pub recorded : stored_state s.world ≡ node_state_to_str probed

  listening-ok :
      (cfg : Config) (app : App N H B) (r : Result EngineError NodeState) (w : World N)
      (s : Running N H B)
      → listening crates cfg app (r, w) ≡ ok s
      → (state : NodeState) × (r ≡ ok state)
        × (crates.host.bind cfg.service.listen_port ≡ true)
        × (record { cfg = cfg; app = app; world = w } ≡ s)
  listening-ok cfg app (err e) w s h = cc
  listening-ok cfg app (ok state) w s h =
      elim (Bool-cases (crates.host.bind cfg.service.listen_port)) [
        | inl bound ↦ (state, refl, bound, cc (rw bound at h))
        | inr taken ↦ cc (rw taken at h)
      ]

  probed-recorded :
      (engine : Engine N) (now : ℤ) (w : World N) (state : NodeState)
      → (probe engine now w).0 ≡ ok state
      → stored_state (probe engine now w).1 ≡ node_state_to_str state
  probed-recorded engine now w state h =
      let after = probe-AfterProbe engine now w in
      subst (λ r. AfterProbe engine (stored_state w) r (probe engine now w).1) h after

  -- Whenever starting comes as far as the socket: the configuration is the one that was loaded, with
  -- the command line over it, and is an accepted one; the parts are built from it and its port is
  -- bound; and the database says that the node is unlocked, which then answers a probe and is on the
  -- network that is expected, if one is; that it is locked, which then says so; or that it is down,
  -- which then cannot be reached.
  pub start-Started :
      (args : Args) (node : N) (now : ℤ) (s : Running N H B)
      → start crates args node now ≡ ok s
      → Started args node s
  unfolding start
  start-Started args node now s h =
      let (loaded, read, h1) =
        first_ok (map_err config_error (crates.host.load args.config)) _ s h in
      let cfg = apply_overrides loaded args in
      let (_, checked, h2) = first_ok (map_err config_error (validate crates.parsers cfg)) _ s h1 in
      let (openapi, document, h3) = first_ok (read_openapi crates args.openapi) _ s h2 in
      let (app, built, h4) = first_ok (build_app crates cfg openapi) _ s h3 in
      let w : World N = record { db = app.db; node = node; drawn = 0 } in
      let tried = probe app.parts.engine now w in
      let (state, concluded, bound, same) = listening-ok cfg app tried.0 tried.1 s h4 in
      subst (Started args node) same (record {
        loaded = loaded;
        from_file = map_err_ok config_error (crates.host.load args.config) loaded read;
        overridden = refl;
        valid_config =
            (validate_iff crates.parsers cfg).0
              (map_err_ok config_error (validate crates.parsers cfg) tt checked);
        openapi = openapi;
        document = document;
        built = built;
        bound_port = bound;
        probed = state;
        told = probe-Told app.parts.engine now w state concluded;
        recorded = probed-recorded app.parts.engine now w state concluded;
      })
