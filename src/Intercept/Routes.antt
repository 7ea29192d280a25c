-- ===== src/Intercept/Routes.antt =====
-- interceptor_routes of intercept.rs: which hook stands behind which path.
use rln_companion.Base.{ℕ, String}
use rln_companion.Base.Int.{ℤ}
use rln_companion.Engine.State.{Engine}
use rln_companion.Intercept.Bodies.{Json}
use rln_companion.Intercept.Exchange.{Hook}
use rln_companion.Intercept.Hooks.{
  rgbinvoice, sendrgb, keysend, sendpayment, lninvoice, issue, inflate, assetlink, sync_pending,
  unlock, lock, shutdown,
}

pub data Route : Type 0 where
  to_rgbinvoice to_sendrgb to_keysend to_sendpayment to_lninvoice to_issueassetnia to_issueassetcfa
        to_issueassetuda to_issueassetifa to_inflate to_assetlink to_refreshtransfers
        to_failtransfers to_init to_unlock to_restore to_lock to_shutdown :
      Route

abbrev pub path_of : Route → String
path_of to_rgbinvoice = "/rgbinvoice"
path_of to_sendrgb = "/sendrgb"
path_of to_keysend = "/keysend"
path_of to_sendpayment = "/sendpayment"
path_of to_lninvoice = "/lninvoice"
path_of to_issueassetnia = "/issueassetnia"
path_of to_issueassetcfa = "/issueassetcfa"
path_of to_issueassetuda = "/issueassetuda"
path_of to_issueassetifa = "/issueassetifa"
path_of to_inflate = "/inflate"
path_of to_assetlink = "/assetlink"
path_of to_refreshtransfers = "/refreshtransfers"
path_of to_failtransfers = "/failtransfers"
path_of to_init = "/init"
path_of to_unlock = "/unlock"
path_of to_restore = "/restore"
path_of to_lock = "/lock"
path_of to_shutdown = "/shutdown"

-- The values of `now()` that a hook reads: where it reads one, where it reads one for each row, and
-- where the engine marks the node.
pub record Times : Type 0 where
  pub now : ℤ
  pub nows : ℕ → ℤ
  pub noted : ℤ

module _ {N : Type 0} (engine : Engine N) (json : Json) where
  unfoldable pub hook_of : Route → Times → Hook N
  unfolding rgbinvoice sendrgb keysend sendpayment lninvoice issue inflate assetlink sync_pending
      lock unlock shutdown
  hook_of to_rgbinvoice times = rgbinvoice engine json times.now
  hook_of to_sendrgb times = sendrgb engine json times.nows
  hook_of to_keysend times = keysend engine json times.now
  hook_of to_sendpayment times = sendpayment engine json times.now
  hook_of to_lninvoice times = lninvoice engine json times.now
  hook_of to_issueassetnia times = issue engine json "NIA" times.now
  hook_of to_issueassetcfa times = issue engine json "CFA" times.now
  hook_of to_issueassetuda times = issue engine json "UDA" times.now
  hook_of to_issueassetifa times = issue engine json "IFA" times.now
  hook_of to_inflate times = inflate engine json
  hook_of to_assetlink times = assetlink engine json
  hook_of to_refreshtransfers times = sync_pending engine json times.now times.noted
  hook_of to_failtransfers times = sync_pending engine json times.now times.noted
  hook_of to_init times = lock engine json times.now
  hook_of to_unlock times = unlock engine json times.now
  hook_of to_restore times = lock engine json times.now
  hook_of to_lock times = lock engine json times.now
  hook_of to_shutdown times = shutdown engine json times.now
