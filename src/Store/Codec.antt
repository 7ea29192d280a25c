-- ===== src/Store/Codec.antt =====
-- enum_to_str, enum_from_str, the conversions of amounts, and the `TryFrom` of the two row types.
use rln_companion.Base.{
  ℕ, String, Option, none, some, List, [], ◌∷◌, Result, ok, err, and_then, leb, ◌==◌, if◌then◌else◌,
  Eq_String,
}
use rln_companion.Base.Int.{ℤ, pos, negsuc, i64_max}
use rln_companion.Store.Types.{
  TransferStatus, initiated, waiting_counterparty, waiting_safe_height, waiting_broadcast,
  waiting_confirmations, settled, PaymentStatus, pending, succeeded, claimable, claiming, cancelled,
  PaymentDirection, inbound, outbound, NodeState, unknown, locked, unlocked, down, misconfigured,
  Transfer, Payment, StoreError, corrupt,
}
use rln_companion.Store.Rows.{TransferRow, PaymentRow}

abbrev pub all_statuses : List TransferStatus
all_statuses =
    initiated ∷ waiting_counterparty ∷ waiting_safe_height ∷ waiting_broadcast
    ∷ waiting_confirmations ∷ settled ∷ TransferStatus.failed ∷ []

abbrev pub all_payment_statuses : List PaymentStatus
all_payment_statuses =
    pending ∷ succeeded ∷ PaymentStatus.failed ∷ claimable ∷ claiming ∷ cancelled ∷ []

abbrev pub all_directions : List PaymentDirection
all_directions = inbound ∷ outbound ∷ []

abbrev pub all_node_states : List NodeState
all_node_states = unknown ∷ locked ∷ unlocked ∷ down ∷ misconfigured ∷ []

-- An enum as the derived `Serialize` writes it: the name of its variant.
unfoldable pub status_to_str : TransferStatus → String
status_to_str initiated = "Initiated"
status_to_str waiting_counterparty = "WaitingCounterparty"
status_to_str waiting_safe_height = "WaitingSafeHeight"
status_to_str waiting_broadcast = "WaitingBroadcast"
status_to_str waiting_confirmations = "WaitingConfirmations"
status_to_str settled = "Settled"
status_to_str TransferStatus.failed = "Failed"

unfoldable pub payment_status_to_str : PaymentStatus → String
payment_status_to_str pending = "Pending"
payment_status_to_str succeeded = "Succeeded"
payment_status_to_str PaymentStatus.failed = "Failed"
payment_status_to_str claimable = "Claimable"
payment_status_to_str claiming = "Claiming"
payment_status_to_str cancelled = "Cancelled"

unfoldable pub direction_to_str : PaymentDirection → String
direction_to_str inbound = "Inbound"
direction_to_str outbound = "Outbound"

unfoldable pub node_state_to_str : NodeState → String
node_state_to_str unknown = "Unknown"
node_state_to_str locked = "Locked"
node_state_to_str unlocked = "Unlocked"
node_state_to_str down = "Down"
node_state_to_str misconfigured = "Misconfigured"

-- The derived `Deserialize` of an enum: the variant of that name, or an error.
unfoldable pub enum_from_str : {A : Type 0} → (A → String) → List A → String → Result StoreError A
enum_from_str name [] s = err corrupt
enum_from_str name (v ∷ vs) s = if name v == s then ok v else enum_from_str name vs s

unfoldable pub status_from_str : String → Result StoreError TransferStatus
unfolding enum_from_str status_to_str
status_from_str = enum_from_str status_to_str all_statuses

unfoldable pub payment_status_from_str : String → Result StoreError PaymentStatus
unfolding enum_from_str payment_status_to_str
payment_status_from_str = enum_from_str payment_status_to_str all_payment_statuses

unfoldable pub direction_from_str : String → Result StoreError PaymentDirection
unfolding enum_from_str direction_to_str
direction_from_str = enum_from_str direction_to_str all_directions

unfoldable pub node_state_from_str : String → Result StoreError NodeState
unfolding enum_from_str node_state_to_str
node_state_from_str = enum_from_str node_state_to_str all_node_states

-- `v.map(f).transpose()`
abbrev pub transpose_map : {E A B : Type 0} → (A → Result E B) → Option A → Result E (Option B)
transpose_map f none = ok none
transpose_map f (some v) = and_then (f v) (λ w. ok (some w))

-- `i64::try_from` of a `u64`, and `u64::try_from` of an `i64`.
abbrev pub i64_from_u64 : ℕ → Result StoreError ℤ
i64_from_u64 n = if leb n i64_max then ok (pos n) else err corrupt

abbrev pub u64_from_i64 : ℤ → Result StoreError ℕ
u64_from_i64 (pos n) = ok n
u64_from_i64 (negsuc n) = err corrupt

unfoldable pub ts_to_db : Option ℕ → Result StoreError (Option ℤ)
ts_to_db v = transpose_map i64_from_u64 v

unfoldable pub amt_to_db : Option ℕ → Result StoreError (Option ℤ)
amt_to_db v = transpose_map i64_from_u64 v

unfoldable pub transfer_try_from : TransferRow → Result StoreError Transfer
transfer_try_from r = and_then (transpose_map u64_from_i64 r.expiration_timestamp) λ expiration.
    and_then (status_from_str r.status) λ status. ok (record {
      id = r.id;
      rln_idx = r.rln_idx;
      asset_id = r.asset_id;
      kind = r.kind;
      status = status;
      recipient_id = r.recipient_id;
      txid = r.txid;
      batch_transfer_idx = r.batch_transfer_idx;
      invoice = r.invoice;
      expiration_timestamp = expiration;
      created_at = r.created_at;
      updated_at = r.updated_at;
      last_seen_at = r.last_seen_at;
      settled_at = r.settled_at;
    })

unfoldable pub payment_try_from : PaymentRow → Result StoreError Payment
payment_try_from r = and_then (direction_from_str r.direction) λ direction.
    and_then (payment_status_from_str r.status) λ status.
      and_then (transpose_map u64_from_i64 r.asset_amount) λ asset_amount.
        and_then (transpose_map u64_from_i64 r.amt_msat) λ amt_msat. ok (record {
          payment_hash = r.payment_hash;
          direction = direction;
          status = status;
          asset_id = r.asset_id;
          asset_amount = asset_amount;
          amt_msat = amt_msat;
          payee_pubkey = r.payee_pubkey;
          created_at = r.created_at;
          updated_at = r.updated_at;
          last_seen_at = r.last_seen_at;
        })
