-- ===== src/Rln/Client.antt =====
-- `HttpRlnClient` of rln.rs: the requests it sends and what it makes of the answers.
use Prim.Native.String.{◌++◌ as str_append}
use rln_companion.Base.{
  ℕ, max, String, Bool, false, ◌&&◌, ◌||◌, Option, none, some, List, [], ◌∷◌, ◌++◌, map, Result,
  Exec, pure, ◌>>=◌, ◌>>◌, ok, err, ltb, leb, if◌then◌else◌, ◌==◌, Eq_ℕ, Eq_String,
}
use rln_companion.Base.Int.{ℤ}
use rln_companion.Base.Text.{take_chars}
use rln_companion.Rln.Pages.{Page, follow}
use rln_companion.Rln.Types.{RlnTransfer, RlnPayment, RlnError, cannot_fail, api, transport, decode}

-- `#[serde(tag = "type", content = "value")]`
pub data AssetFilter : Type 0 where
  any_asset : AssetFilter
  id : String → AssetFilter

pub record ListTransfersRequest : Type 0 where
  pub asset_filter : AssetFilter
  pub txid : Option String
  pub index_offset : Option ℕ
  pub max_transfers : Option ℕ

-- The structs that the client sends as JSON.
pub data Body : Type 0 where
  refresh_request : Option String → List {0} Unit → Bool → Body
  list_transfers_request : ListTransfersRequest → Body
  decode_request : String → Body
  list_assets_request : List String → Body
  fail_request : Option ℤ → Bool → Bool → Body

pub data Method : Type 0 where
  get : Method
  post : Body → Method

pub record Request : Type 0 where
  pub method : Method
  pub url : String
  pub query : List (String × ℕ)
  pub bearer : Option String

-- An answer: its status, and its body unless the connection broke off.
pub record Answer : Type 0 where
  pub status : ℕ
  pub text : Option String

pub record RlnErrorBody : Type 0 where
  pub error : String
  pub code : ℕ
  pub name : String

pub record ListAssetsResponse : Type 0 where
  pub nia : Option (List String)
  pub uda : Option (List String)
  pub cfa : Option (List String)
  pub ifa : Option (List String)

-- The crates `reqwest` and `serde_json`: sending a request to a node with the states `N`, where none
-- is a transport error, and reading a body as one of the structs.
pub record Http (N : Type 0) : Type 0 where
  pub send : Request → N → Option Answer × N
  pub error_body : String → Option RlnErrorBody
  pub transfers_page : String → Option (Page RlnTransfer)
  pub payments_page : String → Option (Page RlnPayment)
  pub payment_hash : String → Option String
  pub assets : String → Option ListAssetsResponse
  pub transfers_changed : String → Option Bool
  pub network : String → Option String
  pub value : String → Option {0} Unit

pub record HttpRlnClient : Type 0 where
  pub base_url : String
  pub token : Option String

-- `StatusCode::is_success`
abbrev pub is_success : ℕ → Bool
is_success status = leb 200 status && ltb status 300

abbrev pub api_error : RlnErrorBody → RlnError
api_error e = api e.code e.name e.error

unfoldable pub named_error : ℕ → RlnErrorBody → RlnError
named_error status e =
    if status == 403 && (e.name == "LockedNode" || e.name == "ChangingState")
    then RlnError.locked
    else if status == 403 && e.name == "CannotFailBatchTransfer"
    then cannot_fail
    else api_error e

abbrev pub error_of : ℕ → String → Option RlnErrorBody → RlnError
error_of status body none = api status "Unknown" (take_chars 200 body)
error_of status body (some e) = named_error status e

module _ {N : Type 0} (http : Http N) where
  unfoldable pub classify_error : ℕ → String → RlnError
  unfolding named_error
  classify_error status body = error_of status body (http.error_body body)

  abbrev decoded : {T : Type 0} → Option T → Result RlnError T
  decoded none = err decode
  decoded (some t) = ok t

  unfoldable pub read_answer :
      {T : Type 0} → (String → Option T) → Option Answer → Result RlnError T
  unfolding classify_error
  read_answer from_slice none = err transport
  read_answer from_slice (some answer) = elim answer.text [
    | none ↦ err transport
    | some text ↦
        if is_success answer.status
        then decoded (from_slice text)
        else err (classify_error answer.status text)
  ]

  module _ (client : HttpRlnClient) where
    unfoldable pub send : {T : Type 0} → (String → Option T) → Request → Exec N RlnError T
    unfolding read_answer
    send from_slice req n =
        let (answer, n') = http.send (record req { bearer = client.token }) n in
        (read_answer from_slice answer, n')

    unfoldable pub request : Method → String → List (String × ℕ) → Request
    request method path query = record {
      method = method;
      url = str_append client.base_url path;
      query = query;
      bearer = none;
    }

    -- `page_size.max(1)`, and the body of one turn of the loop of `list`.
    unfoldable pub fetch_transfers : AssetFilter → ℕ → Option ℕ → Exec N RlnError (Page RlnTransfer)
    unfolding send request
    fetch_transfers filter page_size offset = send http.transfers_page (
        request
          (post (
            list_transfers_request (record {
              asset_filter = filter;
              txid = none;
              index_offset = offset;
              max_transfers = some page_size;
            })))
          "/listtransfers" [])

    unfoldable pub list : ℕ → AssetFilter → ℕ → Exec N RlnError (Option (List RlnTransfer))
    unfolding follow fetch_transfers
    list pages filter page_size =
        let size = max page_size 1 in follow (fetch_transfers filter size) size pages none []

    abbrev offset_query : Option ℕ → List (String × ℕ)
    offset_query none = []
    offset_query (some offset) = ("index_offset", offset) ∷ []

    unfoldable pub fetch_payments : ℕ → Option ℕ → Exec N RlnError (Page RlnPayment)
    unfolding send request
    fetch_payments page_size offset =
        send http.payments_page
          (request get "/listpayments" (("max_payments", page_size) ∷ offset_query offset))

    unfoldable pub list_payments : ℕ → ℕ → Exec N RlnError (Option (List RlnPayment))
    unfolding follow fetch_payments
    list_payments pages page_size =
        let size = max page_size 1 in follow (fetch_payments size) size pages none []

    unfoldable pub refresh : Bool → Exec N RlnError Unit
    unfolding ◌>>=◌ send request
    refresh skip_sync = do
      send http.value (request (post (refresh_request none [] skip_sync)) "/refreshtransfers" [])
      pure tt

    unfoldable pub list_transfers : ℕ → String → ℕ → Exec N RlnError (Option (List RlnTransfer))
    unfolding list
    list_transfers pages asset_id page_size = list pages (id asset_id) page_size

    unfoldable pub list_assetless_transfers : ℕ → ℕ → Exec N RlnError (Option (List RlnTransfer))
    unfolding list
    list_assetless_transfers pages page_size = list pages any_asset page_size

    unfoldable pub decode_ln_invoice : String → Exec N RlnError String
    unfolding send request
    decode_ln_invoice invoice =
        send http.payment_hash (request (post (decode_request invoice)) "/decodelninvoice" [])

    abbrev of_schema : String → Option (List String) → List (String × String)
    of_schema schema none = []
    of_schema schema (some ids) = map (λ asset_id. (asset_id, schema)) ids

    unfoldable pub list_assets : Exec N RlnError (List (String × String))
    unfolding ◌>>=◌ send request
    list_assets = do
      resp ← send http.assets (request (post (list_assets_request [])) "/listassets" [])
      pure (
          of_schema "NIA" resp.nia
          ++ of_schema "UDA" resp.uda
          ++ of_schema "CFA" resp.cfa
          ++ of_schema "IFA" resp.ifa)

    unfoldable pub fail_transfer : ℤ → Exec N RlnError Unit
    unfolding ◌>>=◌ send request
    fail_transfer batch_transfer_idx = do
      send http.transfers_changed
          (request (post (fail_request (some batch_transfer_idx) false false)) "/failtransfers" [])
      pure tt

    unfoldable pub node_info : Exec N RlnError Unit
    unfolding send request
    node_info = send http.value (request get "/nodeinfo" [])

    unfoldable pub network : Exec N RlnError String
    unfolding send request
    network = send http.network (request get "/networkinfo" [])
