-- ===== src/Tests/Requests.antt =====
-- Requests through the proxy and the interceptors, at concrete inputs.
use rln_companion.Base.{
  ℕ, ◌+◌, String, ◌≡◌, refl, true, false, none, some, [], ◌∷◌, length, ok, List, All, err,
}
use rln_companion.Base.Int.{pos}
use rln_companion.Intercept.Bodies.{Json}
use rln_companion.Intercept.Exchange.{Hook, forward_then}
use rln_companion.Intercept.Keeps.{requests-Evolves}
use rln_companion.Intercept.Routes.{Times, hook_of, to_rgbinvoice}
use rln_companion.Intercept.Transparent.{forward_then-fallback}
use rln_companion.Proxy.Fallback.{fallback}
use rln_companion.Proxy.Forward.{
  Parts, Wire, Proxy, upstream_of, ProxyError, check_path, ProxyResponse, received,
}
use rln_companion.Store.Codec.{status_from_str, transfer_try_from}
use rln_companion.Sync.Evolve.{Evolves}
use rln_companion.Tests.Sample.{engine, world}
use rln_companion.Proxy.Passed.{values, values-upstream_of}
use rln_companion.Base.Text.{codes}
use rln_companion.Proxy.Segments.{Segment, joined, check_path-Segments}
use rln_companion.Proxy.Headers.{HeaderMap}

-- A node that answers every request with 200 and counts them.
abbrev pub wire : Wire ℕ String
wire = record {
  to_bytes = λ b max. ok b;
  send = λ req n. (ok (record { status = 200; headers = ("te", "x") ∷ []; body = ok "{}" }), n + 1);
  error_body = λ text. none;
  error_json = λ message status name. message;
}

abbrev pub proxy : Proxy
proxy = record { base_url = "http://rln:3001"; max_body = 1024 }

abbrev pub json : Json
json = record {
  invoice_request = λ text. some (record { asset_id = some "B"; witness = false });
  invoice_response = λ text. some (record {
    recipient_id = "r2";
    invoice = "rgb:inv2";
    expiration_timestamp = none;
    batch_transfer_idx = pos 8;
  });
  send_request = λ text. none;
  send_response = λ text. none;
  keysend_request = λ text. none;
  payment_response = λ text. none;
  send_payment_request = λ text. none;
  ln_invoice_request = λ text. none;
  ln_invoice_response = λ text. none;
  issue_response = λ text. none;
  asset_id_field = λ text. none;
  asset_link_request = λ text. none;
}

abbrev pub times : Times
times = record { now = pos 9; nows = λ k. pos 9; noted = pos 9 }

abbrev pub parts : Parts
parts = record {
  method = "POST";
  path = "/rgbinvoice";
  path_and_query = some "/rgbinvoice";
  headers = ("host", "companion") ∷ ("authorization", "Bearer t") ∷ [];
}

abbrev pub invoice_hook : Hook ℕ
invoice_hook = hook_of engine json to_rgbinvoice times

-- The answer comes back without its hop-by-hop header, and the invoice is mirrored.
mirrors_invoice :
    let (resp, effects, after) =
      forward_then engine wire proxy invoice_hook parts "" (pos 9) world in
    (resp ≡ record { status = 200; headers = []; body = "{}" })
    × (effects.woken ≡ true)
    × (length after.db.transfers ≡ 2)
unfolding forward_then hook_of transfer_try_from status_from_str
mirrors_invoice = (refl, refl, refl)

forward_then-fallback_example :
    (forward_then engine wire proxy invoice_hook parts "" (pos 9) world).0
    ≡ (fallback engine wire proxy parts "" (pos 9) world).0
forward_then-fallback_example =
    forward_then-fallback engine wire proxy invoice_hook parts "" (pos 9) (pos 9) world

requests-Evolves_example :
    Evolves world.db (forward_then engine wire proxy invoice_hook parts "" (pos 9) world).2.db
    × Evolves world.db (fallback engine wire proxy parts "" (pos 9) world).1.db
requests-Evolves_example =
    requests-Evolves engine wire proxy json to_rgbinvoice times parts "" world

abbrev answer_headers : HeaderMap
answer_headers = ("te", "trailers") ∷ ("content-type", "application/json") ∷ []

values-upstream_of_example :
    (values "authorization" (upstream_of proxy parts "").headers
      ≡ ("authorization", "Bearer t") ∷ [])
    × ((answer : ProxyResponse) × (received
            (ok (record { status = 200; headers = answer_headers; body = ok "{}" }))
          ≡ ok answer)
        × (answer.status ≡ 200)
        × (answer.body ≡ "{}")
        × (values "authorization" answer.headers ≡ []))
values-upstream_of_example =
    values-upstream_of proxy parts "" "authorization" 200 answer_headers "{}"

rejects_dots : check_path "/companion/../unlock" ≡ err ProxyError.path
unfolding check_path
rejects_dots = refl

accepts_route : check_path "/rgbinvoice" ≡ ok tt
unfolding check_path
accepts_route = refl

check_path-Segments_example :
    (segments : List (List ℕ)) × (joined segments ≡ codes "/rgbinvoice") × All Segment segments
check_path-Segments_example =
    check_path-Segments "/rgbinvoice" (codes "rgbinvoice") refl accepts_route
